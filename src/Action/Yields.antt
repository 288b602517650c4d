-- ===== src/Action/Yields.antt =====
-- What is known of the value that an action returns, whatever the state: `Yields Q m` says that every
-- value that `m` returns is in `Q`.
use iold.Base.{◌≡◌, refl, Bool, true, false, if◌then◌else◌, subst}
use iold.Fault.{Fault, Result, ok, err}
use iold.Action.{Action, pure, raise, catch, on_error, ◌>>=◌, go_on}
use iold.World.{ask}

module _ {ℓ} {A : Type ℓ} where
  abbrev pub Returned : (A → Type ℓ) → Result A → Type ℓ
  Returned Q (ok a) = Q a
  Returned Q (err f) = Unit

  of_returned : (Q : A → Type ℓ) (r : Result A) (a : A) → Returned Q r → r ≡ ok a → Q a
  of_returned Q (ok b) a q e = subst Q (cc) q
  of_returned Q (err f) a q e = absurd (cc)

  Returned-map :
      {Q Q' : A → Type ℓ} (r : Result A) → Returned Q r → ((a : A) → Q a → Q' a) → Returned Q' r
  Returned-map (ok a) q f = f a q
  Returned-map (err e) q f = tt

module _ {ℓ} {S A : Type ℓ} where
  pub record Yields (Q : A → Type ℓ) (m : Action S A) : Type ℓ where
    pub at : (s : S) → Returned Q (m s).0

  pub Yields-pure : {Q : A → Type ℓ} (a : A) → Q a → Yields Q (pure {S = S} a)
  unfolding pure
  Yields-pure a q = record { at = λ s. q }

  pub Yields-raise : {Q : A → Type ℓ} (f : Fault) → Yields Q (raise {S = S} f)
  unfolding raise
  Yields-raise f = record { at = λ s. tt }

  -- Each branch may use its test.
  pub Yields-if :
      {Q : A → Type ℓ} (b : Bool) (m n : Action S A)
      → (b ≡ true → Yields Q m)
      → (b ≡ false → Yields Q n)
      → Yields Q (if b then m else n)
  Yields-if true m n hm hn = hm refl
  Yields-if false m n hm hn = hn refl

  pub Yields-map :
      {Q Q' : A → Type ℓ} {m : Action S A} → Yields Q m → ((a : A) → Q a → Q' a) → Yields Q' m
  Yields-map {m = m} y f = record { at = λ s. Returned-map (m s).0 (y.at s) f }

  Returned-on_error :
      {Q : A → Type ℓ} (r : Result A) (s : S) (h : Fault → Action S A)
      → Returned Q r
      → ((f : Fault) → Yields Q (h f))
      → Returned Q (on_error r h s).0
  unfolding on_error
  Returned-on_error (ok a) s h q k = q
  Returned-on_error (err f) s h q k = (k f).at s

  pub Yields-catch :
      {Q : A → Type ℓ} (m : Action S A) (h : Fault → Action S A)
      → Yields Q m
      → ((f : Fault) → Yields Q (h f))
      → Yields Q (catch m h)
  unfolding catch
  Yields-catch m h y k = record { at = λ s. Returned-on_error (m s).0 (m s).1 h (y.at s) k }

  pub Yields_ok :
      {Q : A → Type ℓ} (m : Action S A) → Yields Q m → (s : S) (a : A) → (m s).0 ≡ ok a → Q a
  Yields_ok m y s a e = of_returned _ (m s).0 a (y.at s) e

module _ {ℓ} {S A B : Type ℓ} {Q : B → Type ℓ} where
  Returned-go_on :
      {M : A → Type ℓ} (r : Result A) (s : S) (k : A → Action S B)
      → Returned M r
      → ((a : A) → M a → Yields Q (k a))
      → Returned Q (go_on r k s).0
  unfolding go_on
  Returned-go_on (ok a) s k q h = (h a q).at s
  Returned-go_on (err f) s k q h = tt

  pub Yields-bind :
      {M : A → Type ℓ} (m : Action S A) (k : A → Action S B)
      → Yields M m
      → ((a : A) → M a → Yields Q (k a))
      → Yields Q (m >>= k)
  unfolding ◌>>=◌
  Yields-bind m k y h = record { at = λ s. Returned-go_on (m s).0 (m s).1 k (y.at s) h }

pub bind_of_ok {ℓ} :
    {S A B : Type ℓ} (m : Action S A) (k : A → Action S B) (s : S) (a : A)
    → (m s).0 ≡ ok a
    → (m >>= k) s ≡ k a (m s).1
unfolding ◌>>=◌ go_on
bind_of_ok m k s a e = rw e

pub bind_of_err {ℓ} :
    {S A B : Type ℓ} (m : Action S A) (k : A → Action S B) (s : S) (f : Fault)
    → (m s).0 ≡ err f
    → (m >>= k) s ≡ (err f, (m s).1)
unfolding ◌>>=◌ go_on
bind_of_err m k s f e = rw e refl

-- The value is what the system answers in some state.
abbrev pub Answers {ℓ} : {O A : Type ℓ} → (O → A × O) → A → Type ℓ
Answers {O = O} call a = (o : O) × ((call o).0 ≡ a)

pub Yields-ask : {D O A : Type 0} (call : O → A × O) → Yields (Answers call) (ask {D = D} call)
unfolding ask
Yields-ask call = record { at = λ w. (w.os, refl) }

-- Nothing is said of the value.
Returned-any {ℓ} : {A : Type ℓ} (r : Result A) → Returned (λ _. Unit {ℓ}) r
Returned-any (ok a) = tt
Returned-any (err f) = tt

pub Yields-any {ℓ} : {S A : Type ℓ} (m : Action S A) → Yields (λ _. Unit {ℓ}) m
Yields-any m = record { at = λ s. Returned-any (m s).0 }
