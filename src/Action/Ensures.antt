-- ===== src/Action/Ensures.antt =====
-- What an action has achieved when it returns, and when it fails: `Ensures P m Q E` says that from a
-- state in `P` a result `a` comes with a state in `Q a`, and an error with a state in `E`.
use iold.Base.{◌≡◌, refl, subst, Bool, true, false, if◌then◌else◌}
use iold.Fault.{Fault, Result, ok, err}
use iold.Action.{Action, pure, raise, catch, on_error, attempt, ◌>>=◌, go_on}
use iold.Action.Keeps.{Keeps}
use iold.Action.Yields.{Yields, Returned}

module _ {ℓ} {S A : Type ℓ} where
  abbrev pub Post : (A → S → Type ℓ) → (S → Type ℓ) → Result A → S → Type ℓ
  Post Q E (ok a) s = Q a s
  Post Q E (err f) s = E s

  pub record Ensures (P : S → Type ℓ) (m : Action S A) (Q : A → S → Type ℓ) (E : S → Type ℓ)
      : Type ℓ where
    pub at : (s : S) → P s → Post Q E (m s).0 (m s).1

module _ {ℓ} {S A : Type ℓ} {Q : A → S → Type ℓ} {E : S → Type ℓ} where
  Ensures-on_error :
      (r : Result A) (s : S) (h : Fault → Action S A) {M : S → Type ℓ}
      → Post Q M r s
      → ((f : Fault) → Ensures M (h f) Q E)
      → Post Q E (on_error r h s).0 (on_error r h s).1
  unfolding on_error
  Ensures-on_error (ok a) s h p k = p
  Ensures-on_error (err f) s h p k = (k f).at s p

  Post-map :
      {Q' : A → S → Type ℓ} {E' : S → Type ℓ} (r : Result A) (s : S)
      → ((a : A) (s : S) → Q a s → Q' a s)
      → ((s : S) → E s → E' s)
      → Post Q E r s
      → Post Q' E' r s
  Post-map (ok a) s f g h = f a s h
  Post-map (err e) s f g h = g s h

module _ {ℓ} {S A : Type ℓ} {P : S → Type ℓ} {Q : A → S → Type ℓ} {E : S → Type ℓ} where
  pub Ensures-pure : (a : A) → ((s : S) → P s → Q a s) → Ensures P (pure a) Q E
  unfolding pure
  Ensures-pure a h = record { at = h }

  pub Ensures-raise : (f : Fault) → ((s : S) → P s → E s) → Ensures P (raise f) Q E
  unfolding raise
  Ensures-raise f h = record { at = h }

  -- Where the assertion before is false nothing has to be shown.
  pub Ensures_of_absurd : (m : Action S A) → ((s : S) → P s → ⊥) → Ensures P m Q E
  Ensures_of_absurd m h = record { at = λ s p. absurd (h s p) }

  -- A part of the assertion before that does not speak of the state.
  pub Ensures_of_pre :
      {C : Type ℓ} (m : Action S A) → (C → Ensures P m Q E) → Ensures (λ s. P s × C) m Q E
  Ensures_of_pre m h = record { at = λ s p. (h p.1).at s p.0 }

  -- Each branch may use its test.
  pub Ensures-if :
      (b : Bool) (m n : Action S A)
      → (b ≡ true → Ensures P m Q E)
      → (b ≡ false → Ensures P n Q E)
      → Ensures P (if b then m else n) Q E
  Ensures-if true m n hm hn = hm refl
  Ensures-if false m n hm hn = hn refl

  pub Ensures-catch :
      {M : S → Type ℓ} (m : Action S A) (h : Fault → Action S A)
      → Ensures P m Q M
      → ((f : Fault) → Ensures M (h f) Q E)
      → Ensures P (catch m h) Q E
  unfolding catch
  Ensures-catch m h hm hh = record { at = λ s p. Ensures-on_error (m s).0 (m s).1 h (hm.at s p) hh }

  pub Ensures-attempt :
      {E' : S → Type ℓ} (m : Action S A) → Ensures P m Q E → Ensures P (attempt m) (Post Q E) E'
  unfolding attempt
  Ensures-attempt m hm = record { at = λ s p. hm.at s p }

  pub Ensures-weaken :
      {P' : S → Type ℓ} {Q' : A → S → Type ℓ} {E' : S → Type ℓ} (m : Action S A)
      → Ensures P m Q E
      → ((s : S) → P' s → P s)
      → ((a : A) (s : S) → Q a s → Q' a s)
      → ((s : S) → E s → E' s)
      → Ensures P' m Q' E'
  Ensures-weaken m hm p q e = record { at = λ s h. Post-map (m s).0 (m s).1 q e (hm.at s (p s h)) }

module _ {ℓ} {S A : Type ℓ} where
  pub Post-same : (P : S → Type ℓ) (r : Result A) (s : S) → P s → Post (λ _. P) P r s
  Post-same P (ok a) s h = h
  Post-same P (err f) s h = h

  pub Ensures_of_Keeps : {P : S → Type ℓ} (m : Action S A) → Keeps P m → Ensures P m (λ _. P) P
  Ensures_of_Keeps m k = record { at = λ s h. Post-same _ (m s).0 (m s).1 (k.at s h) }

  Post_both : (P : S → Type ℓ) (r : Result A) (s : S) → Post (λ _. P) P r s → P s
  Post_both P (ok a) s h = h
  Post_both P (err f) s h = h

  pub Keeps_of_Ensures : {P : S → Type ℓ} (m : Action S A) → Ensures P m (λ _. P) P → Keeps P m
  Keeps_of_Ensures m k = record { at = λ s h. Post_both _ (m s).0 (m s).1 (k.at s h) }

module _ {ℓ} {S A B : Type ℓ} {Q : B → S → Type ℓ} {E : S → Type ℓ} where
  Ensures-go_on :
      {M : A → S → Type ℓ} (r : Result A) (s : S) (k : A → Action S B)
      → Post M E r s
      → ((a : A) → Ensures (M a) (k a) Q E)
      → Post Q E (go_on r k s).0 (go_on r k s).1
  unfolding go_on
  Ensures-go_on (ok a) s k p h = (h a).at s p
  Ensures-go_on (err f) s k p h = p

module _ {ℓ} {S A B : Type ℓ} {P : S → Type ℓ} {Q : B → S → Type ℓ} {E : S → Type ℓ} where
  pub Ensures-bind :
      {M : A → S → Type ℓ} (m : Action S A) (k : A → Action S B)
      → Ensures P m M E
      → ((a : A) → Ensures (M a) (k a) Q E)
      → Ensures P (m >>= k) Q E
  unfolding ◌>>=◌
  Ensures-bind m k hm hk = record { at = λ s p. Ensures-go_on (m s).0 (m s).1 k (hm.at s p) hk }

module _ {ℓ} {S A : Type ℓ} where
  Post-and :
      (Q Q' : A → S → Type ℓ) (E E' : S → Type ℓ) (r : Result A) (s : S)
      → Post Q E r s
      → Post Q' E' r s
      → Post (λ a s. Q a s × Q' a s) (λ s. E s × E' s) r s
  Post-and Q Q' E E' (ok a) s h k = (h, k)
  Post-and Q Q' E E' (err f) s h k = (h, k)

  pub Ensures-and :
      {P P' : S → Type ℓ} {Q Q' : A → S → Type ℓ} {E E' : S → Type ℓ} (m : Action S A)
      → Ensures P m Q E
      → Ensures P' m Q' E'
      → Ensures (λ s. P s × P' s) m (λ a s. Q a s × Q' a s) (λ s. E s × E' s)
  Ensures-and m h k = record {
    at = λ s p. Post-and _ _ _ _ (m s).0 (m s).1 (h.at s p.0) (k.at s p.1);
  }

-- Where nothing is said of the states.
abbrev pub Anything {ℓ} : {S : Type ℓ} → S → Type ℓ
Anything s = Unit

module _ {ℓ} {S A : Type ℓ} where
  pub Ensures_any : {P : S → Type ℓ} (m : Action S A) → Ensures P m (λ _. Anything) Anything
  Ensures_any m = record { at = λ s p. Post-same Anything (m s).0 (m s).1 tt }

  Post-Returned :
      (Q : A → Type ℓ) (r : Result A) (s : S)
      → Returned Q r
      → Post {S = S} (λ a _. Q a) Anything r s
  Post-Returned Q (ok a) s q = q
  Post-Returned Q (err f) s q = tt

  pub Ensures_of_Yields :
      {P : S → Type ℓ} {Q : A → Type ℓ} (m : Action S A)
      → Yields Q m
      → Ensures P m (λ a _. Q a) Anything
  Ensures_of_Yields {Q = Q} m y = record { at = λ s p. Post-Returned Q (m s).0 (m s).1 (y.at s) }

  pub Post_ok :
      (Q : A → S → Type ℓ) (E : S → Type ℓ) (r : Result A) (s : S) (a : A)
      → Post Q E r s
      → r ≡ ok a
      → Q a s
  Post_ok Q E (ok b) s a q e = subst (λ x. Q x s) (cc) q
  Post_ok Q E (err f) s a q e = absurd (cc)
