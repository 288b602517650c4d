-- ===== src/Action/Keeps.antt =====
-- Invariants of actions: `Keeps P m` says that the action preserves `P`, whether it fails or not, with
-- one rule for each way to build an action.
use iold.Base.{Bool, true, false, if◌then◌else◌}
use iold.Fault.{Fault, Result, ok, err}
use iold.Action.{Action, pure, raise, catch, on_error, attempt, ◌>>=◌, go_on}

pub record Keeps {ℓ} {S A : Type ℓ} (P : S → Type ℓ) (m : Action S A) : Type ℓ where
  pub at : (s : S) → P s → P (m s).1

module _ {ℓ} {S A : Type ℓ} {P : S → Type ℓ} where
  pub Keeps-pure : (a : A) → Keeps P (pure {S = S} a)
  unfolding pure
  Keeps-pure a = record { at = λ s h. h }

  pub Keeps-raise : (f : Fault) → Keeps P (raise {S = S} {A = A} f)
  unfolding raise
  Keeps-raise f = record { at = λ s h. h }

  pub Keeps-if :
      (b : Bool) (m n : Action S A) → Keeps P m → Keeps P n → Keeps P (if b then m else n)
  Keeps-if true m n km kn = km
  Keeps-if false m n km kn = kn

  Keeps-on_error :
      (r : Result A) (h : Fault → Action S A)
      → ((f : Fault) → Keeps P (h f))
      → Keeps P (on_error r h)
  unfolding on_error
  Keeps-on_error (ok a) h kh = record { at = λ s p. p }
  Keeps-on_error (err f) h kh = kh f

  pub Keeps-catch :
      (m : Action S A) (h : Fault → Action S A)
      → Keeps P m
      → ((f : Fault) → Keeps P (h f))
      → Keeps P (catch m h)
  unfolding catch
  Keeps-catch m h km kh = record {
    at = λ s p. let (r, s') = m s in (Keeps-on_error r h kh).at s' (km.at s p);
  }

  pub Keeps-attempt : (m : Action S A) → Keeps P m → Keeps P (attempt m)
  unfolding attempt
  Keeps-attempt m km = record { at = λ s p. km.at s p }

module _ {ℓ} {S A B : Type ℓ} {P : S → Type ℓ} where
  Keeps-go_on :
      (r : Result A) (k : A → Action S B) → ((a : A) → Keeps P (k a)) → Keeps P (go_on r k)
  unfolding go_on
  Keeps-go_on (ok a) k kk = kk a
  Keeps-go_on (err f) k kk = record { at = λ s p. p }

  pub Keeps-bind :
      (m : Action S A) (k : A → Action S B)
      → Keeps P m
      → ((a : A) → Keeps P (k a))
      → Keeps P (m >>= k)
  unfolding ◌>>=◌
  Keeps-bind m k km kk = record {
    at = λ s p. let (r, s') = m s in (Keeps-go_on r k kk).at s' (km.at s p);
  }

pub ruleset keeps_rules =
    (Keeps-pure, Keeps-raise, Keeps-if, Keeps-catch, Keeps-attempt, Keeps-bind)
