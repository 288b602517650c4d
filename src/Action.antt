-- ===== src/Action.antt =====
-- Code that reads and changes the state of the machine and may fail: what was done before an error
-- stays done, so the state comes back beside the error too.
pub mod Keeps
pub mod Ensures
pub mod Yields
use iold.Base.{Bool, true, false, if◌then◌else◌}
use iold.Fault.{Fault, Result, ok, err}

abbrev pub Action {ℓ} : Type ℓ → Type ℓ → Type ℓ
Action S A = S → Result A × S

module _ {ℓ} {S A : Type ℓ} where
  -- `return a, nil` and `return …, err`.
  unfoldable pub pure : A → Action S A
  pure a s = (ok a, s)

  unfoldable pub raise : Fault → Action S A
  raise f s = (err f, s)

  -- `if err := m; err != nil { handle it }`, where the handler may go on.
  on_error : Result A → (Fault → Action S A) → Action S A
  on_error (ok a) h s = (ok a, s)
  on_error (err f) h s = h f s

  unfoldable pub catch : Action S A → (Fault → Action S A) → Action S A
  unfolding on_error
  catch m h s = let (r, s') = m s in on_error r h s'

  -- The call with its error as a value.
  unfoldable pub attempt : Action S A → Action S (Result A)
  attempt m s = let (r, s') = m s in (ok r, s')

module _ {ℓ} {S A B : Type ℓ} where
  go_on : Result A → (A → Action S B) → Action S B
  go_on (ok a) k s = k a s
  go_on (err f) k s = (err f, s)

  infixl 10 ◌>>=◌ ◌>>◌
  unfoldable pub ◌>>=◌ : Action S A → (A → Action S B) → Action S B
  unfolding go_on
  ◌>>=◌ m k s = let (r, s') = m s in go_on r k s'

  abbrev pub ◌>>◌ : Action S A → Action S B → Action S B
  m >> n = m >>= λ _. n
