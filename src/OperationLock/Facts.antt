-- ===== src/OperationLock/Facts.antt =====
-- Taking and releasing the lock leaves alone what does not depend on the system.
use iold.Base.{Bool, Text}
use iold.Fault.{Result, ok, err}
use iold.Action.{Action, ◌>>=◌}
use iold.Action.Ensures.{
  Ensures, Post, Anything, Ensures-pure, Ensures-raise, Ensures-bind, Ensures-weaken,
  Ensures-attempt, Ensures_any, Ensures_of_Keeps,
}
use iold.Action.Keeps.{Keeps, Keeps-pure, Keeps-raise, Keeps-bind, Keeps-attempt}
use iold.Host.{Host, Flock, flocked, would_block, flock_failed}
use iold.World.{World}
use iold.Files.Facts.{close-Keeps, open_secured-Keeps}
use iold.Supervisor.Identity.Indifferent.{IsIndifferent}
use iold.OperationLock.{by_flock, acquire, release, settled, holding}

module _ {D : Type 0} (h : Host) (P : World D h.Os → Type 0) (i : IsIndifferent h P) where
  by_flock-Keeps : (path : Text) (n : Bool) (f : Flock) → Keeps P (by_flock h path n f)
  unfolding by_flock
  by_flock-Keeps path n flocked = Keeps-pure _
  by_flock-Keeps path n would_block = Keeps-bind _ _ (close-Keeps h P i path) (λ u. Keeps-raise _)
  by_flock-Keeps path n flock_failed = Keeps-bind _ _ (close-Keeps h P i path) (λ u. Keeps-raise _)

  pub acquire-Keeps :
      (dir path : Text) (nonblocking : Bool) → Keeps P (acquire h dir path nonblocking)
  unfolding acquire
  acquire-Keeps dir path nonblocking = Keeps-bind _ _ (open_secured-Keeps h P i dir path) λ u.
      Keeps-bind _ _ (i.asks Flock (h.flock path nonblocking))
        (λ answer. by_flock-Keeps path nonblocking answer)

  settled-Keeps : {A : Type 0} (r : Result A) → Keeps P (settled h r)
  unfolding settled
  settled-Keeps (ok a) = Keeps-pure _
  settled-Keeps (err f) = Keeps-raise _

  pub release-Keeps : (path : Text) → Keeps P (release h path)
  unfolding release
  release-Keeps path = Keeps-bind _ _ (i.asks Bool (h.unlock path)) (λ u. close-Keeps h P i path)

  pub holding-Keeps :
      {A : Type 0} (path : Text) (m : Action (World D h.Os) A)
      → Keeps P m
      → Keeps P (holding h path m)
  unfolding holding
  holding-Keeps path m k =
      Keeps-bind _ _ (Keeps-attempt m k)
        (λ r. Keeps-bind _ _ (release-Keeps path) (λ u. settled-Keeps r))

module _ {D : Type 0} (h : Host) {A : Type 0} (path : Text) (Q : A → World D h.Os → Type 0)
    (i : (a : A) → IsIndifferent h (Q a)) where
  after_release :
      (r : Result A) → Ensures (Post Q Anything r) (release h path >>= λ u. settled h r) Q Anything
  unfolding settled
  after_release (ok a) =
      Ensures-bind _ _
        (Ensures-weaken _ (Ensures_of_Keeps _ (release-Keeps h (Q a) (i a) path)) (λ w q. q)
          (λ u w q. q) (λ w q. tt))
        (λ u. Ensures-pure a (λ w q. q))
  after_release (err f) =
      Ensures-bind _ _ (Ensures_any (release h path)) (λ u. Ensures-raise f (λ w q. tt))

  -- What is ensured under the lock is ensured when it is released.
  pub holding_returns :
      {P : World D h.Os → Type 0} (m : Action (World D h.Os) A)
      → Ensures P m Q Anything
      → Ensures P (holding h path m) Q Anything
  unfolding holding
  holding_returns m k = Ensures-bind _ _ (Ensures-attempt m k) (λ r. after_release r)
