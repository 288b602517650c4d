-- ===== src/Files/Facts.antt =====
-- Opening and closing files leaves alone what does not depend on the system.
use iold.Base.{Bool, true, false, Text}
use iold.Action.Keeps.{Keeps, Keeps-pure, Keeps-raise, Keeps-bind}
use iold.Host.{Host}
use iold.World.{World}
use iold.Supervisor.Identity.Indifferent.{IsIndifferent}
use iold.Supervisor.Start.Facts.{must-Keeps}
use iold.Files.{close, secure, open_secured}

module _ {D : Type 0} (h : Host) (P : World D h.Os → Type 0) (i : IsIndifferent h P) where
  pub close-Keeps : (path : Text) → Keeps P (close h path)
  unfolding close
  close-Keeps path = i.asks Unit (λ s. (tt, h.close_file path s))

  secure-Keeps : (path : Text) (done : Bool) → Keeps P (secure h path done)
  unfolding secure
  secure-Keeps path true = Keeps-pure _
  secure-Keeps path false = Keeps-bind _ _ (close-Keeps path) (λ u. Keeps-raise _)

  pub open_secured-Keeps : (dir path : Text) → Keeps P (open_secured h dir path)
  unfolding open_secured
  open_secured-Keeps dir path = Keeps-bind _ _ (must-Keeps h P i _) λ u.
      Keeps-bind _ _ (must-Keeps h P i _) λ u.
        Keeps-bind _ _ (must-Keeps h P i _) λ u.
          Keeps-bind _ _ (i.asks Bool (h.chmod_open path 0o600)) (λ done. secure-Keeps path done)
