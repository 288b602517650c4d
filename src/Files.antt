-- ===== src/Files.antt =====
-- The first steps of `state.Open` and of `operationlock.acquire`, which are the same: a file in a
-- directory, both for their owner only.
pub mod Facts
use iold.Base.{Bool, true, false, not, Text, if◌then◌else◌}
use iold.Fault.{Fault, system_failed}
use iold.Action.{Action, pure, raise, ◌>>=◌, ◌>>◌}
use iold.Host.{Host}
use iold.World.{World, ask}
use iold.Supervisor.Start.{must}

module _ {D : Type 0} (h : Host) where
  unfoldable pub close : Text → Action (World D h.Os) Unit
  close path = ask (λ s. (tt, h.close_file path s))

  secure : Text → Bool → Action (World D h.Os) Unit
  unfolding close
  secure path true = pure tt
  secure path false = do close path; raise system_failed

  unfoldable pub open_secured : (dir path : Text) → Action (World D h.Os) Unit
  unfolding secure
  open_secured dir path = do
    must h (h.mkdir_all dir)
    must h (h.chmod dir 0o700)
    must h (h.open_create path)
    done ← ask (h.chmod_open path 0o600)
    secure path done
