-- ===== src/OperationLock.antt =====
-- internal/operationlock/lock.go. The lock of a file is the system's; the model has what `acquire` and
-- `Close` make of its answers, and a command that holds the lock while it runs.
pub mod Facts
use iold.Base.{Bool, true, false, Text, if◌then◌else◌}
use iold.Fault.{Fault, Result, ok, err, busy, system_failed}
use iold.Action.{Action, pure, raise, attempt, ◌>>=◌, ◌>>◌}
use iold.Host.{Host, Flock, flocked, would_block, flock_failed}
use iold.World.{World, ask}
use iold.Files.{close, open_secured}

module _ {D : Type 0} (h : Host) where
  by_flock : Text → Bool → Flock → Action (World D h.Os) Unit
  by_flock path nonblocking flocked = pure tt
  by_flock path nonblocking would_block = do
    close h path
    raise (if nonblocking then busy else system_failed)
  by_flock path nonblocking flock_failed = do close h path; raise system_failed

  unfoldable pub acquire : (dir path : Text) (nonblocking : Bool) → Action (World D h.Os) Unit
  unfolding by_flock
  acquire dir path nonblocking = do
    open_secured h dir path
    answer ← ask (h.flock path nonblocking)
    by_flock path nonblocking answer

  -- `Close`, whose error the callers do not look at.
  unfoldable pub release : Text → Action (World D h.Os) Unit
  release path = do unlocked ← ask (h.unlock path); close h path

  settled : {A : Type 0} → Result A → Action (World D h.Os) A
  settled (ok a) = pure a
  settled (err f) = raise f

  -- `defer lock.Close()`
  unfoldable pub holding : {A : Type 0} → Text → Action (World D h.Os) A → Action (World D h.Os) A
  unfolding release settled
  holding path m = do result ← attempt m; release path; settled result
