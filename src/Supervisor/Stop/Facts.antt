-- ===== src/Supervisor/Stop/Facts.antt =====
-- Stopping a process leaves alone what does not depend on the system and the trace.
use iold.Base.{ℕ, zero, suc, Bool, true, false, Option}
use iold.Fault.{Result, ok, err}
use iold.Action.Keeps.{Keeps, Keeps-bind, Keeps-raise, Keeps-pure, Keeps-if, Keeps-attempt}
use iold.Host.{Host, Errno, delivered, no_such_process, group, Signal, kill_now, terminate}
use iold.World.{World, signalled, ask}
use iold.Supervisor.Identity.Facts.{IsQuiet-IsReading, IsQuiet, cmdline-Keeps}
use iold.Supervisor.Identity.Indifferent.{IsIndifferent, IsIndifferent-IsQuiet}
use iold.Supervisor.Process.{Process}
use iold.Supervisor.Process.Facts.{alive-Keeps, process_group_alive-Keeps, verify_owned-Keeps}
use iold.Supervisor.Stop.{
  Waited, emptied, timed_out, starved, signal_result, signal_group, wait_round, wait_empty,
  poll_round, poll_empty, poll, rounds, after_kill, after_wait, terminate_group, stop_owned,
  stop_verified, stop,
}

module _ {D : Type 0} (h : Host) (P : World D h.Os → Type 0) (i : IsIndifferent h P) where
  quiet : IsQuiet h P
  quiet = IsIndifferent-IsQuiet h P i

  signal_result-Keeps : (pgid : ℕ) (e : Errno) → Keeps P (signal_result {D = D} h pgid e)
  unfolding signal_result
  signal_result-Keeps pgid delivered = Keeps-pure _
  signal_result-Keeps pgid no_such_process = Keeps-pure _
  signal_result-Keeps pgid _ = Keeps-raise _

  signal_group-Keeps : (pgid : ℕ) (s : Signal) → Keeps P (signal_group h pgid s)
  unfolding signal_group
  signal_group-Keeps pgid s =
      Keeps-bind _ _ (i.notes (signalled pgid s))
        λ u. Keeps-bind _ _ (i.asks Errno (h.kill (group pgid) s)) (λ e. signal_result-Keeps pgid e)

  pause-Keeps : Keeps P (ask {D = D} (λ s. (tt {0}, h.sleep poll s)))
  pause-Keeps = i.asks Unit (λ s. (tt {0}, h.sleep poll s))

  wait_empty-Keeps : (fuel pgid deadline : ℕ) → Keeps P (wait_empty h fuel pgid deadline)
  unfolding wait_empty wait_round
  wait_empty-Keeps zero pgid deadline = Keeps-pure _
  wait_empty-Keeps (suc fuel) pgid deadline = Keeps-bind _ _ (i.asks ℕ h.now) λ now.
      Keeps-if _ _ _ (Keeps-pure _) (
        Keeps-bind _ _ (process_group_alive-Keeps h P (IsQuiet-IsReading h P quiet) pgid) λ live.
          Keeps-if _ _ _ (Keeps-pure _)
            (Keeps-bind _ _ pause-Keeps (λ u. wait_empty-Keeps fuel pgid deadline)))

  poll_empty-Keeps : (rounds pgid : ℕ) → Keeps P (poll_empty h rounds pgid)
  unfolding poll_empty poll_round
  poll_empty-Keeps zero pgid = Keeps-pure _
  poll_empty-Keeps (suc rounds) pgid =
      Keeps-bind _ _ (process_group_alive-Keeps h P (IsQuiet-IsReading h P quiet) pgid) λ live.
        Keeps-if _ _ _ (Keeps-pure _)
          (Keeps-bind _ _ pause-Keeps (λ u. poll_empty-Keeps rounds pgid))

  after_kill-Keeps : (pid : ℕ) (r : Waited) → Keeps P (after_kill {D = D} h pid r)
  unfolding after_kill
  after_kill-Keeps pid emptied = Keeps-pure _
  after_kill-Keeps pid _ = Keeps-raise _

  after_wait-Keeps : (pid : ℕ) (r : Waited) → Keeps P (after_wait h pid r)
  unfolding after_wait
  after_wait-Keeps pid emptied = Keeps-pure _
  after_wait-Keeps pid timed_out =
      Keeps-bind _ _ (signal_group-Keeps pid kill_now)
        λ u. Keeps-bind _ _ (poll_empty-Keeps 100 pid) (λ r. after_kill-Keeps pid r)
  after_wait-Keeps pid starved = Keeps-raise _

  stop_owned-Keeps : (pid grace : ℕ) → Keeps P (stop_owned h pid grace)
  unfolding stop_owned terminate_group
  stop_owned-Keeps pid grace = Keeps-bind _ _ (i.asks (Option ℕ) (h.getpgid pid)) λ g.
      Keeps-if _ _ _ (Keeps-raise _) (
        Keeps-bind _ _ (signal_group-Keeps pid terminate) λ u.
          Keeps-bind _ _ (i.asks ℕ h.now) λ now.
            Keeps-bind _ _ (wait_empty-Keeps (rounds grace) pid _) (λ r. after_wait-Keeps pid r))

  stop_verified-Keeps :
      (p : Process) (grace : ℕ) (v : Result Bool) → Keeps P (stop_verified h p grace v)
  unfolding stop_verified
  stop_verified-Keeps p grace (err f) = Keeps-raise _
  stop_verified-Keeps p grace (ok false) =
      Keeps-bind _ _ (Keeps-attempt _ (cmdline-Keeps h P (IsQuiet-IsReading h P quiet) p.pid))
        (λ c. Keeps-raise _)
  stop_verified-Keeps p grace (ok true) = stop_owned-Keeps p.pid grace

  pub stop-Keeps : (p : Process) (grace : ℕ) → Keeps P (stop h p grace)
  unfolding stop
  stop-Keeps p grace = Keeps-bind _ _ (alive-Keeps h P (IsQuiet-IsReading h P quiet) p.pid) λ live.
      Keeps-if _ _ _
        (Keeps-bind _ _ (process_group_alive-Keeps h P (IsQuiet-IsReading h P quiet) p.pid)
          λ left. Keeps-if _ _ _ (Keeps-raise _) (Keeps-pure _))
        (Keeps-bind _ _ (Keeps-attempt _ (verify_owned-Keeps h P (IsQuiet-IsReading h P quiet) p))
          (stop_verified-Keeps p grace))
