-- ===== src/Supervisor/Stop.antt =====
-- `Stop` of internal/supervisor/supervisor.go: SIGTERM to the group of an owned process, SIGKILL
-- after the grace period. Times are nanoseconds.
pub mod Guard
pub mod Ends
pub mod Facts
use iold.Base.{
  ℕ, zero, suc, ◌+◌, ◌-◌, ◌/◌, not, ◌==◌, ltb, Bool, true, false, Option, none, some, Text,
  if◌then◌else◌,
}
use iold.Fault.{Fault, Result, ok, err, system_failed, not_owned, group_survives}
use iold.Action.{Action, pure, raise, attempt, catch, ◌>>=◌, ◌>>◌}
use iold.Host.{
  Host, Signal, terminate, kill_now, group, Errno, delivered, not_permitted, no_such_process,
  other_errno,
}
use iold.World.{World, signalled, ask, note}
use iold.Supervisor.Identity.{cmdline}
use iold.Supervisor.Process.{Process, alive, process_group_alive, verify_owned}

abbrev pub poll : ℕ
poll = 50000000

-- `starved` stands for fuel that ran out; the laws of the clock exclude it.
pub data Waited : Type 0 where
  emptied timed_out starved : Waited

-- Enough for the grace period, in rounds of one pause.
abbrev pub rounds : ℕ → ℕ
rounds grace = suc (suc (grace / poll))

abbrev pub in_own_group : Option ℕ → ℕ → Bool
in_own_group none pid = false
in_own_group (some pgid) pid = pgid == pid

module _ {D : Type 0} (h : Host) where
  signal_result : ℕ → Errno → Action (World D h.Os) Unit
  signal_result pgid delivered = pure tt
  signal_result pgid no_such_process = pure tt
  signal_result pgid _ = raise system_failed

  unfoldable pub signal_group : ℕ → Signal → Action (World D h.Os) Unit
  unfolding signal_result
  signal_group pgid s = do
    note (signalled pgid s)
    e ← ask (h.kill (group pgid) s)
    signal_result pgid e

  -- One round of `for time.Now().Before(deadline)`, before the rest of the loop.
  unfoldable pub wait_round : ℕ → ℕ → Action (World D h.Os) Waited → Action (World D h.Os) Waited
  wait_round pgid deadline rest = do
    now ← ask h.now
    if not (ltb now deadline) then pure timed_out else do
      live ← process_group_alive h pgid
      if not live then pure emptied else do ask (λ s. (tt {0}, h.sleep poll s)); rest

  unfoldable pub wait_empty : ℕ → ℕ → ℕ → Action (World D h.Os) Waited
  wait_empty zero pgid deadline = pure starved
  wait_empty (suc fuel) pgid deadline = wait_round pgid deadline (wait_empty fuel pgid deadline)

  -- One round of `for range 100`.
  unfoldable pub poll_round : ℕ → Action (World D h.Os) Waited → Action (World D h.Os) Waited
  poll_round pgid rest = do
    live ← process_group_alive h pgid
    if not live then pure emptied else do ask (λ s. (tt {0}, h.sleep poll s)); rest

  unfoldable pub poll_empty : ℕ → ℕ → Action (World D h.Os) Waited
  poll_empty zero pgid = pure timed_out
  poll_empty (suc rounds) pgid = poll_round pgid (poll_empty rounds pgid)

  after_kill : ℕ → Waited → Action (World D h.Os) Unit
  after_kill pid emptied = pure tt
  after_kill pid _ = raise (group_survives pid)

  after_wait : ℕ → Waited → Action (World D h.Os) Unit
  unfolding after_kill
  after_wait pid emptied = pure tt
  after_wait pid timed_out = do signal_group pid kill_now; w ← poll_empty 100 pid; after_kill pid w
  after_wait pid starved = raise system_failed

  terminate_group : ℕ → ℕ → Action (World D h.Os) Unit
  unfolding after_wait
  terminate_group pid grace = do
    signal_group pid terminate
    now ← ask h.now
    w ← wait_empty (rounds grace) pid (now + grace)
    after_wait pid w

  stop_owned : ℕ → ℕ → Action (World D h.Os) Unit
  unfolding terminate_group
  stop_owned pid grace = do
    pgid ← ask (h.getpgid pid)
    if not (in_own_group pgid pid) then raise (not_owned pid) else terminate_group pid grace

  stop_verified : Process → ℕ → Result Bool → Action (World D h.Os) Unit
  unfolding stop_owned
  stop_verified p grace (err f) = raise (not_owned p.pid)
  stop_verified p grace (ok false) = do
    -- the live command line, for the message
    attempt (cmdline h p.pid)
    raise (not_owned p.pid)
  stop_verified p grace (ok true) = stop_owned p.pid grace

  unfoldable pub stop : Process → ℕ → Action (World D h.Os) Unit
  unfolding stop_verified
  stop p grace = do
    live ← alive h p.pid
    if not live
        then (do
          left ← process_group_alive h p.pid
          if left then raise (not_owned p.pid) else pure tt)
        else do verdict ← attempt (verify_owned h p); stop_verified p grace verdict
