-- ===== src/Supervisor/Start.antt =====
-- `Start` of internal/supervisor/supervisor.go: launch the runtime and capture its identity.
pub mod Facts
use iold.Base.{
  ℕ, zero, suc, ◌&&◌, ◌||◌, ◌==◌, not, Bool, true, false, List, [], ◌∷◌, ◌++◌, Text, codes,
  is_empty, join_words, Option, none, some, reverse, if◌then◌else◌,
}
use iold.Fault.{Fault, Result, ok, err, system_failed, start_failed}
use iold.Action.{Action, pure, raise, attempt, ◌>>=◌, ◌>>◌}
use iold.Host.{Host, Launch, kill_now, group}
use iold.World.{World, signalled, started, ask, note}
use iold.Supervisor.Identity.{process_start_info, cmdline, exited}
use iold.Supervisor.Process.{Process, normalize}

-- filepath.Dir of a clean absolute path.
unfoldable pub dir_from : Text → Text → Text → Text
dir_from dir seen [] = reverse dir
dir_from dir seen (c ∷ s) = dir_from (if c == b'/' then seen else dir) (c ∷ seen) s

unfoldable pub directory_of : Text → Text
unfolding dir_from
directory_of s = dir_from [] [] s

-- `commandString` and `runtimeCommandString`
unfoldable pub command_string : Text → List Text → Text
command_string command args = join_words (command ∷ args)

-- 5 * time.Millisecond
abbrev capture_pause : ℕ
capture_pause = 5000000

abbrev identified_as : Process → ℕ × Text → Process
identified_as p a = record p { started_at = a.0; start_token = a.1 }

-- The process with its live command line, when both were read and the command line is not empty.
captured : Process → Result Text → Result (ℕ × Text) → Option Process
captured p (ok current) (ok a) =
    if is_empty (normalize current)
    then none
    else some (record (identified_as p a) { command = normalize current })
captured p _ _ = none

module _ {D : Type 0} (h : Host) where
  ran_out : Process → Result (ℕ × Text) → Action (World D h.Os) (Option Process)
  ran_out p (err f) = pure none
  ran_out p (ok a) = do
    gone ← exited h p.pid
    pure (if gone then some (identified_as p a) else none)

  attempt_capture : Process → Action (World D h.Os) (Option Process)
  unfolding captured ran_out
  attempt_capture p = do
    current ← attempt (cmdline h p.pid)
    info ← attempt (process_start_info h p.pid)
    elim (captured p current info) [ some q ↦ pure (some q) | none ↦ ran_out p info ]

  capture_round :
      Option Process
      → Action (World D h.Os) (Option Process)
      → Action (World D h.Os) (Option Process)
  capture_round (some q) rest = pure (some q)
  capture_round none rest = do ask (λ s. (tt {0}, h.sleep capture_pause s)); rest

  -- `for range 20`
  unfoldable pub capture : ℕ → Process → Action (World D h.Os) (Option Process)
  unfolding attempt_capture capture_round
  capture zero p = pure none
  capture (suc rounds) p = do found ← attempt_capture p; capture_round found (capture rounds p)

  -- A child without an identity is killed through its own handle.
  abandon : ℕ → Action (World D h.Os) Process
  abandon pid = do
    note (signalled pid kill_now)
    ask (h.kill (group pid) kill_now)
    ask (λ s. (tt {0}, h.kill_child pid s))
    raise start_failed

  keep_identified : ℕ → Option Process → Action (World D h.Os) Process
  unfolding abandon
  keep_identified pid none = abandon pid
  keep_identified pid (some q) =
      if is_empty q.start_token || q.started_at == 0 then abandon pid else pure q

  launched : Launch → Option ℕ → Action (World D h.Os) Process
  unfolding keep_identified
  launched spec none = raise start_failed
  launched spec (some pid) = do
    note (started pid spec)
    found ← capture 20 (record {
      pid = pid;
      command = command_string spec.command spec.args;
      log_path = spec.log_path;
      started_at = 0;
      start_token = [];
    })
    keep_identified pid found

  -- A call of the system that reports success or failure.
  unfoldable pub must : (h.Os → Bool × h.Os) → Action (World D h.Os) Unit
  must call = do done ← ask call; if done then pure tt else raise system_failed

  unfoldable pub start : Launch → Action (World D h.Os) Process
  unfolding launched
  start spec = do
    must (h.mkdir_all (directory_of spec.log_path))
    must (h.chmod (directory_of spec.log_path) 0o700)
    must (h.start_log_proxy spec.log_path)
    child ← ask (h.start_command spec)
    launched spec child
