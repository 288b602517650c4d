-- ===== src/Supervisor/Process.antt =====
-- internal/supervisor/supervisor.go: is a recorded process alive, ours, and still the same?
pub mod Facts
use iold.Base.{
  ℕ, ◌+◌, ◌-◌, ◌*◌, ◌&&◌, ◌||◌, not, ◌==◌, leb, Bool, true, false, List, Text, text_eq, is_empty,
  fields, join_words, if◌then◌else◌,
}
use iold.Fault.{Fault, Result, ok, err, system_failed, incomplete_identity}
use iold.Action.{Action, pure, raise, attempt, catch, ◌>>=◌, ◌>>◌}
use iold.Host.{Host, Signal, probe, Target, process, group, Errno, delivered, not_permitted}
use iold.World.{World, ask}
use iold.Supervisor.Identity.{process_start_info, cmdline}

-- The persisted identity of a supervised process.
pub record Process : Type 0 where
  pub pid : ℕ
  pub command : Text
  pub log_path : Text
  pub started_at : ℕ
  pub start_token : Text

-- An existing process that may not be signalled counts as alive.
abbrev pub exists : Errno → Bool
exists delivered = true
exists not_permitted = true
exists _ = false

unfoldable pub normalize : Text → Text
normalize s = join_words (fields s)

-- |a - b| ≤ 1s
unfoldable pub same_start_time : ℕ → ℕ → Bool
same_start_time a b = leb (a - b + (b - a)) 1000000000

abbrev pub is_incomplete : Process → Bool
is_incomplete p = is_empty p.start_token || p.started_at == 0 || is_empty p.command

pub data Status : Type 0 where
  running stale reused unknown : Status

abbrev pub status_of : Result Bool → Status
status_of (err f) = unknown
status_of (ok false) = reused
status_of (ok true) = running

module _ {D : Type 0} (h : Host) where
  unfoldable pub alive : ℕ → Action (World D h.Os) Bool
  alive pid =
      if pid == 0 then pure false else do e ← ask (h.kill (process pid) probe); pure (exists e)

  unfoldable pub process_group_alive : ℕ → Action (World D h.Os) Bool
  process_group_alive pgid =
      if pgid == 0 then pure false else do e ← ask (h.kill (group pgid) probe); pure (exists e)

  unfoldable pub verify_owned : Process → Action (World D h.Os) Bool
  verify_owned p = do
    live ← alive p.pid
    if not live then pure false else if is_incomplete p then raise incomplete_identity else do
      (at, token) ← process_start_info h p.pid
      if not (text_eq token p.start_token) || not (same_start_time at p.started_at)
          then pure false
          else do
            current ← cmdline h p.pid
            pure (text_eq (normalize current) (normalize p.command))

  -- `Owned`: an error counts as no.
  unfoldable pub owned : Process → Action (World D h.Os) Bool
  owned p = catch (verify_owned p) (λ _. pure false)

  unfoldable pub reconcile : Process → Action (World D h.Os) Status
  reconcile p = do
    live ← alive p.pid
    if not live then pure stale else do verdict ← attempt (verify_owned p); pure (status_of verdict)
