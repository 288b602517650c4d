-- ===== src/State/Store.antt =====
-- internal/state/store.go: the operations of the store, over any database and operating system.
pub mod Life
pub mod Effect
pub mod Moves
pub mod After
pub mod Runtime
pub mod Creation
use iold.Base.{
  ℕ, ◌≡◌, ◌&&◌, ◌||◌, not, ◌==◌, Bool, true, false, Option, none, some, List, [], ◌∷◌, Text,
  if◌then◌else◌,
}
use iold.Fault.{
  Fault, Result, ok, err, illegal_transition, not_found, conflict, runtime_conflict, duplicate,
  not_destroyed, database_failed,
}
use iold.Action.{Action, pure, raise, attempt, ◌>>=◌, ◌>>◌}
use iold.Host.{Host}
use iold.World.{World, ask}
use iold.State.Machine.{
  Phase, requested, downloading, starting, failed, crashed, destroyed, phase_eq, check_transition,
}
use iold.State.Record.{
  Deployment, Reason, no_reason, Statement, insert, set_phase, set_intent, set_runtime, delete,
  seconds,
}
use iold.State.Columns.{stored}
use iold.State.Database.{Database, Reply, done, constraint, broken, Rows, rows, unread}

-- `reason is stored only for terminal failure/reconciliation states`
abbrev pub kept_reason : Phase → Reason → Reason
kept_reason to why =
    if not (phase_eq to failed) && not (phase_eq to crashed) then no_reason else why

module _ (d : Database) (h : Host) where
  abbrev pub State : Type 0
  State = World d.Db h.Os

  -- db.Exec, with the count of RowsAffected; an error of either is an error of the call.
  unfoldable pub execute : Statement → Action State Reply
  execute q w = let (r, db) = d.exec q w.db in (ok r, record w { db = db })

  unfoldable pub select : Text → Action State (Rows (Option Deployment))
  select id w = let (r, db) = d.query id w.db in (ok r, record w { db = db })

  unfoldable pub select_all : Action State (Rows (List Deployment))
  select_all w = let (r, db) = d.query_all w.db in (ok r, record w { db = db })

  created : Deployment → Reply → Action State Deployment
  created r (done n) = pure r
  created r constraint = raise (duplicate r.id)
  created r broken = raise database_failed

  unfoldable pub create : Deployment → Action State Deployment
  unfolding created
  create given = do
    now ← ask h.now
    let r = record given {
      phase = requested;
      failure_reason = no_reason;
      created_at = seconds now;
      updated_at = seconds now;
    }
    reply ← execute (insert (stored r))
    created r reply

  scan : Rows (Option Deployment) → Action State Deployment
  scan (rows (some r)) = pure r
  scan (rows none) = raise not_found
  scan unread = raise database_failed

  unfoldable pub get : Text → Action State Deployment
  unfolding scan
  get id = do found ← select id; scan found

  scan_all : Rows (List Deployment) → Action State (List Deployment)
  scan_all (rows rs) = pure rs
  scan_all unread = raise database_failed

  unfoldable pub list : Action State (List Deployment)
  unfolding scan_all
  list = do found ← select_all; scan_all found

  -- What `Transition` makes of the count: with no row changed it reports the phase that it finds.
  moved : Text → Phase → Reply → Action State Unit
  moved id from (done n) =
      if n == 0 then (do current ← get id; raise (conflict from current.phase)) else pure tt
  moved id from constraint = raise database_failed
  moved id from broken = raise database_failed

  unfoldable pub transition : Text → Phase → Phase → Reason → Action State Unit
  unfolding moved
  transition id from to why = elim (check_transition from to) [
    | some i ↦ raise (illegal_transition i)
    | none ↦ do
      now ← ask h.now
      reply ← execute (set_phase to (kept_reason to why) (seconds now) id from)
      moved id from reply
  ]

  expect_one_runtime_row : Text → Phase → Reply → Action State Unit
  expect_one_runtime_row id expected (done n) =
      if n == 0
      then (do current ← get id; raise (runtime_conflict expected current.phase current.pid))
      else pure tt
  expect_one_runtime_row id expected constraint = raise database_failed
  expect_one_runtime_row id expected broken = raise database_failed

  unfoldable pub set_runtime_intent : Text → ℕ → Text → Action State Unit
  unfolding expect_one_runtime_row
  set_runtime_intent id port command = do
    now ← ask h.now
    reply ← execute (set_intent port command now id downloading)
    expect_one_runtime_row id downloading reply

  unfoldable pub record_runtime : Text → ℕ → ℕ → Text → ℕ → Text → Action State Unit
  unfolding expect_one_runtime_row
  record_runtime id pid port command started_at token = do
    now ← ask h.now
    reply ← execute (set_runtime pid port command started_at token now id starting)
    expect_one_runtime_row id starting reply

  refused : Text → Result Deployment → Action State Unit
  refused id (err not_found) = raise not_found
  refused id _ = raise (not_destroyed id)

  dropped : Text → Reply → Action State Unit
  unfolding refused
  dropped id (done n) = if n == 0 then (do found ← attempt (get id); refused id found) else pure tt
  dropped id constraint = raise database_failed
  dropped id broken = raise database_failed

  unfoldable pub delete_record : Text → Action State Unit
  unfolding dropped
  delete_record id = do reply ← execute (delete id destroyed); dropped id reply
