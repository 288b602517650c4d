-- ===== src/State/Record.antt =====
-- internal/state/store.go: the row of a deployment, and the statements that the store sends to the
-- database. A statement carries the values bound to its `?`.
use iold.Base.{
  ℕ, ◌&&◌, ◌==◌, ◌-◌, ◌%◌, Bool, true, false, Option, none, some, [], Text, if◌then◌else◌,
}
use iold.Fault.{Fault}
use iold.State.Machine.{Phase, phase_eq}

-- The text of `failure_reason`, by where it comes from: "", a literal, or `cause.Error()`.
pub data Reason : Type 0 where
  no_reason : Reason
  reason : Text → Reason
  cause : Fault → Reason

-- Times are nanoseconds; 0 is the zero time, which `formatOptionalTime` writes as "".
pub record Deployment : Type 0 where
  pub id : Text
  pub alias : Text
  pub artifact : Text
  pub artifact_revision : Text
  pub model_cache_dir : Text
  pub port : ℕ
  pub pid : ℕ
  pub command : Text
  pub started_at : ℕ
  pub start_token : Text
  pub phase : Phase
  pub failure_reason : Reason
  pub idempotency_key : Text
  pub created_at : ℕ
  pub updated_at : ℕ

-- `time.RFC3339` keeps whole seconds; `time.RFC3339Nano` keeps all.
abbrev pub seconds : ℕ → ℕ
seconds t = t - t % 1000000000

pub data Statement : Type 0 where
  -- INSERT INTO deployments
  insert : Deployment → Statement
  -- UPDATE … SET phase, failure_reason, updated_at WHERE id = ? AND phase = ?
  set_phase : (to : Phase) (why : Reason) (at : ℕ) (id : Text) (from : Phase) → Statement
  -- UPDATE … SET pid = 0, port, command, started_at = '', start_token = '', updated_at
  --   WHERE id = ? AND phase = ?
  set_intent : (port : ℕ) (command : Text) (at : ℕ) (id : Text) (from : Phase) → Statement
  -- UPDATE … SET pid, port, command, started_at, start_token, updated_at
  --   WHERE id = ? AND phase = ? AND pid = 0
  set_runtime :
      (pid port : ℕ) (command : Text) (started_at : ℕ) (token : Text) (at : ℕ) (id : Text)
      (from : Phase)
      → Statement
  -- DELETE FROM deployments WHERE id = ? AND phase = ?
  delete : (id : Text) (from : Phase) → Statement

-- The primary key that a statement names.
abbrev pub key : Statement → Text
key (insert d) = d.id
key (set_phase to why at id from) = id
key (set_intent port command at id from) = id
key (set_runtime pid port command started_at token at id from) = id
key (delete id from) = id

-- Whether the statement changes the row that has its key, by its WHERE clause.
abbrev pub hits : Statement → Option Deployment → Bool
hits (insert d) none = true
hits (insert d) (some r) = false
hits (set_phase to why at id from) (some r) = phase_eq r.phase from
hits (set_intent port command at id from) (some r) = phase_eq r.phase from
hits (set_runtime pid port command started_at token at id from) (some r) =
    phase_eq r.phase from && r.pid == 0
hits (delete id from) (some r) = phase_eq r.phase from
hits _ none = false

-- The row after the statement has changed it, by its SET clause.
abbrev pub changed : Statement → Option Deployment → Option Deployment
changed (insert d) row = some d
changed (set_phase to why at id from) (some r) =
    some (record r { phase = to; failure_reason = why; updated_at = at })
changed (set_intent port command at id from) (some r) = some (record r {
  pid = 0;
  port = port;
  command = command;
  started_at = 0;
  start_token = [];
  updated_at = at;
})
changed (set_runtime pid port command started_at token at id from) (some r) = some (record r {
  pid = pid;
  port = port;
  command = command;
  started_at = started_at;
  start_token = token;
  updated_at = at;
})
changed (delete id from) (some r) = none
changed _ none = none

abbrev pub row_after : Statement → Option Deployment → Option Deployment
row_after q row = if hits q row then changed q row else row

abbrev pub affected : Statement → Option Deployment → ℕ
affected q row = if hits q row then 1 else 0
