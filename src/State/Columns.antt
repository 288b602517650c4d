-- ===== src/State/Columns.antt =====
-- internal/state/store.go: what the columns of a row keep. The INSERT of `Create` binds a value to each column that
-- it names, and `scanDeployment` reads the columns of the SELECT by their position.
use iold.Base.{ℕ, ◌-◌, ◌==◌, List, [], ◌∷◌, Text, if◌then◌else◌}
use iold.State.Machine.{Phase, requested}
use iold.State.Record.{Deployment, Reason, no_reason, seconds}

pub data ColumnName : Type 0 where
  id_column : ColumnName
  alias_column : ColumnName
  artifact_column : ColumnName
  artifact_revision_column : ColumnName
  model_cache_dir_column : ColumnName
  port_column : ColumnName
  pid_column : ColumnName
  command_column : ColumnName
  started_at_column : ColumnName
  start_token_column : ColumnName
  phase_column : ColumnName
  failure_reason_column : ColumnName
  idempotency_key_column : ColumnName
  created_at_column : ColumnName
  updated_at_column : ColumnName

abbrev number_of : ColumnName → ℕ
number_of id_column = 0
number_of alias_column = 1
number_of artifact_column = 2
number_of artifact_revision_column = 3
number_of model_cache_dir_column = 4
number_of port_column = 5
number_of pid_column = 6
number_of command_column = 7
number_of started_at_column = 8
number_of start_token_column = 9
number_of phase_column = 10
number_of failure_reason_column = 11
number_of idempotency_key_column = 12
number_of created_at_column = 13
number_of updated_at_column = 14

-- A bound value. A time is the instant that its text denotes; the empty text is the zero time.
pub data Value : Type 0 where
  text : Text → Value
  number : ℕ → Value
  phase_text : Phase → Value
  reason_text : Reason → Value
  time_text : ℕ → Value

-- `Format(time.RFC3339)`
abbrev pub format_rfc3339 : ℕ → Value
format_rfc3339 t = time_text (seconds t)

-- `formatOptionalTime`, with `time.RFC3339Nano`
abbrev pub format_optional_time : ℕ → Value
format_optional_time t = time_text t

-- The columns that the INSERT names, in order.
abbrev pub insert_columns : List ColumnName
insert_columns =
    id_column ∷ alias_column ∷ artifact_column ∷ artifact_revision_column ∷ model_cache_dir_column
    ∷ port_column ∷ pid_column ∷ command_column ∷ started_at_column ∷ start_token_column
    ∷ phase_column ∷ failure_reason_column ∷ idempotency_key_column ∷ created_at_column
    ∷ updated_at_column ∷ []

-- The arguments of the INSERT, in order.
abbrev pub bound : Deployment → List Value
bound d =
    text d.id
    ∷ text d.alias
    ∷ text d.artifact
    ∷ text d.artifact_revision
    ∷ text d.model_cache_dir
    ∷ number d.port
    ∷ number d.pid
    ∷ text d.command
    ∷ format_optional_time d.started_at
    ∷ text d.start_token
    ∷ phase_text d.phase
    ∷ reason_text d.failure_reason
    ∷ text d.idempotency_key
    ∷ format_rfc3339 d.created_at
    ∷ format_rfc3339 d.updated_at
    ∷ []

-- The columns of both SELECTs, in order.
abbrev pub select_columns : List ColumnName
select_columns =
    id_column ∷ alias_column ∷ artifact_column ∷ artifact_revision_column ∷ model_cache_dir_column
    ∷ port_column ∷ pid_column ∷ command_column ∷ started_at_column ∷ start_token_column
    ∷ phase_column ∷ failure_reason_column ∷ idempotency_key_column ∷ created_at_column
    ∷ updated_at_column ∷ []

-- The value that was bound to a column.
abbrev value_of : ColumnName → List ColumnName → List Value → Value
value_of c (n ∷ ns) (v ∷ vs) = if number_of c == number_of n then v else value_of c ns vs
value_of c ns vs = text []

abbrev selected : List ColumnName → List ColumnName → List Value → List Value
selected [] ns vs = []
selected (c ∷ cs) ns vs = value_of c ns vs ∷ selected cs ns vs

-- Reading a value of another kind fails in the program; no column is read so.
abbrev as_text : Value → Text
as_text (text s) = s
as_text _ = []

abbrev as_number : Value → ℕ
as_number (number n) = n
as_number _ = 0

abbrev as_phase : Value → Phase
as_phase (phase_text p) = p
as_phase _ = requested

abbrev as_reason : Value → Reason
as_reason (reason_text r) = r
as_reason _ = no_reason

abbrev as_time : Value → ℕ
as_time (time_text t) = t
as_time _ = 0

abbrev value_at : ℕ → List Value → Value
value_at i [] = text []
value_at i (v ∷ vs) = if i == 0 then v else value_at (i - 1) vs

-- `scanDeployment`: the destinations by position.
abbrev pub scan_deployment : List Value → Deployment
scan_deployment row = record {
  id = as_text (value_at 0 row);
  alias = as_text (value_at 1 row);
  artifact = as_text (value_at 2 row);
  artifact_revision = as_text (value_at 3 row);
  model_cache_dir = as_text (value_at 4 row);
  port = as_number (value_at 5 row);
  pid = as_number (value_at 6 row);
  command = as_text (value_at 7 row);
  started_at = as_time (value_at 8 row);
  start_token = as_text (value_at 9 row);
  phase = as_phase (value_at 10 row);
  failure_reason = as_reason (value_at 11 row);
  idempotency_key = as_text (value_at 12 row);
  created_at = as_time (value_at 13 row);
  updated_at = as_time (value_at 14 row);
}

-- The row that a SELECT reads back from what the INSERT of `d` bound.
abbrev pub stored : Deployment → Deployment
stored d = scan_deployment (selected select_columns insert_columns (bound d))
