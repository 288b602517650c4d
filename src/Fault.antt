-- ===== src/Fault.antt =====
-- The errors of the packages that the lifecycle uses, and the result of a call that may fail.
-- An error value keeps the sentinel that `errors.Is` finds and the arguments of its message.
pub mod ExitCode
use iold.Base.{ℕ, Text}
use iold.State.Machine.{Phase, Illegal}

pub data Fault : Type 0 where
  -- internal/cli
  usage : Fault
  not_implemented : Text → Fault
  would_replace : Text → Phase → Fault
  ambiguous_target : Fault
  invalid_id : Text → Fault
  unsafe_cache : Text → Text → Fault
  foreign_cache : Text → Fault
  path_escapes : Fault
  runtime_exited : Fault
  never_healthy : Fault
  not_ready : Fault
  identity_unavailable : Text → ℕ → Fault
  -- internal/state
  illegal_transition : Illegal → Fault
  not_found : Fault
  conflict : Phase → Phase → Fault
  runtime_conflict : Phase → Phase → ℕ → Fault
  duplicate : Text → Fault
  not_destroyed : Text → Fault
  database_failed : Fault
  -- internal/supervisor
  not_owned : ℕ → Fault
  start_failed : Fault
  group_survives : ℕ → Fault
  incomplete_identity : Fault
  no_free_port : ℕ → Fault
  -- internal/catalog, internal/hf, internal/doctor, internal/operationlock
  unknown_model : Text → Fault
  hub_not_found : Fault
  auth_required : Fault
  no_revision : Fault
  no_size_data : Fault
  checks_failed : Fault
  busy : Fault
  -- a failed call of the operating system or of another library, and `fmt.Errorf("…: %w", err)`
  system_failed : Fault
  wrapped : Text → Fault → Fault

pub data Result {ℓ} (A : Type ℓ) : Type ℓ where
  ok : A → Result A
  err : Fault → Result A
