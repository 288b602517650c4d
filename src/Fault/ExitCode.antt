-- ===== src/Fault/ExitCode.antt =====
-- internal/cli/exitcode.go: the stable exit codes, by the sentinels that an error wraps.
use iold.Base.{
  ℕ, ◌≡◌, refl, ◌≤◌, ◌||◌, ◌==◌, Bool, false, Option, none, some, List, [], ◌∷◌, arith,
  if◌then◌else◌,
}
use iold.Fault.{
  Fault, usage, not_implemented, would_replace, illegal_transition, not_found, conflict,
  runtime_conflict, duplicate, not_destroyed, unknown_model, hub_not_found, auth_required,
  no_revision, checks_failed, busy, not_owned, start_failed, no_free_port, wrapped,
}

pub data Sentinel : Type 0 where
  err_usage err_unknown_model err_not_found err_hub_not_found err_illegal_transition : Sentinel
  err_conflict err_duplicate err_not_destroyed err_checks_failed err_auth_required : Sentinel
  err_no_revision err_not_implemented err_would_replace err_busy err_not_owned : Sentinel
  err_start_fail err_no_free_port : Sentinel

abbrev number : Sentinel → ℕ
number err_usage = 0
number err_unknown_model = 1
number err_not_found = 2
number err_hub_not_found = 3
number err_illegal_transition = 4
number err_conflict = 5
number err_duplicate = 6
number err_not_destroyed = 7
number err_checks_failed = 8
number err_auth_required = 9
number err_no_revision = 10
number err_not_implemented = 11
number err_would_replace = 12
number err_busy = 13
number err_not_owned = 14
number err_start_fail = 15
number err_no_free_port = 16

-- The sentinels in the chain of `%w` of an error.
abbrev pub chain : Fault → List Sentinel
chain usage = err_usage ∷ []
chain (not_implemented c) = err_not_implemented ∷ []
chain (would_replace id p) = err_would_replace ∷ err_conflict ∷ []
chain (illegal_transition i) = err_illegal_transition ∷ []
chain not_found = err_not_found ∷ []
chain (conflict p q) = err_conflict ∷ []
chain (runtime_conflict p q n) = err_conflict ∷ []
chain (duplicate id) = err_duplicate ∷ []
chain (not_destroyed id) = err_not_destroyed ∷ []
chain (not_owned pid) = err_not_owned ∷ []
chain start_failed = err_start_fail ∷ []
chain (no_free_port p) = err_no_free_port ∷ []
chain (unknown_model m) = err_unknown_model ∷ []
chain hub_not_found = err_hub_not_found ∷ []
chain auth_required = err_auth_required ∷ []
chain no_revision = err_no_revision ∷ []
chain checks_failed = err_checks_failed ∷ []
chain busy = err_busy ∷ []
chain (wrapped context f) = chain f
chain _ = []

abbrev member : List Sentinel → Sentinel → Bool
member [] s = false
member (t ∷ ts) s = number t == number s || member ts s

-- `errors.Is`.
abbrev pub is : Fault → Sentinel → Bool
is f s = member (chain f) s

-- `none` is the nil error.
unfoldable pub exit_code : Option Fault → ℕ
exit_code none = 0
exit_code (some f) =
    if is f err_usage
    then 2
    else if is f err_unknown_model || is f err_not_found || is f err_hub_not_found
    then 3
    else if is f err_illegal_transition
        || is f err_conflict
        || is f err_duplicate
        || is f err_not_destroyed
    then 4
    else if is f err_checks_failed || is f err_auth_required || is f err_no_revision
    then 5
    else if is f err_not_implemented
    then 6
    else 1

-- The documented table, by the cause below every wrapping: 2 for usage, 3 for what was not found,
-- 4 for conflicts, 5 for an environment that cannot serve, 6 for missing commands, 1 for the rest.
abbrev pub category : Fault → ℕ
category usage = 2
category (unknown_model m) = 3
category not_found = 3
category hub_not_found = 3
category (illegal_transition i) = 4
category (conflict p q) = 4
category (runtime_conflict p q n) = 4
category (duplicate id) = 4
category (not_destroyed id) = 4
category (would_replace id p) = 4
category checks_failed = 5
category auth_required = 5
category no_revision = 5
category (not_implemented c) = 6
category (wrapped context f) = category f
category _ = 1

-- The exit code of every error is the one that the table gives to its cause, whatever contexts the
-- error was wrapped in on its way up.
pub exit_code-category : (f : Fault) → exit_code (some f) ≡ category f
unfolding exit_code
exit_code-category (wrapped context f) = exit_code-category f
exit_code-category usage = refl
exit_code-category _ = refl

-- Only the nil error gives exit code 0.
pub exit_code-pos : (f : Fault) → 1 ≤ exit_code (some f)
unfolding exit_code
exit_code-pos f = ground arith
