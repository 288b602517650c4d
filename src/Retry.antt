-- ===== src/Retry.antt =====
-- internal/retry/retry.go: `Do` over any operation and context. The delay before each attempt is computed
-- with floating point and randomness, so the policy has it as a function of the attempt.
pub mod Facts
use iold.Base.{ℕ, zero, suc, ◌+◌, ◌-◌, ◌==◌, Bool, true, false, Option, none, some, if◌then◌else◌}

pub record Policy : Type 0 where
  -- nought stands for every MaxAttempts that is not positive
  pub max_attempts : ℕ
  -- `jittered(attempt)`; nought stands for every duration that is not positive
  pub jittered : ℕ → ℕ
  -- nought for none
  pub attempt_timeout : ℕ

-- An operation, which gets the bound of its context, and what the outer context answers; `none` is nil.
pub record Calls (E S : Type 0) : Type 0 where
  pub op : (timeout : Option ℕ) → S → Option E × S
  -- `ctx.Err()`
  pub context_err : S → Option E × S
  -- waiting for the timer or for the end of the context
  pub wait : ℕ → S → Option E × S
  -- whether `errors.As` finds a PermanentError
  pub is_permanent : E → Bool

pub data Outcome (E : Type 0) : Type 0 where
  succeeded : Outcome E
  permanent : E → Outcome E
  exhausted : (attempts : ℕ) (last : E) → Outcome E
  -- `joinCancel`: the error of the context, and the last one of the operation
  cancelled : (why : E) (last : Option E) → Outcome E

abbrev pub attempts_of : Policy → ℕ
attempts_of p = if p.max_attempts == 0 then 1 else p.max_attempts

abbrev timeout_of : Policy → Option ℕ
timeout_of p = if p.attempt_timeout == 0 then none else some p.attempt_timeout

module _ {E S : Type 0} (p : Policy) (calls : Calls E S) where
  pause : ℕ → S → Option E × S
  pause d s = if d == 0 then (none, s) else calls.wait d s

  -- After a failed attempt that is not the last one: the pause, then the rest.
  after_pause : Option E × S → E → (S → Outcome E × S) → Outcome E × S
  after_pause (some why, s) last next = (cancelled why (some last), s)
  after_pause (none, s) last next = next s

  after_failure : (left attempt : ℕ) → E → S → (E → S → Outcome E × S) → Outcome E × S
  unfolding pause after_pause
  after_failure left attempt e s next =
      if calls.is_permanent e
      then (permanent e, s)
      else if left == 0
      then (exhausted (attempts_of p) e, s)
      else after_pause (pause (p.jittered attempt) s) e (next e)

  after_op : (left attempt : ℕ) → Option E × S → (E → S → Outcome E × S) → Outcome E × S
  unfolding after_failure
  after_op left attempt (none, s) next = (succeeded, s)
  after_op left attempt (some e, s) next = after_failure left attempt e s next

  after_check :
      (left attempt : ℕ) (last : Option E) → Option E × S → (E → S → Outcome E × S) → Outcome E × S
  unfolding after_op
  after_check left attempt last (some why, s) next = (cancelled why last, s)
  after_check left attempt last (none, s) next =
      after_op left attempt (calls.op (timeout_of p) s) next

  -- `left` attempts may come behind this one.
  unfoldable pub attempt_from : (left attempt : ℕ) (last : Option E) → S → Outcome E × S
  unfolding after_check
  attempt_from zero attempt last s =
      after_check zero attempt last (calls.context_err s) (λ e s. (exhausted attempt e, s))
  attempt_from (suc left) attempt last s =
      after_check (suc left) attempt last (calls.context_err s)
        (λ e s. attempt_from left (attempt + 1) (some e) s)

  -- `Do`
  unfoldable pub do_attempts : S → Outcome E × S
  unfolding attempt_from
  do_attempts s = attempt_from (attempts_of p - 1) 1 none s
