-- ===== src/Retry/Facts.antt =====
-- How often the operation is called.
use iold.Base.{
  ℕ, zero, suc, ◌+◌, ◌-◌, ◌≤◌, ◌<◌, ◌≡◌, refl, subst, ◌==◌, Option, none, some, arith, inl, inr,
  Bool-cases,
}
use iold.Retry.{
  Policy, Calls, Outcome, succeeded, permanent, exhausted, cancelled, attempts_of, timeout_of,
  pause, after_pause, after_failure, after_op, after_check, attempt_from, do_attempts,
}

-- The same calls on a state that counts those of the operation.
abbrev pub counted : {E S : Type 0} → Calls E S → Calls E (S × ℕ)
counted calls = record {
  op = λ t x. let (r, s) = calls.op t x.0 in (r, (s, x.1 + 1));
  context_err = λ x. let (r, s) = calls.context_err x.0 in (r, (s, x.1));
  wait = λ d x. let (r, s) = calls.wait d x.0 in (r, (s, x.1));
  is_permanent = calls.is_permanent;
}

-- The number of calls that goes with an outcome, where `n` attempts are allowed.
abbrev pub Fits : {E : Type 0} → ℕ → Outcome E → ℕ → Type 0
Fits n succeeded count = (1 ≤ count) × (count ≤ n)
Fits n (permanent e) count = (1 ≤ count) × (count ≤ n)
Fits n (exhausted k e) count = (count ≡ n) × (k ≡ n)
Fits n (cancelled why last) count = count < n

module _ {E S : Type 0} (p : Policy) (calls : Calls E S) where
  abbrev FitsAll : Outcome E × (S × ℕ) → Type 0
  FitsAll r = Fits (attempts_of p) r.0 r.1.1

  pause_counts : (d : ℕ) (s : S) (n : ℕ) → (pause p (counted calls) d (s, n)).1.1 ≡ n
  unfolding pause
  pause_counts d s n = elim (Bool-cases (d == 0)) [ inl t ↦ rw t refl | inr t ↦ rw t refl ]

  after_pause_fits :
      (r : Option E × (S × ℕ)) (last : E) (next : S × ℕ → Outcome E × (S × ℕ))
      → r.1.1 < attempts_of p
      → ((x : S × ℕ) → x.1 ≡ r.1.1 → FitsAll (next x))
      → FitsAll (after_pause p (counted calls) r last next)
  unfolding after_pause
  after_pause_fits (some why, x) last next h k = h
  after_pause_fits (none, x) last next h k = k x refl

  after_failure_fits :
      (left attempt : ℕ) (e : E) (x : S × ℕ) (next : E → S × ℕ → Outcome E × (S × ℕ))
      → x.1 ≡ attempt
      → attempt + left ≡ attempts_of p
      → 1 ≤ attempt
      → (0 < left → (y : S × ℕ) → y.1 ≡ attempt → FitsAll (next e y))
      → FitsAll (after_failure p (counted calls) left attempt e x next)
  unfolding after_failure
  after_failure_fits left attempt e x next c t l k = elim (Bool-cases (calls.is_permanent e)) [
    | inl y ↦ rw y (omega arith, omega arith)
    | inr y ↦ elim (Bool-cases (left == 0)) [
      | inl z ↦ rw (y, z) (ground arith, refl)
      | inr z ↦
          let pos : 0 < left = ground arith in
          let same = pause_counts (p.jittered attempt) x.0 x.1 in
          rw (y, z)
            (after_pause_fits (pause p (counted calls) (p.jittered attempt) x) e (next e)
              (omega (arith, same)) (λ v q. k pos v (omega (arith, same))))
    ]
  ]

  -- What follows a failed attempt, if more may come, fits.
  abbrev Continues : ℕ → ℕ → (E → S × ℕ → Outcome E × (S × ℕ)) → Type 0
  Continues left attempt next =
      (e : E) → 0 < left → (y : S × ℕ) → y.1 ≡ attempt → FitsAll (next e y)

  after_op_fits :
      (left attempt : ℕ) (r : Option E × (S × ℕ)) (next : E → S × ℕ → Outcome E × (S × ℕ))
      → r.1.1 ≡ attempt
      → attempt + left ≡ attempts_of p
      → 1 ≤ attempt
      → Continues left attempt next
      → FitsAll (after_op p (counted calls) left attempt r next)
  unfolding after_op
  after_op_fits left attempt (none, x) next c t l k = (omega arith, omega arith)
  after_op_fits left attempt (some e, x) next c t l k =
      after_failure_fits left attempt e x next c t l (k e)

  after_check_fits :
      (left attempt : ℕ) (last : Option E) (r : Option E × (S × ℕ))
      (next : E → S × ℕ → Outcome E × (S × ℕ))
      → r.1.1 + 1 ≡ attempt
      → attempt + left ≡ attempts_of p
      → Continues left attempt next
      → FitsAll (after_check p (counted calls) left attempt last r next)
  unfolding after_check
  after_check_fits left attempt last (some why, x) next c t k = omega arith
  after_check_fits left attempt last (none, x) next c t k =
      after_op_fits left attempt ((counted calls).op (timeout_of p) x) next c t (omega arith) k

  attempt_from_fits :
      (left attempt : ℕ) (last : Option E) (x : S × ℕ)
      → x.1 + 1 ≡ attempt
      → attempt + left ≡ attempts_of p
      → FitsAll (attempt_from p (counted calls) left attempt last x)
  unfolding attempt_from
  attempt_from_fits zero attempt last x c t =
      after_check_fits zero attempt last ((counted calls).context_err x) _ c t
        (λ e pos. absurd (omega arith))
  attempt_from_fits (suc left) attempt last x c t =
      after_check_fits (suc left) attempt last ((counted calls).context_err x) _ c t
        (λ e pos y q. attempt_from_fits left (attempt + 1) (some e) y (omega arith) (omega arith))

  attempts_positive : 1 ≤ attempts_of p
  attempts_positive = ground arith

  -- The greater of the number and one.
  attempts_of_lem : attempts_of p ≡ p.max_attempts + (1 - p.max_attempts)
  attempts_of_lem = ground arith

-- `Do` calls the operation at most as often as the policy allows, where one call is allowed even if the
-- number is nought, and at least once unless the context had ended: once or more where it succeeds or meets a
-- permanent error, exactly that often, which the error says, where the attempts are exhausted, and fewer
-- times where the context ends.
pub do_attempts-Fits :
    {E S : Type 0} (p : Policy) (calls : Calls E S) (s : S)
    → Fits
        (p.max_attempts + (1 - p.max_attempts))
        (do_attempts p (counted calls) (s, 0)).0
        (do_attempts p (counted calls) (s, 0)).1.1
unfolding do_attempts
do_attempts-Fits p calls s =
    subst
      (λ n.
        Fits n (do_attempts p (counted calls) (s, 0)).0 (do_attempts p (counted calls) (s, 0)).1.1)
      (attempts_of_lem p calls)
      (attempt_from_fits p calls (attempts_of p - 1) 1 none (s, 0) refl
        (omega (arith, attempts_positive p calls)))
