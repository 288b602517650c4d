-- ===== src/Supervisor/Stop/Ends.antt =====
-- The fuel of the grace loop is enough: by the laws of the clock the loop ends by itself.
use iold.Base.{
  ℕ, zero, suc, ◌+◌, ◌*◌, ◌/◌, ◌≤◌, ◌<◌, ◌≡◌, ◌≢◌, refl, false, arith, if◌then◌else◌, ltb, inl, inr,
  ◌⊎◌, not, ◌==◌,
}
use iold.Fault.{Result, ok, err}
use iold.Action.{Action, pure, ◌>>=◌}
use iold.Action.Ensures.{
  Ensures, Post, Ensures-pure, Ensures-if, Ensures-bind, Ensures-weaken, Ensures_of_pre,
}
use iold.Host.{Host, group, probe}
use iold.World.{World, ask}
use iold.Supervisor.Process.{process_group_alive}
use iold.Supervisor.Stop.{Waited, emptied, timed_out, starved, wait_round, wait_empty, rounds, poll}

module _ {D : Type 0} (h : Host) where
  -- The clock has reached `t`.
  abbrev Since : ℕ → World D h.Os → Type 0
  Since t w = t ≤ h.clock w.os

  Since-now :
      (t : ℕ) → Ensures (Since t) (ask {D = D} h.now) (λ now w. Since t w × (t ≤ now)) (λ w. ⊥)
  unfolding ask
  Since-now t = record {
    at = λ w s. (omega (arith, h.now_clock w.os), omega (arith, h.now_clock w.os));
  }

  Since-sleep :
      (t : ℕ)
      → Ensures
          (Since t)
          (ask {D = D} (λ s. (tt {0}, h.sleep poll s)))
          (λ _. Since (t + poll))
          (λ w. ⊥)
  unfolding ask
  Since-sleep t = record { at = λ w s. omega (arith, h.sleep_clock poll w.os) }

  Since-probe :
      (t pgid : ℕ)
      → Ensures (Since t) (ask {D = D} (h.kill (group pgid) probe)) (λ _. Since t) (λ w. ⊥)
  unfolding ask
  Since-probe t pgid = record { at = λ w s. omega (arith, h.kill_clock (group pgid) probe w.os) }

  Since-group :
      (t pgid : ℕ) → Ensures (Since t) (process_group_alive h pgid) (λ _. Since t) (λ w. ⊥)
  unfolding process_group_alive
  Since-group t pgid =
      Ensures-if (pgid == 0) _ _ (λ z. Ensures-pure _ (λ w s. s))
        λ nz. Ensures-bind _ _ (Since-probe t pgid) (λ e. Ensures-pure _ (λ w s. s))

  abbrev Ended : Waited → World D h.Os → Type 0
  Ended r w = r ≢ starved

  -- One round ends the loop, or brings the clock on by a pause for the rest of it.
  wait_round_ends :
      (pgid t deadline : ℕ) (rest : Action (World D h.Os) Waited)
      → (t < deadline → Ensures (Since (t + poll)) rest Ended (λ w. ⊥))
      → Ensures (Since t) (wait_round h pgid deadline rest) Ended (λ w. ⊥)
  unfolding wait_round
  wait_round_ends pgid t deadline rest k = Ensures-bind _ _ (Since-now t) λ now.
      Ensures-if (not (ltb now deadline)) _ _ (λ late. Ensures-pure _ (λ w s e. ground arith))
        λ soon. Ensures-weaken _ (in_time now soon) (λ w s. s) (λ r w e. e) (λ w e. e)
    where
      in_time :
          (now : ℕ)
          → not (ltb now deadline) ≡ false
          → Ensures
              (λ w. Since t w × (t ≤ now))
              (process_group_alive h pgid >>= λ live.
                if not live
                then pure emptied
                else (ask (λ s. (tt {0}, h.sleep poll s)) >>= λ _. rest))
              Ended
              (λ w. ⊥)
      in_time now soon = Ensures_of_pre _ λ le. Ensures-bind _ _ (Since-group t pgid) λ live.
          Ensures-if (not live) _ _ (λ gone. Ensures-pure _ (λ w s e. ground arith))
            λ left. Ensures-bind _ _ (Since-sleep t) (λ u. k (ground arith))

  wait_empty_ends :
      (fuel pgid t deadline : ℕ)
      → deadline ≤ t + fuel * poll
      → Ensures (Since t) (wait_empty {D = D} h (suc fuel) pgid deadline) Ended (λ w. ⊥)
  unfolding wait_empty
  wait_empty_ends zero pgid t deadline le =
      wait_round_ends pgid t deadline _ (λ lt. absurd (omega arith))
  wait_empty_ends (suc fuel) pgid t deadline le =
      wait_round_ends pgid t deadline _
        λ lt. wait_empty_ends fuel pgid (t + poll) deadline (omega arith)

  by_test :
      (r : Result Waited) (w : World D h.Os)
      → Post Ended (λ w. ⊥) r w
      → (r ≡ ok emptied) ⊎ (r ≡ ok timed_out)
  by_test (ok emptied) w e = inl refl
  by_test (ok timed_out) w e = inr refl
  by_test (ok starved) w e = absurd (e refl)
  by_test (err f) w e = absurd e

-- The rounds that `Stop` allows for its grace period are enough: the wait ends by its own tests, with
-- the group empty or the period over, whatever the system answers.
pub wait_empty-rounds :
    {D : Type 0} (h : Host) (grace pgid start : ℕ) (w : World D h.Os)
    → start ≤ h.clock w.os
    → ((wait_empty h (rounds grace) pgid (start + grace) w).0 ≡ ok emptied)
      ⊎ ((wait_empty h (rounds grace) pgid (start + grace) w).0 ≡ ok timed_out)
wait_empty-rounds h grace pgid start w s =
    by_test h _ _
      ((wait_empty_ends h (suc (grace / poll)) pgid start (start + grace) (omega arith)).at w s)
