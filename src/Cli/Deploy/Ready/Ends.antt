-- ===== src/Cli/Deploy/Ready/Ends.antt =====
-- The fuel of the two poll loops is enough: by the laws of the clock they end by themselves, when the
-- pause between two rounds is not zero.
use native.Mathlib.Nat.{div-add-mod, mod-lt, mul_comm}
use iold.Base.{
  ℕ, zero, suc, ◌+◌, ◌*◌, ◌/◌, ◌≤◌, ◌<◌, ◌≡◌, ◌≢◌, arith, if◌then◌else◌, ltb, not, Text,
}
use iold.Fault.{Fault, Result, ok, err, runtime_exited, never_healthy}
use iold.Action.{Action, pure, ◌>>=◌}
use iold.Action.Keeps.{Keeps, Keeps-bind, Keeps-raise, Keeps-pure, Keeps-if, Keeps-attempt}
use iold.Action.Ensures.{
  Ensures, Post, Ensures-pure, Ensures-if, Ensures-bind, Ensures-weaken, Ensures_of_pre,
  Ensures_of_Keeps,
}
use iold.Host.{Host, health, list_models, chat, Request}
use iold.World.{World, ask, note}
use iold.Supervisor.Identity.Facts.{IsReading}
use iold.Supervisor.Process.{Process}
use iold.Supervisor.Process.Facts.{reconcile-Keeps}
use iold.Cli.Deploy.Spec.{DeploySpec, Deps}
use iold.Cli.Deploy.Ready.{
  Polled, satisfied, ended, starved, pause, health_round, poll_health, readiness_probe, not_yet,
  after_probe, poll_ready, rounds, is_running, is_ok,
}

ended_is : (f : Fault) → ended f ≢ starved
ended_is f e = ground arith

satisfied_is : satisfied ≢ starved
satisfied_is e = ground arith

-- A timeout in rounds of one pause.
enough :
    (gap timeout start : ℕ) → 0 < gap → start + timeout < start + suc (suc (timeout / gap)) * gap
enough gap timeout start pos =
    omega (arith, div-add-mod timeout gap, mod-lt timeout pos, mul_comm gap (timeout / gap))

module _ {D : Type 0} (h : Host) (deps : Deps) where
  -- The clock has reached `t`.
  pub record Since (t : ℕ) (w : World D h.Os) : Type 0 where
    pub reached : t ≤ h.clock w.os

  abbrev Any : World D h.Os → Type 0
  Any w = Unit

  Since-http : (t : ℕ) (r : Request) → Keeps (Since t) (ask {D = D} (h.http r))
  unfolding ask
  Since-http t r = record {
    at = λ w s. let c = s.reached in record { reached = omega (arith, h.http_clock r w.os) };
  }

  Since-IsReading : (t : ℕ) → IsReading h (Since t)
  unfolding ask note
  Since-IsReading t = record {
    reads = λ f. record {
      at = λ w s. let c = s.reached in record { reached = omega (arith, h.read_clock f w.os) };
    };
    shows = λ p. record {
      at = λ w s. let c = s.reached in record { reached = omega (arith, h.ps_clock p w.os) };
    };
    probes = λ x g. record {
      at = λ w s. let c = s.reached in record { reached = omega (arith, h.kill_clock x g w.os) };
    };
    notes = λ e q. record { at = λ w s. record { reached = s.reached } };
  }

  Since-now : (t : ℕ) → Ensures (Since t) (ask {D = D} h.now) (λ now w. Since t w × (t ≤ now)) Any
  unfolding ask
  Since-now t = record {
    at = λ w s.
        let c = s.reached in
        (record { reached = omega (arith, h.now_clock w.os) }, omega (arith, h.now_clock w.os));
  }

  Since-pause : (t : ℕ) → Ensures (Since t) (pause h deps) (λ u. Since (t + deps.poll_interval)) Any
  unfolding pause ask
  Since-pause t = record {
    at = λ w s.
        let c = s.reached in
        record { reached = omega (arith, h.sleep_clock deps.poll_interval w.os) };
  }

  kept :
      {A : Type 0} {t : ℕ} (m : Action (World D h.Os) A)
      → Keeps (Since t) m
      → Ensures (Since t) m (λ a. Since t) Any
  kept m k = Ensures-weaken m (Ensures_of_Keeps m k) (λ w s. s) (λ a w s. s) (λ w s. tt)

  abbrev Ended : Polled → World D h.Os → Type 0
  Ended r w = r ≢ starved

  -- The end of a round: the deadline has passed, or the pause brings the clock on.
  late_or_later :
      (t deadline : ℕ) (f : Fault) (rest : Action (World D h.Os) Polled)
      → (t ≤ deadline → Ensures (Since (t + deps.poll_interval)) rest Ended Any)
      → Ensures
          (Since t)
          (ask h.now >>= λ now.
            if ltb deadline now then pure (ended f) else (pause h deps >>= λ u. rest))
          Ended
          Any
  late_or_later t deadline f rest k = Ensures-bind _ _ (Since-now t) λ now. Ensures_of_pre _ λ le.
      Ensures-if (ltb deadline now) _ _ (λ late. Ensures-pure _ (λ w s. ended_is f))
        λ soon. Ensures-bind _ _ (Since-pause t) (λ u. k (ground arith))

  health_round_ends :
      (base : Text) (p : Process) (t deadline : ℕ) (rest : Action (World D h.Os) Polled)
      → (t ≤ deadline → Ensures (Since (t + deps.poll_interval)) rest Ended Any)
      → Ensures (Since t) (health_round h deps base p deadline rest) Ended Any
  unfolding health_round
  health_round_ends base p t deadline rest k =
      Ensures-bind _ _ (kept _ (reconcile-Keeps h (Since t) (Since-IsReading t) p)) λ status.
        Ensures-if (not (is_running status)) _ _
          (λ e. Ensures-pure _ (λ w s. ended_is runtime_exited))
          λ e. Ensures-bind _ _ (kept _ (Since-http t (health base))) λ answer.
            Ensures-if (is_ok answer) _ _ (λ e. Ensures-pure _ (λ w s. satisfied_is))
              (λ e. late_or_later t deadline never_healthy rest k)

  poll_health_ends :
      (fuel : ℕ) (base : Text) (p : Process) (t deadline : ℕ)
      → deadline < t + fuel * deps.poll_interval
      → Ensures (Since t) (poll_health h deps (suc fuel) base p deadline) Ended Any
  unfolding poll_health
  poll_health_ends zero base p t deadline lt =
      health_round_ends base p t deadline _ (λ le. absurd (omega arith))
  poll_health_ends (suc fuel) base p t deadline lt =
      health_round_ends base p t deadline _
        λ le. poll_health_ends fuel base p (t + deps.poll_interval) deadline (omega arith)

  readiness_probe-Since :
      (t : ℕ) (base : Text) (spec : DeploySpec) → Keeps (Since t) (readiness_probe h deps base spec)
  unfolding readiness_probe
  readiness_probe-Since t base spec =
      Keeps-bind _ _ (Since-http t (list_models base spec.api_key)) λ models.
        Keeps-if _ _ _ (Keeps-raise _) (
          Keeps-bind _ _ (Since-http t (chat base spec.api_key spec.id))
            λ answer. Keeps-if _ _ _ (Keeps-raise _) (Keeps-pure _))

  after_probe_ends :
      (t deadline : ℕ) (r : Result (Unit {0})) (rest : Action (World D h.Os) Polled)
      → (t ≤ deadline → Ensures (Since (t + deps.poll_interval)) rest Ended Any)
      → Ensures (Since t) (after_probe h deps deadline r rest) Ended Any
  unfolding after_probe not_yet
  after_probe_ends t deadline (ok u) rest k = Ensures-pure _ (λ w s. satisfied_is)
  after_probe_ends t deadline (err f) rest k = late_or_later t deadline _ rest k

  poll_ready_ends :
      (fuel : ℕ) (base : Text) (spec : DeploySpec) (t deadline : ℕ)
      → deadline < t + fuel * deps.poll_interval
      → Ensures (Since t) (poll_ready h deps (suc fuel) base spec deadline) Ended Any
  unfolding poll_ready
  poll_ready_ends zero base spec t deadline lt =
      Ensures-bind _ _ (kept _ (Keeps-attempt _ (readiness_probe-Since t base spec)))
        (λ r. after_probe_ends t deadline r _ (λ le. absurd (omega arith)))
  poll_ready_ends (suc fuel) base spec t deadline lt =
      Ensures-bind _ _ (kept _ (Keeps-attempt _ (readiness_probe-Since t base spec))) (λ r.
        after_probe_ends t deadline r _
          (λ le. poll_ready_ends fuel base spec (t + deps.poll_interval) deadline (omega arith)))

  not_starved : (r : Result Polled) (w : World D h.Os) → Post Ended Any r w → r ≢ ok starved
  not_starved (ok x) w e q = e (inside q)
    where
      inside : ok x ≡ ok starved → x ≡ starved
      inside q = cc
  not_starved (err f) w e q = cc

-- The rounds that `waitHealthy` is given are enough, if the poll interval is not zero: the loop ends by
-- its own tests, with the server healthy, the process gone or the time over.
pub poll_health-rounds :
    {D : Type 0} (h : Host) (deps : Deps) (base : Text) (p : Process) (start : ℕ) (w : World D h.Os)
    → 0 < deps.poll_interval
    → start ≤ h.clock w.os
    → (poll_health h deps
        (rounds deps deps.health_timeout)
        base
        p
        (start + deps.health_timeout)
        w).0
      ≢ ok starved
poll_health-rounds h deps base p start w pos s = not_starved h deps _ _ (
    (poll_health_ends h deps _ base p start _
        (enough deps.poll_interval deps.health_timeout start pos)).at
      w (record { reached = s }))

-- The same for `checkReadiness`.
pub poll_ready-rounds :
    {D : Type 0} (h : Host) (deps : Deps) (base : Text) (spec : DeploySpec) (start : ℕ)
    (w : World D h.Os)
    → 0 < deps.poll_interval
    → start ≤ h.clock w.os
    → (poll_ready h deps
        (rounds deps deps.ready_timeout)
        base
        spec
        (start + deps.ready_timeout)
        w).0
      ≢ ok starved
poll_ready-rounds h deps base spec start w pos s = not_starved h deps _ _ (
    (poll_ready_ends h deps _ base spec start _
        (enough deps.poll_interval deps.ready_timeout start pos)).at
      w (record { reached = s }))
