-- ===== src/Cli/Deploy/Ready/Facts.antt =====
-- Waiting for the server leaves alone what does not depend on the system and the trace.
use iold.Base.{ℕ, zero, suc, Text}
use iold.Fault.{Result, ok, err}
use iold.Action.{Action}
use iold.Action.Keeps.{Keeps, Keeps-bind, Keeps-raise, Keeps-pure, Keeps-if, Keeps-attempt}
use iold.Host.{Host, health, list_models, chat, Response}
use iold.World.{World}
use iold.Supervisor.Identity.Facts.{IsQuiet-IsReading}
use iold.Supervisor.Identity.Indifferent.{IsIndifferent, IsIndifferent-IsQuiet}
use iold.Supervisor.Process.{Process}
use iold.Supervisor.Process.Facts.{reconcile-Keeps}
use iold.Cli.Deploy.Spec.{DeploySpec, Deps}
use iold.Cli.Deploy.Ready.{
  Polled, satisfied, ended, starved, pause, health_round, poll_health, readiness_probe, not_yet,
  after_probe, poll_ready, conclude, wait_healthy, check_readiness,
}

module _ {D : Type 0} (h : Host) (P : World D h.Os → Type 0) (i : IsIndifferent h P)
    (deps : Deps) where
  pause-Keeps : Keeps P (pause {D = D} h deps)
  unfolding pause
  pause-Keeps = i.asks Unit (λ s. (tt {0}, h.sleep deps.poll_interval s))

  health_round-Keeps :
      (base : Text) (p : Process) (deadline : ℕ) (rest : Action (World D h.Os) Polled)
      → Keeps P rest
      → Keeps P (health_round h deps base p deadline rest)
  unfolding health_round
  health_round-Keeps base p deadline rest k =
      Keeps-bind _ _ (reconcile-Keeps h P (IsQuiet-IsReading h P (IsIndifferent-IsQuiet h P i)) p)
        λ status. Keeps-if _ _ _ (Keeps-pure _) (
          Keeps-bind _ _ (i.asks Response (h.http (health base))) λ answer.
            Keeps-if _ _ _ (Keeps-pure _) (
              Keeps-bind _ _ (i.asks ℕ h.now)
                λ now. Keeps-if _ _ _ (Keeps-pure _) (Keeps-bind _ _ pause-Keeps (λ u. k))))

  poll_health-Keeps :
      (fuel : ℕ) (base : Text) (p : Process) (deadline : ℕ)
      → Keeps P (poll_health h deps fuel base p deadline)
  unfolding poll_health
  poll_health-Keeps zero base p deadline = Keeps-pure _
  poll_health-Keeps (suc fuel) base p deadline =
      health_round-Keeps base p deadline _ (poll_health-Keeps fuel base p deadline)

  pub readiness_probe-Keeps :
      (base : Text) (spec : DeploySpec) → Keeps P (readiness_probe h deps base spec)
  unfolding readiness_probe
  readiness_probe-Keeps base spec =
      Keeps-bind _ _ (i.asks Response (h.http (list_models base spec.api_key))) λ models.
        Keeps-if _ _ _ (Keeps-raise _) (
          Keeps-bind _ _ (i.asks Response (h.http (chat base spec.api_key spec.id)))
            λ answer. Keeps-if _ _ _ (Keeps-raise _) (Keeps-pure _))

  after_probe-Keeps :
      (deadline : ℕ) (r : Result (Unit {0})) (rest : Action (World D h.Os) Polled)
      → Keeps P rest
      → Keeps P (after_probe h deps deadline r rest)
  unfolding after_probe not_yet
  after_probe-Keeps deadline (ok u) rest k = Keeps-pure _
  after_probe-Keeps deadline (err f) rest k =
      Keeps-bind _ _ (i.asks ℕ h.now)
        λ now. Keeps-if _ _ _ (Keeps-pure _) (Keeps-bind _ _ pause-Keeps (λ u. k))

  poll_ready-Keeps :
      (fuel : ℕ) (base : Text) (spec : DeploySpec) (deadline : ℕ)
      → Keeps P (poll_ready h deps fuel base spec deadline)
  unfolding poll_ready
  poll_ready-Keeps zero base spec deadline = Keeps-pure _
  poll_ready-Keeps (suc fuel) base spec deadline =
      Keeps-bind _ _ (Keeps-attempt _ (readiness_probe-Keeps base spec))
        λ result. after_probe-Keeps deadline result _ (poll_ready-Keeps fuel base spec deadline)

  conclude-Keeps : (r : Polled) → Keeps P (conclude {D = D} h deps r)
  unfolding conclude
  conclude-Keeps satisfied = Keeps-pure _
  conclude-Keeps (ended f) = Keeps-raise _
  conclude-Keeps starved = Keeps-raise _

  pub wait_healthy-Keeps : (base : Text) (p : Process) → Keeps P (wait_healthy h deps base p)
  unfolding wait_healthy
  wait_healthy-Keeps base p =
      Keeps-bind _ _ (i.asks ℕ h.now)
        λ now. Keeps-bind _ _ (poll_health-Keeps _ base p _) (λ r. conclude-Keeps r)

  pub check_readiness-Keeps :
      (base : Text) (spec : DeploySpec) → Keeps P (check_readiness h deps base spec)
  unfolding check_readiness
  check_readiness-Keeps base spec =
      Keeps-bind _ _ (i.asks ℕ h.now)
        λ now. Keeps-bind _ _ (poll_ready-Keeps _ base spec _) (λ r. conclude-Keeps r)
