-- ===== src/Cli/Recover.antt =====
-- `recoverInterruptedDeployments` of internal/cli/cli.go, run by the holder of the lifecycle lock.
pub mod Keeps
pub mod Past
pub mod Outcome
use iold.Base.{
  ℕ, ◌&&◌, ◌||◌, ◌==◌, not, Bool, true, false, List, [], ◌∷◌, Text, codes, is_empty, Option, none,
  some, if◌then◌else◌,
}
use iold.Fault.{Fault, Result, ok, err, wrapped, identity_unavailable}
use iold.Action.{Action, pure, raise, catch, ◌>>=◌, ◌>>◌}
use iold.Host.{Host}
use iold.World.{World}
use iold.State.Machine.{
  Phase, requested, validating, downloading, starting, failed, crashed, destroying, destroyed,
  phase_eq,
}
use iold.State.Record.{Deployment, Reason, reason}
use iold.State.Database.{Database}
use iold.State.Store.{State, list, transition, record_runtime}
use iold.Supervisor.Process.{Process, Status, running, stale, reused, unknown, reconcile}
use iold.Supervisor.Intent.{find_by_command}

unfoldable pub deployment_process : Deployment → Process
deployment_process r = record {
  pid = r.pid;
  command = r.command;
  log_path = [];
  started_at = r.started_at;
  start_token = r.start_token;
}

-- The phases that recovery leaves alone.
abbrev pub is_settled : Phase → Bool
is_settled p =
    phase_eq p destroyed || phase_eq p destroying || phase_eq p failed || phase_eq p crashed

-- The phases in which a running process was not yet found healthy.
abbrev pub is_launching : Phase → Bool
is_launching p =
    phase_eq p requested || phase_eq p validating || phase_eq p downloading || phase_eq p starting

abbrev with_match : Deployment → Process → Deployment
with_match r p = record r {
  pid = p.pid;
  command = p.command;
  started_at = p.started_at;
  start_token = p.start_token;
}

module _ (d : Database) (h : Host) where
  crash : Deployment → Text → Action (State d h) Unit
  crash r why = transition d h r.id r.phase crashed (reason why)

  -- Exactly one match is adopted.
  adopt : Deployment → List Process → Action (State d h) Deployment
  adopt r (p ∷ []) = do
    record_runtime d h r.id p.pid r.port p.command p.started_at p.start_token
    pure (with_match r p)
  adopt r _ = pure r

  unfoldable pub adopt_intent : Deployment → Action (State d h) Deployment
  unfolding adopt
  adopt_intent r =
      if phase_eq r.phase starting && r.pid == 0 && not (is_empty r.command)
      then (do
        matches ←
            catch (find_by_command h r.command r.updated_at)
              (λ f. raise (wrapped (codes "recover deployment") f))
        adopt r matches)
      else pure r

  by_status : Deployment → Status → Action (State d h) Unit
  unfolding crash
  by_status r running =
      if is_launching r.phase
      then crash r (codes "lifecycle operation was interrupted; runtime adopted for cleanup")
      else pure tt
  by_status r stale = crash r (codes "runtime process is no longer running")
  by_status r reused = crash r (codes "runtime PID identity no longer matches the recorded process")
  by_status r unknown = raise (identity_unavailable r.id r.pid)

  unfoldable pub settle : Deployment → Action (State d h) Unit
  unfolding by_status crash
  settle r =
      if r.pid == 0
      then crash r
          (codes "lifecycle operation was interrupted before a runtime identity was recorded")
      else (do status ← reconcile h (deployment_process r); by_status r status)

  unfoldable pub recover_one : Deployment → Action (State d h) Unit
  unfolding settle
  recover_one r = if is_settled r.phase then pure tt else do r ← adopt_intent r; settle r

  unfoldable pub recover_each : List Deployment → Action (State d h) Unit
  recover_each [] = pure tt
  recover_each (r ∷ rs) = do recover_one r; recover_each rs

  unfoldable pub recover_interrupted_deployments : Action (State d h) Unit
  unfolding recover_each
  recover_interrupted_deployments = do rs ← list d h; recover_each rs
