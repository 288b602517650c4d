-- ===== src/Cli/Destroy.antt =====
-- `destroyOne` and `runDestroy` of internal/cli/cli.go.
pub mod Keeps
pub mod Outcome
use iold.Base.{
  ℕ, ◌&&◌, ◌||◌, ◌==◌, ltb, not, Bool, true, false, List, [], ◌∷◌, Text, codes, is_empty,
  has_prefix, text_eq, Option, none, some, if◌then◌else◌,
}
use iold.Fault.{Fault, Result, ok, err, wrapped, not_owned, usage}
use iold.Action.{Action, pure, raise, catch, attempt, ◌>>=◌, ◌>>◌}
use iold.Host.{Host}
use iold.World.{
  World, runtime_stopped, destroyed_line, purged_line, destroy_failed, billing_note, say,
}
use iold.State.Machine.{
  Phase, requested, validating, downloading, starting, healthy, registering, ready,
  unregistered_healthy, failed, crashed, destroying, destroyed, other, phase_eq,
}
use iold.State.Record.{Deployment, Reason, no_reason, reason}
use iold.State.Database.{Database}
use iold.State.Store.{State, get, list, transition, delete_record}
use iold.Supervisor.Process.{Process, Status, running, stale, reused, unknown, reconcile}
use iold.Supervisor.Stop.{stop}
use iold.Cli.Paths.{Dirs}
use iold.Cli.Data.{remove_owned_data}
use iold.Cli.Recover.{deployment_process, recover_interrupted_deployments}

-- 10 * time.Second
abbrev pub stop_grace : ℕ
stop_grace = 10000000000

module _ (d : Database) (h : Host) where
  -- The phase after the deployment was claimed for destruction; a phase that was only passed on is
  -- the one of the record.
  claim_mid_flight : Deployment → Action (State d h) Phase
  claim_mid_flight r = do
    transition d h r.id r.phase failed (reason (codes "destroy requested"))
    transition d h r.id failed destroying no_reason
    pure destroying

  claim_resting : Deployment → Action (State d h) Phase
  claim_resting r = do transition d h r.id r.phase destroying no_reason; pure destroying

  claim_by : Phase → Deployment → Action (State d h) Phase
  unfolding claim_mid_flight claim_resting
  claim_by destroyed r = pure destroyed
  claim_by destroying r = pure destroying
  claim_by ready r = claim_resting r
  claim_by failed r = claim_resting r
  claim_by crashed r = claim_resting r
  claim_by unregistered_healthy r = claim_resting r
  claim_by _ r = claim_mid_flight r

  stop_context : {A : Type 0} → Fault → Action (State d h) A
  stop_context f = raise (wrapped (codes "stop runtime") f)

  by_status : Deployment → Process → Status → Action (State d h) Unit
  unfolding stop_context
  by_status r p running = do
    catch (stop h p stop_grace) stop_context
    say (runtime_stopped r.id r.pid)
  by_status r p reused = stop_context (not_owned r.pid)
  by_status r p stale = catch (stop h p stop_grace) stop_context
  by_status r p unknown = stop_context (not_owned r.pid)

  -- Stop the recorded process of a deployment in phase DESTROYING.
  stop_runtime : Deployment → Action (State d h) Unit
  unfolding by_status
  stop_runtime r =
      if ltb 0 r.pid
      then (do
        status ← reconcile h (deployment_process r)
        by_status r (deployment_process r) status)
      else pure tt

  finish : Dirs → Deployment → Action (State d h) Unit
  finish dirs r = do
    remove_owned_data h dirs r
    transition d h r.id destroying destroyed no_reason
    say (destroyed_line r.id)

  tear_down : Dirs → Deployment → Phase → Action (State d h) Unit
  unfolding stop_runtime finish
  tear_down dirs r phase =
      if phase_eq phase destroying then (do stop_runtime r; finish dirs r) else pure tt

  purge_record : Deployment → Bool → Action (State d h) Unit
  purge_record r purge =
      if purge then (do delete_record d h r.id; say (purged_line r.id)) else pure tt

  unfoldable pub destroy_one : Dirs → Deployment → Bool → Action (State d h) Unit
  unfolding claim_by tear_down purge_record
  destroy_one dirs r purge = do
    phase ← claim_by r.phase r
    tear_down dirs r phase
    purge_record r purge

  keep_first : Option Fault → Fault → Option Fault
  keep_first none f = some f
  keep_first (some g) f = some g

  note_failure : Deployment → Option Fault → Result (Unit {0}) → Action (State d h) (Option Fault)
  unfolding keep_first
  note_failure r first (ok u) = pure first
  note_failure r first (err f) = do say (destroy_failed r.id f); pure (keep_first first f)

  -- Every target is tried; the first error is the one that is returned.
  unfoldable pub destroy_each :
      Dirs → Bool → Option Fault → List Deployment → Action (State d h) (Option Fault)
  unfolding note_failure
  destroy_each dirs purge first [] = pure first
  destroy_each dirs purge first (r ∷ rs) = do
    result ← attempt (destroy_one dirs r purge)
    first ← note_failure r first result
    destroy_each dirs purge first rs

  verdict : Option Fault → Action (State d h) Unit
  verdict none = pure tt
  verdict (some f) = raise f

  one : Text → Action (State d h) (List Deployment)
  one id = do r ← get d h id; pure (r ∷ [])

  select_targets : Bool → Text → Action (State d h) (List Deployment)
  unfolding one
  select_targets all id = if all then list d h else one id

  -- The command behind the lifecycle lock, which the caller holds.
  unfoldable pub destroy_targets : Dirs → (all purge : Bool) → Text → Action (State d h) Unit
  unfolding select_targets verdict
  destroy_targets dirs all purge id = do
    recover_interrupted_deployments d h
    targets ← select_targets all id
    first ← destroy_each dirs purge none targets
    say billing_note
    verdict first
