-- ===== src/Cli/Destroy/Keeps.antt =====
-- Destruction leaves alone whatever the store's operations on the destroyed rows leave alone.
use iold.Base.{Bool, Option, none, some, List, [], ◌∷◌, Text}
use iold.Fault.{Fault, Result, ok, err}
use iold.Action.Keeps.{
  Keeps, Keeps-bind, Keeps-raise, Keeps-pure, Keeps-if, Keeps-catch, Keeps-attempt,
}
use iold.Host.{Host}
use iold.State.Machine.{Phase, ready, unregistered_healthy, failed, crashed, destroying, destroyed}
use iold.State.Record.{Deployment}
use iold.State.Database.{Database}
use iold.State.Store.{State}
use iold.State.Store.Effect.{IsKept, transition-Keeps, delete_record-Keeps, get-Keeps, list-Keeps}
use iold.Supervisor.Identity.Facts.{IsQuiet-IsReading}
use iold.Supervisor.Identity.Indifferent.{IsIndifferent}
use iold.Supervisor.Stop.{stop}
use iold.Supervisor.Process.{Status, running, stale, reused, unknown}
use iold.Supervisor.Process.Facts.{reconcile-Keeps}
use iold.Supervisor.Stop.Facts.{stop-Keeps}
use iold.Cli.Paths.{Dirs}
use iold.Cli.Data.Facts.{remove_owned_data-Keeps}
use iold.Cli.Recover.{deployment_process}
use iold.Cli.Recover.Keeps.{recover_interrupted_deployments-Keeps}
use iold.Cli.Destroy.{
  stop_grace, claim_mid_flight, claim_resting, claim_by, stop_context, by_status, stop_runtime,
  finish, tear_down, purge_record, destroy_one, note_failure, destroy_each, verdict, one,
  select_targets, destroy_targets,
}

module _ (d : Database) (h : Host) (P : State d h → Type 0) where
  module _ (r : Deployment) (s : IsKept d h P r.id)
      (stops : Keeps P (stop h (deployment_process r) stop_grace)) where
    claim_mid_flight-Keeps : Keeps P (claim_mid_flight d h r)
    unfolding claim_mid_flight
    claim_mid_flight-Keeps =
        Keeps-bind _ _ (transition-Keeps d h P r.id s _ _ _)
          λ u. Keeps-bind _ _ (transition-Keeps d h P r.id s _ _ _) (λ u. Keeps-pure _)

    claim_resting-Keeps : Keeps P (claim_resting d h r)
    unfolding claim_resting
    claim_resting-Keeps = Keeps-bind _ _ (transition-Keeps d h P r.id s _ _ _) (λ u. Keeps-pure _)

    claim_by-Keeps : (p : Phase) → Keeps P (claim_by d h p r)
    unfolding claim_by
    claim_by-Keeps destroyed = Keeps-pure _
    claim_by-Keeps destroying = Keeps-pure _
    claim_by-Keeps ready = claim_resting-Keeps
    claim_by-Keeps failed = claim_resting-Keeps
    claim_by-Keeps crashed = claim_resting-Keeps
    claim_by-Keeps unregistered_healthy = claim_resting-Keeps
    claim_by-Keeps _ = claim_mid_flight-Keeps

    stop_context-Keeps : {A : Type 0} (f : Fault) → Keeps P (stop_context d h {A = A} f)
    unfolding stop_context
    stop_context-Keeps f = Keeps-raise _

    by_status-Keeps : (x : Status) → Keeps P (by_status d h r (deployment_process r) x)
    unfolding by_status
    by_status-Keeps running =
        Keeps-bind _ _ (Keeps-catch _ _ (stops) (λ f. stop_context-Keeps f)) (λ u. s.says _)
    by_status-Keeps reused = stop_context-Keeps _
    by_status-Keeps stale = Keeps-catch _ _ (stops) (λ f. stop_context-Keeps f)
    by_status-Keeps unknown = stop_context-Keeps _

    stop_runtime-Keeps : Keeps P (stop_runtime d h r)
    unfolding stop_runtime
    stop_runtime-Keeps =
        Keeps-if _ _ _
          (Keeps-bind _ _
            (reconcile-Keeps h P (IsQuiet-IsReading h P s.quiet) (deployment_process r))
            (λ x. by_status-Keeps x))
          (Keeps-pure _)

    finish-Keeps : (dirs : Dirs) → Keeps P (finish d h dirs r)
    unfolding finish
    finish-Keeps dirs =
        Keeps-bind _ _ (remove_owned_data-Keeps h P s.quiet dirs r)
          λ u. Keeps-bind _ _ (transition-Keeps d h P r.id s _ _ _) (λ u. s.says _)

    tear_down-Keeps : (dirs : Dirs) (p : Phase) → Keeps P (tear_down d h dirs r p)
    unfolding tear_down
    tear_down-Keeps dirs p =
        Keeps-if _ _ _ (Keeps-bind _ _ stop_runtime-Keeps (λ u. finish-Keeps dirs)) (Keeps-pure _)

    purge_record-Keeps : (purge : Bool) → Keeps P (purge_record d h r purge)
    unfolding purge_record
    purge_record-Keeps purge =
        Keeps-if _ _ _ (Keeps-bind _ _ (delete_record-Keeps d h P r.id s) (λ u. s.says _))
          (Keeps-pure _)

    pub destroy_one-Keeps : (dirs : Dirs) (purge : Bool) → Keeps P (destroy_one d h dirs r purge)
    unfolding destroy_one
    destroy_one-Keeps dirs purge =
        Keeps-bind _ _ (claim_by-Keeps r.phase)
          λ p. Keeps-bind _ _ (tear_down-Keeps dirs p) (λ u. purge_record-Keeps purge)

  module _ (s : (id : Text) → IsKept d h P id) (i : IsIndifferent h P) where
    note_failure-Keeps :
        (r : Deployment) (first : Option Fault) (x : Result (Unit {0}))
        → Keeps P (note_failure d h r first x)
    unfolding note_failure
    note_failure-Keeps r first (ok u) = Keeps-pure _
    note_failure-Keeps r first (err f) = Keeps-bind _ _ ((s []).says _) (λ u. Keeps-pure _)

    destroy_each-Keeps :
        (dirs : Dirs) (purge : Bool) (first : Option Fault) (rs : List Deployment)
        → Keeps P (destroy_each d h dirs purge first rs)
    unfolding destroy_each
    destroy_each-Keeps dirs purge first [] = Keeps-pure _
    destroy_each-Keeps dirs purge first (r ∷ rs) =
        Keeps-bind _ _
          (Keeps-attempt _ (destroy_one-Keeps r (s r.id) (stop-Keeps h P i _ _) dirs purge))
          λ x.
            Keeps-bind _ _ (note_failure-Keeps r first x)
              (λ first. destroy_each-Keeps dirs purge first rs)

    verdict-Keeps : (o : Option Fault) → Keeps P (verdict d h o)
    unfolding verdict
    verdict-Keeps none = Keeps-pure _
    verdict-Keeps (some f) = Keeps-raise _

    one-Keeps : (id : Text) → Keeps P (one d h id)
    unfolding one
    one-Keeps id = Keeps-bind _ _ (get-Keeps d h P id (s id) id) (λ r. Keeps-pure _)

    pub destroy_targets-Keeps :
        (dirs : Dirs) (all purge : Bool) (id : Text)
        → Keeps P (destroy_targets d h dirs all purge id)
    unfolding destroy_targets select_targets
    destroy_targets-Keeps dirs all purge id =
        Keeps-bind _ _ (recover_interrupted_deployments-Keeps d h P s) λ u.
          Keeps-bind _ _ (Keeps-if _ _ _ (list-Keeps d h P [] (s [])) (one-Keeps id)) λ targets.
            Keeps-bind _ _ (destroy_each-Keeps dirs purge none targets)
              λ first. Keeps-bind _ _ ((s []).says _) (λ u. verdict-Keeps first)
