-- ===== src/Cli/Recover/Keeps.antt =====
-- Recovery leaves alone whatever the store's operations on the recovered rows leave alone.
use iold.Base.{◌≡◌, refl, subst, sym, ◌==◌, ◌&&◌, not, List, [], ◌∷◌, Text, codes, is_empty}
use iold.Fault.{wrapped}
use iold.Action.{Action, pure, raise, catch, ◌>>=◌}
use iold.Action.Keeps.{Keeps, Keeps-bind, Keeps-raise, Keeps-pure, Keeps-if, Keeps-catch}
use iold.Action.Ensures.{
  Ensures, Ensures-pure, Ensures-bind, Ensures-if, Ensures-weaken, Ensures-and, Ensures_of_pre,
  Ensures_of_Keeps, Keeps_of_Ensures,
}
use iold.Host.{Host}
use iold.State.Machine.{starting, phase_eq}
use iold.State.Record.{Deployment}
use iold.State.Database.{Database}
use iold.State.Store.{State}
use iold.State.Store.Effect.{IsKept, transition-Keeps, record_runtime-Keeps, list-Keeps}
use iold.Supervisor.Identity.Facts.{IsQuiet-IsReading}
use iold.Supervisor.Process.{Process, Status, running, stale, reused, unknown}
use iold.Supervisor.Process.Facts.{reconcile-Keeps}
use iold.Supervisor.Intent.{find_by_command}
use iold.Supervisor.Intent.Facts.{find_by_command-Keeps}
use iold.Cli.Recover.{
  crash, adopt, adopt_intent, by_status, settle, recover_one, recover_each,
  recover_interrupted_deployments, deployment_process,
}

module _ (d : Database) (h : Host) (P : State d h → Type 0) where
  module _ (r : Deployment) (s : IsKept d h P r.id) where
    crash-Keeps : (why : Text) → Keeps P (crash d h r why)
    unfolding crash
    crash-Keeps why = transition-Keeps d h P r.id s _ _ _

    adopt-Keeps : (ps : List Process) → Keeps P (adopt d h r ps)
    unfolding adopt
    adopt-Keeps [] = Keeps-pure _
    adopt-Keeps (p ∷ []) =
        Keeps-bind _ _
          (record_runtime-Keeps d h P r.id s p.pid r.port p.command p.started_at p.start_token)
          (λ u. Keeps-pure _)
    adopt-Keeps (p ∷ q ∷ ps) = Keeps-pure _

    pub adopt_intent-Keeps : Keeps P (adopt_intent d h r)
    unfolding adopt_intent
    adopt_intent-Keeps =
        Keeps-if _ _ _
          (Keeps-bind _ _
            (Keeps-catch _ _ (find_by_command-Keeps h P s.quiet r.command r.updated_at)
              (λ f. Keeps-raise _))
            (λ ps. adopt-Keeps ps))
          (Keeps-pure _)

    by_status-Keeps : (x : Status) → Keeps P (by_status d h r x)
    unfolding by_status
    by_status-Keeps running = Keeps-if _ _ _ (crash-Keeps _) (Keeps-pure _)
    by_status-Keeps stale = crash-Keeps _
    by_status-Keeps reused = crash-Keeps _
    by_status-Keeps unknown = Keeps-raise _

    pub settle-Keeps : Keeps P (settle d h r)
    unfolding settle
    settle-Keeps = Keeps-if _ _ _ (crash-Keeps _) (
        Keeps-bind _ _ (reconcile-Keeps h P (IsQuiet-IsReading h P s.quiet) (deployment_process r))
          (λ x. by_status-Keeps x))

    -- What `recoverInterruptedDeployments` goes on with is the same deployment in the same phase.
    abbrev Same : Deployment → State d h → Type 0
    Same q w = (q.id ≡ r.id) × (q.phase ≡ r.phase)

    abbrev Any : State d h → Type 0
    Any w = Unit

    adopt-Same : (ps : List Process) → Ensures Any (adopt d h r ps) Same Any
    unfolding adopt
    adopt-Same [] = Ensures-pure _ (λ w u. (refl, refl))
    adopt-Same (p ∷ []) = Ensures-bind _ _ (anyhow _) (λ u. Ensures-pure _ (λ w u. (refl, refl)))
      where
        anyhow : (m : Action (State d h) Unit) → Ensures Any m (λ _. Any) Any
        anyhow m = Ensures_of_Keeps m (record { at = λ w u. tt })
    adopt-Same (p ∷ q ∷ ps) = Ensures-pure _ (λ w u. (refl, refl))

    pub adopt_intent-Same : Ensures Any (adopt_intent d h r) Same Any
    unfolding adopt_intent
    adopt_intent-Same =
        Ensures-if (phase_eq r.phase starting && r.pid == 0 && not (is_empty r.command))
          (searched >>= λ matches. adopt d h r matches) (pure r)
          (λ e.
            Ensures-bind searched _ (Ensures_of_Keeps searched (record { at = λ w u. tt }))
              (λ ps. adopt-Same ps))
          (λ e. Ensures-pure r (λ w u. (refl, refl)))
      where
        searched : Action (State d h) (List Process)
        searched =
            catch (find_by_command h r.command r.updated_at)
              (λ f. raise (wrapped (codes "recover deployment") f))

  pub recover_one-Keeps : (r : Deployment) (s : IsKept d h P r.id) → Keeps P (recover_one d h r)
  unfolding recover_one
  recover_one-Keeps r s = Keeps-if _ _ _ (Keeps-pure _) (
      Keeps_of_Ensures _ (
        Ensures-bind _ _
          (Ensures-weaken _
            (Ensures-and _ (Ensures_of_Keeps _ (adopt_intent-Keeps r s)) (adopt_intent-Same r s))
            (λ w p. (p, tt)) (λ q w x. x) (λ w x. x.0))
          (λ q.
            Ensures_of_pre _ (λ c.
              Ensures_of_Keeps _ (settle-Keeps q (subst (λ j. IsKept d h P j) (sym c.0) s))))))

  module _ (s : (id : Text) → IsKept d h P id) where
    pub recover_each-Keeps : (rs : List Deployment) → Keeps P (recover_each d h rs)
    unfolding recover_each
    recover_each-Keeps [] = Keeps-pure _
    recover_each-Keeps (r ∷ rs) =
        Keeps-bind _ _ (recover_one-Keeps r (s r.id)) (λ u. recover_each-Keeps rs)

    pub recover_interrupted_deployments-Keeps : Keeps P (recover_interrupted_deployments d h)
    unfolding recover_interrupted_deployments
    recover_interrupted_deployments-Keeps =
        Keeps-bind _ _ (list-Keeps d h P [] (s [])) (λ rs. recover_each-Keeps rs)
