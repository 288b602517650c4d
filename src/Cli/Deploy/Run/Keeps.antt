-- ===== src/Cli/Deploy/Run/Keeps.antt =====
-- `deploy` leaves alone whatever the operations of the store on the rows, and creating one, leave alone.
use iold.Base.{◌≡◌, refl, List, [], ◌∷◌, Text, Option, none, some, false}
use iold.Fault.{Result, ok, err}
use iold.Action.Keeps.{
  Keeps, Keeps-pure, Keeps-raise, Keeps-bind, Keeps-if, Keeps-catch, Keeps-attempt,
}
use iold.Host.{Host}
use iold.Hub.{Client}
use iold.Doctor.System.{Probes}
use iold.Preflight.Keeps.{run-Keeps}
use iold.State.Record.{Deployment}
use iold.State.Database.{Database}
use iold.State.Store.{State, create, list}
use iold.State.Store.Effect.{IsKept, get-Keeps, list-Keeps, delete_record-Keeps}
use iold.Supervisor.Identity.Indifferent.{IsIndifferent}
use iold.Supervisor.Stop.Facts.{stop-Keeps}
use iold.Cli.Args.{DeployArgs, deploy_args}
use iold.Cli.Paths.{Dirs}
use iold.Cli.Session.Facts.{IsOpened, locked-Keeps}
use iold.Cli.Recover.Keeps.{recover_interrupted_deployments-Keeps}
use iold.Cli.Destroy.Keeps.{destroy_one-Keeps}
use iold.Cli.Deploy.Keeps.{execute_deploy-Keeps}
use iold.Cli.Deploy.Spec.{DeploySpec, Deps}
use iold.Cli.Deploy.Cache.Facts.{lift-Keeps}
use iold.Cli.Deploy.Resolve.Keeps.{resolve_spec-Keeps}
use iold.Cli.Deploy.Run.{
  new_row, replace_each, by_tombstone, clear_tombstone, prepare, carry_out, deploy_model, by_args,
  run_deploy,
}

module _ (d : Database) (h : Host) (dirs : Dirs) (deps : Deps) (p : Probes h.Os) (c : Client)
    (P : State d h → Type 0) (id : Text) (s : IsKept d h P id) where
  by_tombstone-Keeps : (r : Result Deployment) → Keeps P (by_tombstone d h dirs deps p c id r)
  unfolding by_tombstone
  by_tombstone-Keeps (err f) = Keeps-pure _
  by_tombstone-Keeps (ok old) = Keeps-if _ _ _ (delete_record-Keeps d h P id s) (Keeps-pure _)

  pub clear_tombstone-Keeps : Keeps P (clear_tombstone d h dirs deps p c id)
  unfolding clear_tombstone
  clear_tombstone-Keeps =
      Keeps-bind _ _ (Keeps-attempt _ (get-Keeps d h P id s id)) (λ r. by_tombstone-Keeps r)

-- Preparing only asks and reads the rows.
module _ (d : Database) (h : Host) (dirs : Dirs) (deps : Deps) (p : Probes h.Os) (c : Client)
    (P : State d h → Type 0) (l : Keeps P (list d h)) (i : IsIndifferent h P) where
  pub prepare-Keeps : (args : DeployArgs) → Keeps P (prepare d h dirs deps p c args)
  unfolding prepare
  prepare-Keeps args = Keeps-bind _ _ l λ existing. Keeps-bind _ _ (lift-Keeps h P i _) λ active.
      Keeps-bind _ _ (resolve_spec-Keeps h P i p c dirs args.ref)
        λ spec. Keeps-bind _ _ (run-Keeps h P i p _) (λ port. Keeps-pure _)

module _ (d : Database) (h : Host) (dirs : Dirs) (deps : Deps) (p : Probes h.Os) (c : Client)
    (P : State d h → Type 0) (s : (id : Text) → IsKept d h P id) (i : IsIndifferent h P) where
  replace_each-Keeps : (rs : List Deployment) → Keeps P (replace_each d h dirs deps p c rs)
  unfolding replace_each
  replace_each-Keeps [] = Keeps-pure _
  replace_each-Keeps (r ∷ rs) = Keeps-bind _ _ (i.says _) λ u.
      Keeps-bind _ _
        (Keeps-catch _ _ (destroy_one-Keeps d h P r (s r.id) (stop-Keeps h P i _ _) dirs _)
          (λ f. Keeps-raise _))
        (λ u. replace_each-Keeps rs)

  module _ (creates : (r : Deployment) → r.pid ≡ 0 → Keeps P (create d h r)) where
    pub carry_out-Keeps :
        (x : List Deployment × DeploySpec) → Keeps P (carry_out d h dirs deps p c x)
    unfolding carry_out
    carry_out-Keeps (active, spec) = Keeps-bind _ _ (replace_each-Keeps active) λ u.
        Keeps-bind _ _ (clear_tombstone-Keeps d h dirs deps p c P spec.id (s spec.id)) λ u.
          Keeps-bind _ _ (i.asks Text (h.random_hex 16)) λ key.
            Keeps-bind _ _ (creates (new_row spec key) refl)
              (λ row. execute_deploy-Keeps d h dirs deps row P (s row.id) i spec)

    pub deploy_model-Keeps : (args : DeployArgs) → Keeps P (deploy_model d h dirs deps p c args)
    unfolding deploy_model
    deploy_model-Keeps args = Keeps-bind _ _ (recover_interrupted_deployments-Keeps d h P s) λ u.
        Keeps-bind _ _ (prepare-Keeps d h dirs deps p c P (list-Keeps d h P [] (s [])) i args)
          (λ x. carry_out-Keeps x)

    by_args-Keeps : IsOpened d h P → (o : Option DeployArgs) → Keeps P (by_args d h dirs deps p c o)
    unfolding by_args
    by_args-Keeps o none = Keeps-raise _
    by_args-Keeps o (some args) =
        Keeps-bind _ _ (lift-Keeps h P i _)
          (λ u. locked-Keeps d h P o dirs _ (deploy_model-Keeps args))

    pub run_deploy-Keeps :
        IsOpened d h P → (args : List Text) → Keeps P (run_deploy d h dirs deps p c args)
    unfolding run_deploy
    run_deploy-Keeps o args = by_args-Keeps o (deploy_args false [] args)
