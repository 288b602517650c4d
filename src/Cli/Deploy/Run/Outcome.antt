-- ===== src/Cli/Deploy/Run/Outcome.antt =====
-- What `deploy` has reached when it returns, and what it leaves alone until it is prepared.
use iold.Base.{ℕ, ◌≡◌, refl, subst, List, [], Text, Option, none, some, false, ap, ◌∙◌}
use iold.Fault.{Fault, usage, ok}
use iold.Action.{Action, raise}
use iold.Action.Keeps.{Keeps}
use iold.Action.Ensures.{
  Ensures, Anything, Ensures-bind, Ensures-weaken, Ensures_any, Ensures_of_Yields, Post_ok,
}
use iold.Host.{Host}
use iold.World.{ask}
use iold.Hub.{Client}
use iold.Catalog.{get_entry}
use iold.Doctor.System.{Probes}
use iold.State.Machine.{unregistered_healthy}
use iold.State.Record.{Deployment, no_reason}
use iold.State.Database.{Database}
use iold.State.Store.{State}
use iold.State.Store.After.{At, At-map, At-IsIndifferent}
use iold.State.Store.Creation.{Created, create_after}
use iold.Supervisor.Identity.Indifferent.{IsIndifferent}
use iold.Cli.Args.{DeployArgs, deploy_args}
use iold.Cli.Paths.{Dirs}
use iold.Cli.Session.Facts.{locked_returns}
use iold.Cli.Recover.{recover_interrupted_deployments}
use iold.Cli.Deploy.{execute_deploy}
use iold.Cli.Deploy.Outcome.{Reached, execute_deploy_outcome}
use iold.Cli.Deploy.Spec.{DeploySpec, Deps}
use iold.Cli.Deploy.Cache.{lift}
use iold.Cli.Deploy.Run.{
  new_row, replace_each, clear_tombstone, carry_out, deploy_model, check_ref, by_args, run_deploy,
}
use iold.Cli.Deploy.Run.Facts.{IsPrepared, prepare-Yields}

module _ (d : Database) (h : Host) (dirs : Dirs) (deps : Deps) (p : Probes h.Os) (c : Client) where
  -- The row under `id` has the phase UNREGISTERED_HEALTHY, no reason, and the port.
  abbrev pub Serves : ℕ → Deployment → Type 0
  Serves port row =
      (row.phase ≡ unregistered_healthy) × (row.failure_reason ≡ no_reason) × (row.port ≡ port)

  reached :
      (r : Deployment) (port : ℕ) (id : Text) (w : State d h)
      → r.id ≡ id
      → Reached d h dirs deps r port w
      → At d h id (Serves port) w
  reached r port id w e a =
      subst (λ i. At d h i (Serves port) w) e
        (At-map d h r.id w (λ row x. (x.1, x.2, x.0.runs.port_is)) a)

  execute_reaches :
      (spec : DeploySpec) (given r : Deployment)
      → Ensures
          (Created d h given r)
          (execute_deploy d h dirs deps r spec)
          (λ _. At d h given.id (Serves spec.port))
          Anything
  execute_reaches spec given r = record {
    at = λ w k.
        (Ensures-weaken _ (execute_deploy_outcome d h dirs deps r spec) (λ w k. k)
            (λ u w a. reached r spec.port given.id w k.1 a) (λ w b. tt)).at
          w (At-map d h r.id w (λ row e. ap (λ (x : Deployment). x.phase) e ∙ k.2) k.0);
  }

  carry_out_outcome :
      (active : List Deployment) (spec : DeploySpec)
      → Ensures Anything
          (carry_out d h dirs deps p c (active, spec))
          (λ _. At d h spec.id (Serves spec.port))
          Anything
  unfolding carry_out
  carry_out_outcome active spec =
      Ensures-bind _ _ (Ensures_any (replace_each d h dirs deps p c active)) λ u.
        Ensures-bind _ _ (Ensures_any (clear_tombstone d h dirs deps p c spec.id)) λ u.
          Ensures-bind _ _ (Ensures_any (ask (h.random_hex 16))) λ key.
            Ensures-bind _ _ (create_after d h (new_row spec key))
              (λ row. execute_reaches spec (new_row spec key) row)

  -- What `deploy` has done when it returns.
  pub record IsDeployed (args : DeployArgs) (w : State d h) : Type 0 where
    pub active : List Deployment
    pub spec : DeploySpec
    pub prepared : IsPrepared h dirs deps p c args active spec
    pub serves : At d h spec.id (Serves spec.port) w

  IsDeployed-IsIndifferent : (args : DeployArgs) → IsIndifferent h (IsDeployed args)
  IsDeployed-IsIndifferent args = record {
    asks = λ A call. record { at = λ w k. again k ((held k).asks A call) };
    notes = λ e. record { at = λ w k. again k ((held k).notes e) };
    says = λ l. record { at = λ w k. again k ((held k).says l) };
  }
    where
      held :
          {w : State d h} (k : IsDeployed args w)
          → IsIndifferent h (At d h k.spec.id (Serves k.spec.port))
      held k = At-IsIndifferent d h k.spec.id (Serves k.spec.port)

      again :
          {A : Type 0} {w : State d h} {m : Action (State d h) A} (k : IsDeployed args w)
          → Keeps (At d h k.spec.id (Serves k.spec.port)) m
          → IsDeployed args (m w).1
      again {w = w} k s = record {
        active = k.active;
        spec = k.spec;
        prepared = k.prepared;
        serves = s.at w k.serves;
      }

  deploy_model_outcome :
      {P : State d h → Type 0} (args : DeployArgs)
      → Ensures P (deploy_model d h dirs deps p c args) (λ _. IsDeployed args) Anything
  unfolding deploy_model
  deploy_model_outcome args =
      Ensures-bind _ _ (Ensures_any (recover_interrupted_deployments d h)) λ u.
        Ensures-bind _ _ (Ensures_of_Yields _ (prepare-Yields h dirs deps p c d args))
          (λ x. carried x)
    where
      carried :
          (x : List Deployment × DeploySpec)
          → Ensures
              (λ _. IsPrepared h dirs deps p c args x.0 x.1)
              (carry_out d h dirs deps p c x)
              (λ _. IsDeployed args)
              Anything
      carried x = record {
        at = λ w k.
            (Ensures-weaken _ (carry_out_outcome x.0 x.1) (λ (w : State d h) k. k)
                (λ u w a. record { active = x.0; spec = x.1; prepared = k; serves = a })
                (λ w b. tt)).at
              w tt;
      }

  by_args_outcome :
      (o : Option DeployArgs) (w : State d h) (u : Unit {0})
      → (by_args d h dirs deps p c o w).0 ≡ ok u
      → (args : DeployArgs) × (o ≡ some args) × IsDeployed args (by_args d h dirs deps p c o w).1
  unfolding by_args raise
  by_args_outcome none w u e = absurd (raised usage w e)
    where
      raised : (f : Fault) (w : State d h) → (raise {A = Unit {0}} f w).0 ≡ ok u → ⊥
      raised f w e = cc
  by_args_outcome (some args) w u e = (
    args,
    refl,
    Post_ok _ _ _ _ u
        ((Ensures-bind {P = Anything} _ _
            (Ensures_any (lift h (check_ref d h dirs deps p c args.ref (get_entry args.ref))))
            (λ v.
              locked_returns d h dirs (λ _. IsDeployed args) (deploy_model d h dirs deps p c args)
                (λ a. IsDeployed-IsIndifferent args) (deploy_model_outcome args))).at
          w tt)
        e,
  )

-- Where `deploy` returns without an error its arguments named a model, and the specification is the
-- one of the catalog for that name, or one for the model of the hub under that name that passed the
-- planner; the preflight of it granted the port, nothing was to be replaced unless --replace was
-- given, and the row under the identifier of the specification is UNREGISTERED_HEALTHY with no reason
-- and with that port.
pub run_deploy-outcome :
    (d : Database) (h : Host) (dirs : Dirs) (deps : Deps) (p : Probes h.Os) (c : Client)
    (args : List Text) (w : State d h)
    → (run_deploy d h dirs deps p c args w).0 ≡ ok tt
    → (a : DeployArgs) × (deploy_args false [] args ≡ some a)
      × IsDeployed d h dirs deps p c a (run_deploy d h dirs deps p c args w).1
unfolding run_deploy
run_deploy-outcome d h dirs deps p c args w e =
    by_args_outcome d h dirs deps p c (deploy_args false [] args) w tt e
