-- ===== src/Cli/Deploy/Keeps.antt =====
-- A deployment leaves alone whatever the store's operations on its row leave alone.
use iold.Base.{Option, none, some, Text}
use iold.Fault.{Fault}
use iold.Action.{Action}
use iold.Action.Keeps.{Keeps, Keeps-bind, Keeps-raise, Keeps-pure, Keeps-catch}
use iold.Host.{Host}
use iold.State.Machine.{Phase}
use iold.State.Record.{Deployment}
use iold.State.Database.{Database}
use iold.State.Store.{State}
use iold.State.Store.Effect.{
  IsKept, transition-Keeps, record_runtime-Keeps, set_runtime_intent-Keeps,
}
use iold.Supervisor.Identity.Indifferent.{IsIndifferent}
use iold.Supervisor.Process.{Process}
use iold.Supervisor.Stop.Facts.{stop-Keeps}
use iold.Supervisor.Start.Facts.{start-Keeps}
use iold.Cli.Paths.{Dirs}
use iold.Cli.Deploy.{
  stop_started, fail, or_fail, validate, launch, verify, register, execute_deploy,
}
use iold.Cli.Deploy.Spec.{DeploySpec, Deps}
use iold.Cli.Deploy.Cache.Facts.{lift-Keeps, write_api_key-Keeps, prepare_model_cache-Keeps}
use iold.Cli.Deploy.Ready.Facts.{wait_healthy-Keeps, check_readiness-Keeps}

module _ (d : Database) (h : Host) (dirs : Dirs) (deps : Deps) (r : Deployment)
    (P : State d h → Type 0) (s : IsKept d h P r.id) (i : IsIndifferent h P) where
  stop_started-Keeps : (o : Option Process) → Keeps P (stop_started d h dirs deps r o)
  unfolding stop_started
  stop_started-Keeps none = Keeps-pure _
  stop_started-Keeps (some p) = Keeps-catch _ _ (stop-Keeps h P i p deps.stop_grace) (λ f. s.says _)

  fail-Keeps :
      {A : Type 0} (o : Option Process) (from : Phase) (f : Fault)
      → Keeps P (fail d h dirs deps r o from f {A = A})
  unfolding fail
  fail-Keeps o from f = Keeps-bind _ _ (stop_started-Keeps o) λ u.
      Keeps-bind _ _ (Keeps-catch _ _ (transition-Keeps d h P r.id s _ _ _) (λ g. s.says _))
        (λ u. Keeps-raise _)

  or_fail-Keeps :
      {A : Type 0} (o : Option Process) (from : Phase) (m : Action (State d h) A)
      → Keeps P m
      → Keeps P (or_fail d h dirs deps r o from m)
  unfolding or_fail
  or_fail-Keeps o from m k = Keeps-catch _ _ k (λ f. fail-Keeps o from f)

  validate-Keeps : (spec : DeploySpec) → Keeps P (validate d h dirs deps r spec)
  unfolding validate
  validate-Keeps spec =
      Keeps-bind _ _ (or_fail-Keeps _ _ _ (write_api_key-Keeps h P i dirs r.id spec.api_key)) (λ u.
        or_fail-Keeps _ _ _ (prepare_model_cache-Keeps h P i spec.cache_dir r.id r.idempotency_key))

  launch-Keeps : (spec : DeploySpec) → Keeps P (launch d h dirs deps r spec)
  unfolding launch
  launch-Keeps spec = Keeps-bind _ _ (or_fail-Keeps _ _ _ (lift-Keeps h P i _)) λ log_file.
      Keeps-bind _ _ (or_fail-Keeps _ _ _ (set_runtime_intent-Keeps d h P r.id s _ _)) λ u.
        Keeps-bind _ _ (or_fail-Keeps _ _ _ (transition-Keeps d h P r.id s _ _ _)) λ u.
          Keeps-bind _ _ (or_fail-Keeps _ _ _ (start-Keeps h P i _)) λ p.
            Keeps-bind _ _ (or_fail-Keeps _ _ _ (record_runtime-Keeps d h P r.id s _ _ _ _ _))
              λ u. Keeps-bind _ _ (s.says _) (λ u. Keeps-pure _)

  verify-Keeps : (spec : DeploySpec) (p : Process) → Keeps P (verify d h dirs deps r spec p)
  unfolding verify
  verify-Keeps spec p =
      Keeps-bind _ _ (or_fail-Keeps _ _ _ (wait_healthy-Keeps h P i deps _ p)) λ u.
        Keeps-bind _ _ (or_fail-Keeps _ _ _ (transition-Keeps d h P r.id s _ _ _))
          (λ u. or_fail-Keeps _ _ _ (check_readiness-Keeps h P i deps _ spec))

  register-Keeps : (p : Process) → Keeps P (register d h dirs deps r p)
  unfolding register
  register-Keeps p =
      Keeps-bind _ _ (or_fail-Keeps _ _ _ (transition-Keeps d h P r.id s _ _ _))
        (λ u. or_fail-Keeps _ _ _ (transition-Keeps d h P r.id s _ _ _))

  pub execute_deploy-Keeps : (spec : DeploySpec) → Keeps P (execute_deploy d h dirs deps r spec)
  unfolding execute_deploy
  execute_deploy-Keeps spec = Keeps-bind _ _ (transition-Keeps d h P r.id s _ _ _) λ u.
      Keeps-bind _ _ (i.asks Text (h.random_hex 32)) λ key. Keeps-bind _ _ (validate-Keeps _) λ u.
        Keeps-bind _ _ (transition-Keeps d h P r.id s _ _ _) λ u.
          Keeps-bind _ _ (launch-Keeps _) λ p.
            Keeps-bind _ _ (verify-Keeps _ p) λ u. Keeps-bind _ _ (register-Keeps p) (λ u. s.says _)
