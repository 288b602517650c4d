-- ===== src/Cli/Commands/Facts.antt =====
-- The commands leave alone whatever the operations of the store on the rows leave alone.
use iold.Base.{Bool, true, false, List, [], ◌∷◌, Text, Option, none, some}
use iold.Fault.{Result, ok, err}
use iold.Action.Keeps.{Keeps, Keeps-pure, Keeps-raise, Keeps-bind, Keeps-if, Keeps-attempt}
use iold.Host.{Host, Read, content, absent, unreadable, path}
use iold.Doctor.System.{Probes}
use iold.Doctor.Keeps.{run-Keeps}
use iold.State.Record.{Deployment}
use iold.State.Database.{Database}
use iold.State.Store.{State}
use iold.State.Store.Effect.{IsKept, get-Keeps, list-Keeps}
use iold.Supervisor.Identity.Indifferent.{IsIndifferent}
use iold.OperationLock.Facts.{acquire-Keeps, holding-Keeps}
use iold.Cli.Args.{DestroyArgs, destroy_args, StatusArgs, status_args}
use iold.Cli.Paths.{Dirs, render}
use iold.Cli.Session.Facts.{IsOpened, locked-Keeps, with_store-Keeps}
use iold.Cli.Recover.Keeps.{recover_interrupted_deployments-Keeps}
use iold.Cli.Destroy.Keeps.{destroy_targets-Keeps}
use iold.Cli.Deploy.Cache.Facts.{lift-Keeps}
use iold.Cli.Commands.{
  run_doctor, by_destroy_args, run_destroy, only_one, resolve_target, read_log, show_log, run_logs,
  by_lock, one, shown, by_status_args, run_status,
}

module _ (d : Database) (h : Host) (dirs : Dirs) (P : State d h → Type 0)
    (s : (id : Text) → IsKept d h P id) (o : IsOpened d h P) where
  i : IsIndifferent h P
  i = o.indifferent

  pub run_doctor-Keeps : (p : Probes h.Os) (cache_dir : Text) → Keeps P (run_doctor p cache_dir)
  unfolding run_doctor
  run_doctor-Keeps p cache_dir =
      Keeps-bind _ _ (run-Keeps h P i p _) (λ report. Keeps-if _ _ _ (Keeps-pure _) (Keeps-raise _))

  by_destroy_args-Keeps : (a : Option DestroyArgs) → Keeps P (by_destroy_args d h dirs a)
  unfolding by_destroy_args
  by_destroy_args-Keeps none = Keeps-raise _
  by_destroy_args-Keeps (some a) =
      locked-Keeps d h P o dirs _ (destroy_targets-Keeps d h P s i dirs a.all a.purge a.id)

  pub run_destroy-Keeps : (args : List Text) → Keeps P (run_destroy d h dirs args)
  unfolding run_destroy
  run_destroy-Keeps args = by_destroy_args-Keeps (destroy_args false false [] args)

  only_one-Keeps : (rs : List Deployment) → Keeps P (only_one d h dirs rs)
  unfolding only_one
  only_one-Keeps [] = Keeps-raise _
  only_one-Keeps (r ∷ []) = Keeps-pure _
  only_one-Keeps (r ∷ q ∷ rs) = Keeps-raise _

  resolve_target-Keeps : (args : List Text) → Keeps P (resolve_target d h dirs args)
  unfolding resolve_target
  resolve_target-Keeps (id ∷ []) = get-Keeps d h P id (s id) id
  resolve_target-Keeps [] = Keeps-bind _ _ (list-Keeps d h P [] (s [])) (λ rs. only_one-Keeps rs)
  resolve_target-Keeps (a ∷ b ∷ more) =
      Keeps-bind _ _ (list-Keeps d h P [] (s [])) (λ rs. only_one-Keeps rs)

  read_log-Keeps : (r : Read) → Keeps P (read_log d h dirs r)
  unfolding read_log
  read_log-Keeps (content log) = Keeps-pure _
  read_log-Keeps absent = Keeps-raise _
  read_log-Keeps unreadable = Keeps-raise _

  show_log-Keeps : (args : List Text) → Keeps P (show_log d h dirs args)
  unfolding show_log
  show_log-Keeps args = Keeps-bind _ _ (resolve_target-Keeps args) λ r.
      Keeps-bind _ _ (lift-Keeps h P i _) λ file.
        Keeps-bind _ _ (i.asks Read (h.read_file (path (render file)))) (λ f. read_log-Keeps f)

  pub run_logs-Keeps : (args : List Text) → Keeps P (run_logs d h dirs args)
  unfolding run_logs
  run_logs-Keeps [] = with_store-Keeps d h P o dirs _ (show_log-Keeps _)
  run_logs-Keeps (a ∷ []) = with_store-Keeps d h P o dirs _ (show_log-Keeps _)
  run_logs-Keeps (a ∷ b ∷ more) = Keeps-raise _

  by_lock-Keeps : (r : Result (Unit {0})) → Keeps P (by_lock d h dirs r)
  unfolding by_lock
  by_lock-Keeps (ok u) = Keeps-pure _
  by_lock-Keeps (err f) = Keeps-if _ _ _ (Keeps-pure false) (Keeps-raise f)

  one-Keeps : (id : Text) → Keeps P (one d h dirs id)
  unfolding one
  one-Keeps id = Keeps-bind _ _ (get-Keeps d h P id (s id) id) (λ r. Keeps-pure _)

  shown-Keeps : (held : Bool) (id : Text) → Keeps P (shown d h dirs held id)
  unfolding shown
  shown-Keeps held id =
      Keeps-bind _ _
        (Keeps-if held _ _ (recover_interrupted_deployments-Keeps d h P s) (Keeps-pure _))
        (λ u. Keeps-if _ _ _ (list-Keeps d h P [] (s [])) (one-Keeps id))

  by_status_args-Keeps : (a : Option StatusArgs) → Keeps P (by_status_args d h dirs a)
  unfolding by_status_args
  by_status_args-Keeps none = Keeps-raise _
  by_status_args-Keeps (some a) =
      Keeps-bind _ _ (Keeps-attempt _ (acquire-Keeps h P i _ _ true)) λ tried.
        Keeps-bind _ _ (by_lock-Keeps tried) λ held.
          let body = with_store-Keeps d h P o dirs _ (shown-Keeps held a.id) in
          Keeps-if held _ _ (holding-Keeps h P i _ _ body) body

  pub run_status-Keeps : (args : List Text) → Keeps P (run_status d h dirs args)
  unfolding run_status
  run_status-Keeps args = by_status_args-Keeps (status_args false [] args)
