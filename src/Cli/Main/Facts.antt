-- ===== src/Cli/Main/Facts.antt =====
-- The whole program against the abstract life of a row.
use iold.Base.{◌≡◌, Bool, List, [], ◌∷◌, Text}
use iold.Action.{Action}
use iold.Action.Keeps.{Keeps, Keeps-pure, Keeps-raise, Keeps-bind, Keeps-if}
use iold.Host.{Host}
use iold.Hub.{Client, Model}
use iold.Doctor.System.{system_probes}
use iold.State.Record.{Deployment}
use iold.State.Database.{Database}
use iold.State.Store.{State, create}
use iold.State.Store.Life.{Life, Life-trans, same, Life-Sound, Sound}
use iold.State.Store.Effect.{Lives, Lives-refl, Lives-IsKept, Lives-create, IsKept}
use iold.Cli.Paths.{Dirs, render}
use iold.Cli.Session.Facts.{IsOpened, Lives-IsOpened}
use iold.Cli.Commands.Facts.{run_destroy-Keeps, run_status-Keeps, run_logs-Keeps, run_doctor-Keeps}
use iold.Cli.Plan.Keeps.{run_plan-Keeps}
use iold.Cli.Deploy.Spec.{Deps}
use iold.Cli.Deploy.Run.Keeps.{run_deploy-Keeps}
use iold.Cli.Main.{printed, with_name, run, run_all}

module _ (d : Database) (h : Host) (dirs : Dirs) (deps : Deps) (c : Client)
    (sort : (Model → Model → Bool) → List Model → List Model) where
  module _ (P : State d h → Type 0) (s : (id : Text) → IsKept d h P id) (o : IsOpened d h P)
      (creates : (r : Deployment) → r.pid ≡ 0 → Keeps P (create d h r)) where
    printed-Keeps :
        {A : Type 0} (m : Action (State d h) A)
        → Keeps P m
        → Keeps P (printed d h dirs deps c sort m)
    unfolding printed
    printed-Keeps m k = Keeps-bind m _ k (λ a. Keeps-pure _)

    with_name-Keeps :
        (name : Text) (args : List Text) → Keeps P (with_name d h dirs deps c sort name args)
    unfolding with_name
    with_name-Keeps name args = Keeps-if _ _ _ (Keeps-pure _) (
        Keeps-if _ _ _
          (run_deploy-Keeps d h dirs deps (system_probes h) c P s o.indifferent creates o args)
          (Keeps-if _ _ _ (Keeps-raise _) (
            Keeps-if _ _ _
              (printed-Keeps _ (run_plan-Keeps h P o.indifferent (system_probes h) c sort args))
              (Keeps-if _ _ _
                (printed-Keeps _
                  (run_doctor-Keeps d h dirs P s o (system_probes h) (render dirs.model_cache_dir)))
                (Keeps-if _ _ _ (printed-Keeps _ (run_status-Keeps d h dirs P s o args)) (
                  Keeps-if _ _ _ (printed-Keeps _ (run_logs-Keeps d h dirs P s o args))
                    (Keeps-if _ _ _ (run_destroy-Keeps d h dirs P s o args) (Keeps-raise _))))))))

    run-Keeps : (line : List Text) → Keeps P (run d h dirs deps c sort line)
    unfolding run
    run-Keeps [] = Keeps-pure _
    run-Keeps (name ∷ args) = with_name-Keeps name args

  run-Life :
      (line : List Text) (w : State d h) (j : Text)
      → Life (d.view w.db j) (d.view (run d h dirs deps c sort line w).1.db j)
  run-Life line w j =
      ((run-Keeps (Lives d h w) (λ id. Lives-IsKept d h w id) (Lives-IsOpened d h w)
            (λ r e. Lives-create d h w r e) line).at
          w (Lives-refl d h w)).life
        j

-- Whatever command lines are run one after the other, wherever each of them fails and whatever the system, the
-- hub and the database answer, every row of the store takes a path of its abstract life, and stays sound if it
-- was: no process before STARTING, and a reason only in FAILED and CRASHED.
pub run_all-Life :
    (d : Database) (h : Host) (dirs : Dirs) (deps : Deps) (c : Client)
    (sort : (Model → Model → Bool) → List Model → List Model) (lines : List (List Text))
    (w : State d h) (j : Text)
    → Life (d.view w.db j) (d.view (run_all d h dirs deps c sort lines w).db j)
      × (Sound (d.view w.db j) → Sound (d.view (run_all d h dirs deps c sort lines w).db j))
unfolding run_all
run_all-Life d h dirs deps c sort [] w j = (same, λ s. s)
run_all-Life d h dirs deps c sort (line ∷ lines) w j =
    let first = run-Life d h dirs deps c sort line w j in
    let rest = run_all-Life d h dirs deps c sort lines (run d h dirs deps c sort line w).1 j in
    (Life-trans first rest.0, λ s. rest.1 (Life-Sound first s))
