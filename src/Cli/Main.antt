-- ===== src/Cli/Main.antt =====
-- `Run` of internal/cli/cli.go: the commands by their names. What is only printed is left out.
pub mod Facts
use iold.Base.{◌||◌, Bool, List, [], ◌∷◌, Text, codes, text_eq, if◌then◌else◌}
use iold.Fault.{Fault, usage, not_implemented}
use iold.Action.{Action, pure, raise, ◌>>=◌, ◌>>◌}
use iold.Host.{Host}
use iold.Hub.{Client, Model}
use iold.Doctor.System.{system_probes}
use iold.State.Database.{Database}
use iold.State.Store.{State}
use iold.Cli.Paths.{Dirs, render}
use iold.Cli.Commands.{run_destroy, run_status, run_logs, run_doctor}
use iold.Cli.Plan.{run_plan}
use iold.Cli.Deploy.Spec.{Deps}
use iold.Cli.Deploy.Run.{run_deploy}

module _ (d : Database) (h : Host) (dirs : Dirs) (deps : Deps) (c : Client)
    (sort : (Model → Model → Bool) → List Model → List Model) where
  -- The result of a command that the model returns and the program prints.
  printed : {A : Type 0} → Action (State d h) A → Action (State d h) Unit
  printed m = m >>= λ a. pure tt

  with_name : Text → List Text → Action (State d h) Unit
  unfolding printed
  with_name name args =
      if text_eq name (codes "help")
        || text_eq name (codes "--help")
        || text_eq name (codes "-h")
        || text_eq name (codes "version")
        || text_eq name (codes "--version")
        || text_eq name (codes "models")
      then pure tt
      else if text_eq name (codes "deploy")
      then run_deploy d h dirs deps (system_probes h) c args
      else if text_eq name (codes "add")
      then raise (not_implemented (codes "add"))
      else if text_eq name (codes "plan")
      then printed (run_plan h (system_probes h) c sort args)
      else if text_eq name (codes "doctor")
      then printed (run_doctor (system_probes h) (render dirs.model_cache_dir))
      else if text_eq name (codes "status")
      then printed (run_status d h dirs args)
      else if text_eq name (codes "logs")
      then printed (run_logs d h dirs args)
      else if text_eq name (codes "destroy")
      then run_destroy d h dirs args
      else raise usage

  unfoldable pub run : List Text → Action (State d h) Unit
  unfolding with_name
  run [] = pure tt
  run (name ∷ args) = with_name name args

  -- Several commands, one after the other, whether they fail or not.
  pub run_all : List (List Text) → State d h → State d h
  run_all [] w = w
  run_all (line ∷ lines) w = run_all lines (run line w).1
