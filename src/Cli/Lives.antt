-- ===== src/Cli/Lives.antt =====
-- The commands of internal/cli against the abstract life of a row, and against the other rows.
use iold.Base.{◌≡◌, ◌≢◌, Bool, Text}
use iold.Host.{Host}
use iold.State.Record.{Deployment}
use iold.State.Database.{Database}
use iold.State.Store.{State}
use iold.State.Store.Life.{Life, Life-Sound, Sound}
use iold.State.Store.Effect.{
  Lives, Lives-refl, Lives-IsKept, Lives-IsIndifferent, Alone, Alone-refl, Alone-IsKept,
  Alone-IsIndifferent,
}
use iold.Supervisor.Stop.Facts.{stop-Keeps}
use iold.Cli.Paths.{Dirs}
use iold.Cli.Recover.{recover_interrupted_deployments}
use iold.Cli.Recover.Keeps.{recover_interrupted_deployments-Keeps}
use iold.Cli.Destroy.{destroy_one, destroy_targets}
use iold.Cli.Destroy.Keeps.{destroy_one-Keeps, destroy_targets-Keeps}
use iold.Cli.Deploy.{execute_deploy}
use iold.Cli.Deploy.Spec.{DeploySpec, Deps}
use iold.Cli.Deploy.Keeps.{execute_deploy-Keeps}

-- Whatever the database and the system answer, recovery takes every row of the store along a life: a
-- sequence of insertions as REQUESTED, moves along edges of the phase diagram, launches planned in
-- DOWNLOADING, processes attached once in STARTING, and deletions in DESTROYED.
pub recover_interrupted_deployments-Life :
    (d : Database) (h : Host) (w : State d h) (j : Text)
    → Life (d.view w.db j) (d.view (recover_interrupted_deployments d h w).1.db j)
recover_interrupted_deployments-Life d h w j =
    ((recover_interrupted_deployments-Keeps d h (Lives d h w) (λ id. Lives-IsKept d h w id)).at w
        (Lives-refl d h w)).life
      j

-- The same for `destroy`, with recovery before it, for one deployment or for all, whether it purges
-- the records or not and wherever it fails.
pub destroy_targets-Life :
    (d : Database) (h : Host) (dirs : Dirs) (all purge : Bool) (id : Text) (w : State d h)
    (j : Text)
    → Life (d.view w.db j) (d.view (destroy_targets d h dirs all purge id w).1.db j)
destroy_targets-Life d h dirs all purge id w j =
    ((destroy_targets-Keeps d h (Lives d h w) (λ k. Lives-IsKept d h w k)
          (Lives-IsIndifferent d h w) dirs all purge id).at
        w (Lives-refl d h w)).life
      j

-- The same for a deployment, from validation to the readiness checks, wherever it fails.
pub execute_deploy-Life :
    (d : Database) (h : Host) (dirs : Dirs) (deps : Deps) (r : Deployment) (spec : DeploySpec)
    (w : State d h) (j : Text)
    → Life (d.view w.db j) (d.view (execute_deploy d h dirs deps r spec w).1.db j)
execute_deploy-Life d h dirs deps r spec w j =
    ((execute_deploy-Keeps d h dirs deps r (Lives d h w) (Lives-IsKept d h w r.id)
          (Lives-IsIndifferent d h w) spec).at
        w (Lives-refl d h w)).life
      j

-- A deployment changes no row but its own, wherever it fails.
pub execute_deploy-others :
    (d : Database) (h : Host) (dirs : Dirs) (deps : Deps) (r : Deployment) (spec : DeploySpec)
    (w : State d h) (j : Text)
    → j ≢ r.id
    → d.view (execute_deploy d h dirs deps r spec w).1.db j ≡ d.view w.db j
execute_deploy-others d h dirs deps r spec w j n =
    ((execute_deploy-Keeps d h dirs deps r (Alone d h r.id w) (Alone-IsKept d h w r.id)
          (Alone-IsIndifferent d h w r.id) spec).at
        w (Alone-refl d h r.id w)).others
      j n

-- Destroying one deployment changes no row but its own, wherever it fails.
pub destroy_one-others :
    (d : Database) (h : Host) (dirs : Dirs) (r : Deployment) (purge : Bool) (w : State d h)
    (j : Text)
    → j ≢ r.id
    → d.view (destroy_one d h dirs r purge w).1.db j ≡ d.view w.db j
destroy_one-others d h dirs r purge w j n =
    ((destroy_one-Keeps d h (Alone d h r.id w) r (Alone-IsKept d h w r.id)
          (stop-Keeps h _ (Alone-IsIndifferent d h w r.id) _ _) dirs purge).at
        w (Alone-refl d h r.id w)).others
      j n

-- A deployment keeps every row sound: no process before STARTING, and a reason only in FAILED and
-- CRASHED.
pub execute_deploy-Sound :
    (d : Database) (h : Host) (dirs : Dirs) (deps : Deps) (r : Deployment) (spec : DeploySpec)
    (w : State d h) (j : Text)
    → Sound (d.view w.db j)
    → Sound (d.view (execute_deploy d h dirs deps r spec w).1.db j)
execute_deploy-Sound d h dirs deps r spec w j s =
    Life-Sound (execute_deploy-Life d h dirs deps r spec w j) s
