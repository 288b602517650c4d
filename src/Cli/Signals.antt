-- ===== src/Cli/Signals.antt =====
-- Which processes destruction signals.
use iold.Base.{Bool, Text}
use iold.Action.Keeps.{Keeps}
use iold.Host.{Host}
use iold.World.{Line, say}
use iold.State.Record.{Deployment, Statement}
use iold.State.Database.{Database}
use iold.State.Store.{State, execute, select, select_all}
use iold.State.Store.Effect.{IsKept}
use iold.Supervisor.Process.{Process}
use iold.Supervisor.Stop.Guard.{Guarded, Calm, Calm-quiet, Calm-stop}
use iold.Cli.Paths.{Dirs}
use iold.Cli.Recover.{deployment_process}
use iold.Cli.Destroy.{destroy_one}
use iold.Cli.Destroy.Keeps.{destroy_one-Keeps}

module _ (d : Database) (h : Host) (p : Process) where
  Calm-say : (l : Line) → Keeps (Calm h p) (say {D = d.Db} l)
  unfolding say
  Calm-say l = record { at = λ w c. record { guarded = c.guarded } }

  Calm-select : (id : Text) → Keeps (Calm h p) (select d h id)
  unfolding select
  Calm-select id = record { at = λ w c. record { guarded = c.guarded } }

  Calm-select_all : Keeps (Calm h p) (select_all d h)
  unfolding select_all
  Calm-select_all = record { at = λ w c. record { guarded = c.guarded } }

  Calm-execute : (q : Statement) → Keeps (Calm h p) (execute d h q)
  unfolding execute
  Calm-execute q = record { at = λ w c. record { guarded = c.guarded } }

  Calm-IsKept : (id : Text) → IsKept d h (Calm h p) id
  Calm-IsKept id = record {
    quiet = Calm-quiet h p;
    says = Calm-say;
    selects = Calm-select;
    lists = Calm-select_all;
    executes = λ q law u e. Calm-execute q;
  }

-- Destroying a deployment sends signals only to the process group that its record names, and each
-- only after a complete record was found to agree with the start token, the start time and the command
-- line of the group's leader; this holds wherever the destruction fails.
pub destroy_one-Guarded :
    (d : Database) (h : Host) (dirs : Dirs) (r : Deployment) (purge : Bool) (w : State d h)
    → Guarded (deployment_process r) w.trace
    → Guarded (deployment_process r) (destroy_one d h dirs r purge w).1.trace
destroy_one-Guarded d h dirs r purge w g =
    ((destroy_one-Keeps d h _ r (Calm-IsKept d h _ r.id) (Calm-stop h _ _) dirs purge).at w
      (record { guarded = g })).guarded
