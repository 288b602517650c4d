-- ===== src/Cli/Commands/Requested.antt =====
-- What `destroy` does of what its arguments ask for.
use iold.Base.{◌≡◌, ◌⊎◌, true, false, List, [], Memᴰ, Text, codes, has_prefix}
use iold.Fault.{usage}
use iold.Action.{raise}
use iold.Host.{Host}
use iold.State.Database.{Database}
use iold.Cli.Args.{DestroyArgs}
use iold.Cli.Paths.{Dirs}
use iold.Cli.Session.{locked}
use iold.Cli.Destroy.{destroy_targets}
use iold.Cli.Commands.{run_destroy}

-- The arguments ask for the deployments: all of them, or the one that is named.
pub record AsksFor (args : List Text) (a : DestroyArgs) : Type 0 where
  pub all_given : a.all ≡ true → Memᴰ (codes "--all") args × (a.id ≡ [])
  pub one_named : a.all ≡ false → Memᴰ a.id args × (has_prefix a.id (codes "-") ≡ false)
  pub purge_given : a.purge ≡ true → Memᴰ (codes "--purge") args

module _ (d : Database) (h : Host) (dirs : Dirs) where
  -- The usage error, or the command behind the lock with what was asked for.
  abbrev pub Requested : List Text → Type 0
  Requested args =
      (run_destroy d h dirs args ≡ raise usage)
      ⊎ ((a : DestroyArgs) × AsksFor args a
          × (run_destroy d h dirs args
              ≡ locked d h dirs (destroy_targets d h dirs a.all a.purge a.id)))
