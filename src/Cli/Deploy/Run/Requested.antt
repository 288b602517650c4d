-- ===== src/Cli/Deploy/Run/Requested.antt =====
-- What `deploy` does of what its arguments ask for.
use iold.Base.{◌≡◌, ◌⊎◌, true, false, List, Memᴰ, Text, codes, has_prefix, is_empty, contains_text}
use iold.Fault.{usage, unknown_model, Fault, err}
use iold.Action.{Action, raise}
use iold.Host.{Host}
use iold.Hub.{Client}
use iold.Catalog.{get_entry}
use iold.Doctor.System.{Probes}
use iold.State.Database.{Database}
use iold.State.Store.{State}
use iold.Cli.Args.{DeployArgs}
use iold.Cli.Paths.{Dirs}
use iold.Cli.Session.{locked}
use iold.Cli.Deploy.Spec.{Deps}
use iold.Cli.Deploy.Run.{deploy_model, run_deploy}

-- The arguments ask for the model, and to replace what there is if it says so.
pub record AsksFor (args : List Text) (a : DeployArgs) : Type 0 where
  pub replace_given : a.replace ≡ true → Memᴰ (codes "--replace") args
  pub model_given : Memᴰ a.ref args
  pub filled : is_empty a.ref ≡ false
  pub no_flag : has_prefix a.ref (codes "-") ≡ false

module _ (d : Database) (h : Host) (dirs : Dirs) (deps : Deps) (p : Probes h.Os) (c : Client) where
  -- The command behind the lock, where the reference is in the catalog or has a slash.
  abbrev pub Carried : DeployArgs → Action (State d h) Unit → Type 0
  Carried a m =
      ((f : Fault) × (get_entry a.ref ≡ err f)
        × (contains_text a.ref (codes "/") ≡ false)
        × (m ≡ raise (unknown_model a.ref)))
      ⊎ (m ≡ locked d h dirs (deploy_model d h dirs deps p c a))

  abbrev pub Requested : List Text → Type 0
  Requested args =
      (run_deploy d h dirs deps p c args ≡ raise usage)
      ⊎ ((a : DeployArgs) × AsksFor args a × Carried a (run_deploy d h dirs deps p c args))
