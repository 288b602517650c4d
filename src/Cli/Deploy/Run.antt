-- ===== src/Cli/Deploy/Run.antt =====
-- `runDeploy` of internal/cli/deploy.go.
pub mod Facts
pub mod Requested
pub mod Keeps
pub mod Outcome
pub mod Alone
use iold.Base.{
  ℕ, not, Bool, true, false, List, [], ◌∷◌, Text, codes, contains_text, Option, none, some, map,
  if◌then◌else◌,
}
use iold.Fault.{Fault, Result, ok, err, usage, wrapped, would_replace, unknown_model}
use iold.Action.{Action, pure, raise, catch, attempt, ◌>>=◌, ◌>>◌}
use iold.Host.{Host}
use iold.World.{replacing, ask, say}
use iold.Hub.{Client}
use iold.Catalog.{Entry, get_entry}
use iold.Doctor.System.{Probes}
use iold.Preflight.{Spec}
use iold.Preflight as Preflight
use iold.State.Machine.{Phase, requested, destroyed, phase_eq}
use iold.State.Record.{Deployment, no_reason}
use iold.State.Database.{Database}
use iold.State.Store.{State, create, get, list, delete_record}
use iold.Cli.Args.{DeployArgs, deploy_args}
use iold.Cli.Paths.{Dirs}
use iold.Cli.Session.{locked}
use iold.Cli.Recover.{recover_interrupted_deployments}
use iold.Cli.Destroy.{destroy_one}
use iold.Cli.Deploy.{execute_deploy}
use iold.Cli.Deploy.Spec.{DeploySpec, Deps}
use iold.Cli.Deploy.Cache.{lift}
use iold.Cli.Deploy.Resolve.{resolve_spec}

also_active : Deployment → Result (List Deployment) → Result (List Deployment)
also_active r (ok rs) = ok (r ∷ rs)
also_active r (err f) = err f

-- The deployments to replace, or the error that there is one.
unfoldable pub find_active : (replace : Bool) → List Deployment → Result (List Deployment)
unfolding also_active
find_active replace [] = ok []
find_active replace (old ∷ more) =
    let rest = find_active replace more in
    if phase_eq old.phase destroyed
    then rest
    else if not replace
    then err (would_replace old.id old.phase)
    else also_active old rest

unfoldable pub preflight_spec : Deps → Client → DeploySpec → List Deployment → Spec
preflight_spec deps c spec active = record {
  runtime_binary = (deps.vllm_command spec).0;
  cache_dir = spec.cache_dir;
  endpoint = c.base_url;
  min_driver_major = spec.min_driver_major;
  min_compute_major = spec.min_compute_major;
  min_vram_mib = spec.min_vram_mib;
  min_disk_gib = spec.min_disk_gib;
  preferred_port = spec.port;
  reserved_ports = [];
  releasable_ports = map (λ (r : Deployment). r.port) active;
}

abbrev pub on_port : DeploySpec → ℕ → DeploySpec
on_port spec port = record spec { port = port }

-- The row that `Create` is given; it fills in the phase and the times.
abbrev pub new_row : DeploySpec → Text → Deployment
new_row spec key = record {
  id = spec.id;
  alias = spec.alias;
  artifact = spec.artifact;
  artifact_revision = spec.revision;
  model_cache_dir = spec.cache_dir;
  port = spec.port;
  pid = 0;
  command = [];
  started_at = 0;
  start_token = [];
  phase = requested;
  failure_reason = no_reason;
  idempotency_key = key;
  created_at = 0;
  updated_at = 0;
}

module _ (d : Database) (h : Host) (dirs : Dirs) (deps : Deps) (p : Probes h.Os) (c : Client) where
  unfoldable pub replace_each : List Deployment → Action (State d h) Unit
  replace_each [] = pure tt
  replace_each (old ∷ more) = do
    say (replacing old.id)
    catch (destroy_one d h dirs old true) (λ f. raise (wrapped (codes "replace") f))
    replace_each more

  by_tombstone : Text → Result Deployment → Action (State d h) Unit
  by_tombstone id (err f) = pure tt
  by_tombstone id (ok old) = if phase_eq old.phase destroyed then delete_record d h id else pure tt

  -- A tombstone that would collide with the new identifier is dropped.
  unfoldable pub clear_tombstone : Text → Action (State d h) Unit
  unfolding by_tombstone
  clear_tombstone id = do found ← attempt (get d h id); by_tombstone id found

  -- What is known before anything is changed: the rows to replace and a specification that passed.
  unfoldable pub prepare : DeployArgs → Action (State d h) (List Deployment × DeploySpec)
  unfolding preflight_spec
  prepare args = do
    existing ← list d h
    active ← lift h (find_active args.replace existing)
    spec ← resolve_spec h p c dirs args.ref
    port ← Preflight.run h p (preflight_spec deps c spec active)
    pure (active, on_port spec port)

  unfoldable pub carry_out : List Deployment × DeploySpec → Action (State d h) Unit
  unfolding replace_each clear_tombstone
  carry_out (active, spec) = do
    replace_each active
    clear_tombstone spec.id
    key ← ask (h.random_hex 16)
    row ← create d h (new_row spec key)
    execute_deploy d h dirs deps row spec

  -- The command behind the lifecycle lock.
  unfoldable pub deploy_model : DeployArgs → Action (State d h) Unit
  unfolding prepare carry_out
  deploy_model args = do
    recover_interrupted_deployments d h
    prepared ← prepare args
    carry_out prepared

  -- A reference that is neither in the catalog nor has a slash is refused before the lock is taken.
  check_ref : Text → Result Entry → Result (Unit {0})
  check_ref ref (ok entry) = ok tt
  check_ref ref (err f) = if contains_text ref (codes "/") then ok tt else err (unknown_model ref)

  by_args : Option DeployArgs → Action (State d h) Unit
  unfolding deploy_model check_ref
  by_args none = raise usage
  by_args (some args) = do
    lift h (check_ref args.ref (get_entry args.ref))
    locked d h dirs (deploy_model args)

  unfoldable pub run_deploy : List Text → Action (State d h) Unit
  unfolding by_args
  run_deploy args = by_args (deploy_args false [] args)
