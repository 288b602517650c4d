-- ===== src/Cli/Deploy.antt =====
-- `executeDeploy` of internal/cli/deploy.go and what it calls.
pub mod Spec
pub mod Resolve
pub mod Run
pub mod Cache
pub mod Ready
pub mod Keeps
pub mod Outcome
use iold.Base.{
  ℕ, ◌&&◌, ◌||◌, ◌==◌, not, Bool, true, false, List, [], ◌∷◌, ◌++◌, Text, codes, Option, none, some,
  if◌then◌else◌,
}
use iold.Fault.{Fault, Result, ok, err, wrapped}
use iold.Action.{Action, pure, raise, catch, ◌>>=◌, ◌>>◌}
use iold.Host.{Host, Launch}
use iold.World.{World, stop_warning, record_warning, runtime_started, summary, ask, say}
use iold.State.Machine.{
  Phase, requested, validating, downloading, starting, healthy, registering, unregistered_healthy,
  failed,
}
use iold.State.Record.{Deployment, Reason, no_reason, reason, cause}
use iold.State.Database.{Database}
use iold.State.Store.{State, transition, set_runtime_intent, record_runtime}
use iold.Supervisor.Process.{Process}
use iold.Supervisor.Stop.{stop}
use iold.Supervisor.Start.{start, command_string}
use iold.Cli.Paths.{Dirs, render, log_path}
use Spec.{DeploySpec, Deps}
use Cache.{lift, write_api_key, prepare_model_cache}
use Ready.{wait_healthy, check_readiness}

abbrev environment : DeploySpec → List (Text × Text)
environment spec =
    (codes "VLLM_API_KEY", spec.api_key)
    ∷ (codes "HF_HOME", spec.cache_dir)
    ∷ (codes "HUGGINGFACE_HUB_CACHE", spec.cache_dir ++ codes "/hub")
    ∷ []

module _ (d : Database) (h : Host) (dirs : Dirs) (deps : Deps) (r : Deployment) where
  -- What `fail` does about the process that this run started.
  stop_started : Option Process → Action (State d h) Unit
  stop_started none = pure tt
  stop_started (some p) = catch (stop h p deps.stop_grace) (λ f. say (stop_warning p.pid f))

  -- `fail(from, cause)`; `proc` is the process started so far.
  unfoldable pub fail : Option Process → Phase → Fault → {A : Type 0} → Action (State d h) A
  unfolding stop_started
  fail proc from f = do
    stop_started proc
    catch (transition d h r.id from failed (cause f)) (λ g. say (record_warning g))
    raise (wrapped (codes "deploy") f)

  -- `if err := m; err != nil { return fail(from, err) }`
  unfoldable pub or_fail :
      {A : Type 0} → Option Process → Phase → Action (State d h) A → Action (State d h) A
  unfolding fail
  or_fail proc from m = catch m (λ f. fail proc from f)

  -- VALIDATING: the key and the cache of the deployment.
  unfoldable pub validate : DeploySpec → Action (State d h) Unit
  validate spec = do
    or_fail none validating (write_api_key h dirs r.id spec.api_key)
    or_fail none validating (prepare_model_cache h spec.cache_dir r.id r.idempotency_key)

  -- DOWNLOADING and STARTING share one launch.
  unfoldable pub launch : DeploySpec → Action (State d h) Process
  launch spec = do
    log_file ← or_fail none downloading (lift h (log_path dirs r.id))
    let command = deps.vllm_command spec
    or_fail none downloading
        (set_runtime_intent d h r.id spec.port (command_string command.0 command.1))
    or_fail none downloading (transition d h r.id downloading starting no_reason)
    p ← or_fail none starting (
        start h (record {
          command = command.0;
          args = command.1;
          env = environment spec;
          log_path = render log_file;
        }))
    or_fail (some p) starting
        (record_runtime d h r.id p.pid spec.port p.command p.started_at p.start_token)
    say (runtime_started r.id p.pid spec.port)
    pure p

  -- HEALTHY, then the readiness checks.
  unfoldable pub verify : DeploySpec → Process → Action (State d h) Unit
  verify spec p = do
    or_fail (some p) starting (wait_healthy h deps (deps.base_url spec.port) p)
    or_fail (some p) starting (transition d h r.id starting healthy no_reason)
    or_fail (some p) healthy (check_readiness h deps (deps.base_url spec.port) spec)

  -- Registration is not implemented: the split state is recorded.
  unfoldable pub register : Process → Action (State d h) Unit
  register p = do
    or_fail (some p) healthy (transition d h r.id healthy registering no_reason)
    or_fail (some p) registering (
        transition d h r.id registering unregistered_healthy
          (reason (codes "gateway registration not implemented yet (M4)")))

  abbrev with_key : DeploySpec → Text → DeploySpec
  with_key spec key = record spec { api_key = codes "iold-" ++ key }

  unfoldable pub execute_deploy : DeploySpec → Action (State d h) Unit
  execute_deploy given = do
    transition d h r.id requested validating no_reason
    key ← ask (h.random_hex 32)
    let spec = with_key given key
    validate spec
    transition d h r.id validating downloading no_reason
    p ← launch spec
    verify spec p
    register p
    say (summary r.id spec.api_key spec.port)
