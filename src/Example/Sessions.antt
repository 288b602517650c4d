-- ===== src/Example/Sessions.antt =====
-- A deployment from the catalog on the live host, and the theorems on it.
use iold.Base.{ℕ, ◌≤◌, ◌≡◌, refl, none, some, [], ◌∷◌, List, Text, codes, false, true}
use iold.Fault.{ok, err, wrapped, system_failed}
use iold.Hub.{Client}
use iold.Doctor.System.{system_probes}
use iold.State.Store.{State}
use iold.Cli.Args.{DeployArgs, deploy_args}
use iold.Cli.Paths.{Dirs}
use iold.Cli.Deploy.Spec.{Deps}
use iold.Cli.Deploy.Run.{run_deploy, prepare, deploy_model}
use iold.Cli.Deploy.Run.Outcome.{run_deploy-outcome, IsDeployed}
use iold.Cli.Deploy.Run.Alone.{deploy_model-unprepared, deploy_model-Alone}
use iold.Cli.Recover.{recover_interrupted_deployments}
use iold.Cli.Commands.Requested as Destroying
use iold.Cli.Deploy.Run.Requested as Deploying
use iold.Cli.Main.{run_all}
use iold.Example.Machine.{machine}
use iold.Cli.Main.Facts.{run_all-Life}
use iold.Action.{pure, ◌>>=◌}
use iold.World.{ask}
use iold.Action.Ensures.{Post}
use iold.State.Machine.{requested, failed}
use iold.State.Record.{Deployment, no_reason}
use iold.State.Store.{create, get}
use iold.State.Store.Creation.{create-get}
use iold.State.Store.Effect.{Alone}
use iold.State.Store.Life.{Life, Sound}
use iold.State.Open.{open_store}
use iold.State.Open.Facts.{open_store-Migrated, SameRows, Migrated, BuiltFrom}
use iold.Example.Table.{table}
use iold.Example.Live.{live}

abbrev alias : Text
alias = codes "qwen3.6-35b-a3b"

abbrev empty : State (table alias) (live alias)
empty = record { db = none; os = 5000000000; trace = []; output = [] }

abbrev quiet : State (table alias) machine
quiet = record { db = none; os = 5000000000; trace = []; output = [] }

abbrev example_dirs : Dirs
example_dirs = record { state_dir = codes "state" ∷ []; model_cache_dir = codes "cache" ∷ [] }

abbrev example_deps : Deps
example_deps = record {
  vllm_command = λ s. (codes "vllm", codes "serve" ∷ []);
  base_url = λ p. codes "http://127.0.0.1";
  health_timeout = 5;
  ready_timeout = 5;
  poll_interval = 1;
  stop_grace = 5;
}

abbrev example_client : Client
example_client = record { base_url = codes "https://huggingface.co"; token = [] }

deployed :
    (run_deploy
      (table alias)
      (live alias)
      example_dirs
      example_deps
      (system_probes (live alias))
      example_client
      (alias ∷ [])
      empty).0
    ≡ ok tt
unfolding iold.Base.text_eq iold.Base.contains_text iold.Base.fields iold.Base.join_words
    iold.Base.trim_space iold.Base.trim_right iold.Base.replace_byte iold.Base.split
    iold.Base.after_last iold.Base.parse_nat iold.Base.to_lower iold.Base.before_byte iold.Base.atoi
    iold.Action.pure iold.Action.raise iold.Action.catch iold.Action.attempt iold.Action.◌>>=◌
    iold.World.ask iold.World.note iold.World.say iold.Files.open_secured iold.OperationLock.acquire
    iold.OperationLock.holding iold.Catalog.get_entry iold.Hub.get_json iold.Hub.Requests.get_model
    iold.Doctor.driver_major iold.Doctor.System.nearest iold.Doctor.System.bytes_of
    iold.Doctor.System.system_probes iold.Preflight.gpu_failures iold.Preflight.disk_failures
    iold.Preflight.run iold.Supervisor.Ports.reserves iold.Supervisor.Ports.allocate_port
    iold.State.Machine.check_transition iold.State.Store.execute iold.State.Store.select
    iold.State.Store.select_all iold.State.Store.create iold.State.Store.get iold.State.Store.list
    iold.State.Store.transition iold.State.Store.set_runtime_intent iold.State.Store.record_runtime
    iold.State.Open.migrate iold.State.Open.open_store iold.Supervisor.Identity.start_ticks
    iold.Supervisor.Identity.boot_time iold.Supervisor.Identity.clock_ticks
    iold.Supervisor.Identity.start_time iold.Supervisor.Identity.token_of
    iold.Supervisor.Identity.plain_cmdline iold.Supervisor.Identity.process_start_info
    iold.Supervisor.Identity.cmdline iold.Supervisor.Process.normalize
    iold.Supervisor.Process.same_start_time iold.Supervisor.Process.alive
    iold.Supervisor.Process.verify_owned iold.Supervisor.Process.reconcile
    iold.Supervisor.Start.capture iold.Supervisor.Start.must iold.Supervisor.Start.start
    iold.Cli.Names.is_valid_id iold.Cli.Paths.safe_child_path iold.Cli.Paths.render
    iold.Cli.Paths.clean_path iold.Cli.Paths.base_is iold.Cli.Paths.log_path
    iold.Cli.Paths.owned_paths iold.Cli.Paths.deployment_model_cache_dir iold.Cli.Args.deploy_args
    iold.Cli.Session.locked iold.Cli.Recover.recover_interrupted_deployments iold.Cli.Deploy.or_fail
    iold.Cli.Deploy.validate iold.Cli.Deploy.launch iold.Cli.Deploy.verify iold.Cli.Deploy.register
    iold.Cli.Deploy.execute_deploy iold.Cli.Deploy.Cache.lift iold.Cli.Deploy.Cache.write_api_key
    iold.Cli.Deploy.Cache.prepare_model_cache iold.Cli.Deploy.Ready.health_round
    iold.Cli.Deploy.Ready.poll_health iold.Cli.Deploy.Ready.readiness_probe
    iold.Cli.Deploy.Ready.after_probe iold.Cli.Deploy.Ready.poll_ready
    iold.Cli.Deploy.Ready.wait_healthy iold.Cli.Deploy.Ready.check_readiness
    iold.Cli.Deploy.Resolve.validate_revision iold.Cli.Deploy.Resolve.min_compute_for_quantization
    iold.Cli.Deploy.Resolve.resolve_spec iold.Cli.Deploy.Run.find_active
    iold.Cli.Deploy.Run.run_deploy mathlib.Core.List.flat_map
deployed = refl

run_deploy-outcome_example :
    (a : DeployArgs) × (deploy_args false [] (alias ∷ []) ≡ some a)
    × IsDeployed
        (table alias)
        (live alias)
        example_dirs
        example_deps
        (system_probes (live alias))
        example_client
        a
        (run_deploy
          (table alias)
          (live alias)
          example_dirs
          example_deps
          (system_probes (live alias))
          example_client
          (alias ∷ [])
          empty).1
run_deploy-outcome_example =
    run_deploy-outcome (table alias) (live alias) example_dirs example_deps
      (system_probes (live alias)) example_client (alias ∷ []) empty deployed

abbrev plain : DeployArgs
plain = record { replace = false; ref = alias }

abbrev elsewhere : DeployArgs
elsewhere = record { replace = true; ref = codes "org/m" }

deploy_model-unprepared_example :
    ((deploy_model
        (table alias)
        machine
        example_dirs
        example_deps
        (system_probes machine)
        example_client
        elsewhere
        quiet).0
      ≡ err (wrapped (codes "resolve") system_failed))
    × ((j : Text)
        → (table alias).view
            (deploy_model
              (table alias)
              machine
              example_dirs
              example_deps
              (system_probes machine)
              example_client
              elsewhere
              quiet).1.db
            j
          ≡ (table alias).view (recover_interrupted_deployments (table alias) machine quiet).1.db j)
unfolding recover_interrupted_deployments prepare ◌>>=◌ iold.State.Store.list
    iold.State.Store.select_all pure iold.Cli.Deploy.Cache.lift iold.Cli.Deploy.Run.find_active
    iold.Cli.Deploy.Resolve.resolve_spec iold.Catalog.get_entry iold.Base.text_eq
    iold.Base.contains_text iold.Cli.Deploy.Resolve.primary_vram_mib ask system_probes
    iold.Base.split iold.Base.trim_space iold.Base.atoi iold.Base.before_byte
    iold.Hub.Requests.get_model iold.Hub.get_json iold.Action.raise iold.Base.split_from
    iold.Base.trim_right iold.Base.drop_while iold.Doctor.System.parse_nvidia_smi
    iold.Doctor.System.parse_lines iold.Doctor.System.gpu_of iold.Doctor.System.gpus_of
deploy_model-unprepared_example =
    deploy_model-unprepared (table alias) machine example_dirs example_deps (system_probes machine)
      example_client elsewhere quiet (wrapped (codes "resolve") system_failed) refl refl

deploy_model-Alone_example :
    (id : Text) × Alone
      (table alias)
      (live alias)
      id
      (recover_interrupted_deployments (table alias) (live alias) empty).1
      (deploy_model
        (table alias)
        (live alias)
        example_dirs
        example_deps
        (system_probes (live alias))
        example_client
        plain
        empty).1
deploy_model-Alone_example =
    deploy_model-Alone (table alias) (live alias) example_dirs example_deps
      (system_probes (live alias)) example_client plain empty refl

abbrev lines : List (List Text)
lines =
    (codes "deploy" ∷ alias ∷ [])
    ∷ (codes "status" ∷ [])
    ∷ (codes "destroy" ∷ codes "--all" ∷ [])
    ∷ []

run_all-Life_example :
    Life ((table alias).view none alias) (
      (table alias).view
        (run_all
          (table alias)
          (live alias)
          example_dirs
          example_deps
          example_client
          (λ f l. l)
          lines
          empty).db
        alias)
    × (Sound ((table alias).view none alias)
        → Sound (
            (table alias).view
              (run_all
                (table alias)
                (live alias)
                example_dirs
                example_deps
                example_client
                (λ f l. l)
                lines
                empty).db
              alias))
run_all-Life_example =
    run_all-Life (table alias) (live alias) example_dirs example_deps example_client (λ f l. l)
      lines empty alias

open_store-Migrated_example :
    SameRows
      (table alias)
      (live alias)
      empty
      (open_store (table alias) (live alias) (codes "state") (codes "state/iold.db") empty).1
    × Post
        (λ _ w. Migrated (table alias) (live alias) 5 w.db)
        (λ w. BuiltFrom (table alias) (live alias) 5 w.db)
        (open_store (table alias) (live alias) (codes "state") (codes "state/iold.db") empty).0
        (open_store (table alias) (live alias) (codes "state") (codes "state/iold.db") empty).1
open_store-Migrated_example =
    open_store-Migrated (table alias) (live alias) (codes "state") (codes "state/iold.db") empty 5
      (record { counted = refl; columns = refl })

abbrev new : Deployment
new = record {
  id = alias;
  alias = alias;
  artifact = codes "org/m";
  artifact_revision = codes "abc";
  model_cache_dir = codes "/cache/m";
  port = 0;
  pid = 0;
  command = [];
  started_at = 0;
  start_token = [];
  phase = requested;
  failure_reason = no_reason;
  idempotency_key = codes "k";
  created_at = 5000000000;
  updated_at = 5000000000;
}

abbrev given : Deployment
given = record new { phase = failed; created_at = 1; updated_at = 2 }

create-get_example : new ≡ new
unfolding create get ◌>>=◌ ask pure iold.State.Store.execute iold.Base.text_eq
    iold.State.Store.select
create-get_example = create-get (table alias) (live alias) given new new empty refl refl
