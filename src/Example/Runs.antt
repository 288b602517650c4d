-- ===== src/Example/Runs.antt =====
-- The theorems at one deployment `m-1`, on the example database and host.
use iold.Base.{
  ℕ, ◌≡◌, refl, Bool, true, false, none, some, [], ◌∷◌, Text, codes, ◌⊎◌, ◌↔◌, ◌≤◌, arith, ◌≢◌,
  text_eq_iff, false≢true, ◌<◌,
}
use iold.Action.{pure, raise, ◌>>=◌}
use iold.World.{ask, note, say}
use iold.State.Machine.{Phase, requested, starting, failed, check_transition}
use iold.State.Record.{Deployment, no_reason, reason}
use iold.State.Store.{State, transition, list, execute, select_all, delete_record}
use iold.Fault.{ok}
use iold.Cli.Paths.{Dirs, safe_child_path, render, clean_path, base_is, owned_paths}
use iold.Cli.Data.{remove_owned_data, remove_each, model_cache_owned_by, safe_cache}
use iold.Cli.Recover.{
  deployment_process, adopt_intent, settle, recover_one, recover_each,
  recover_interrupted_deployments,
}
use iold.Cli.Destroy.{destroy_one}
use iold.Cli.Destroy.Outcome.{destroy_one-outcome, Destroyed}
use iold.Cli.Recover.Outcome.{recover_interrupted_deployments-settles}
use iold.Cli.Recover.Past.{is_past}
use iold.Cli.Deploy.{execute_deploy}
use iold.Cli.Deploy.Spec.{DeploySpec, Deps}
use iold.Cli.Lives.{execute_deploy-others, destroy_one-others}
use iold.Cli.Signals.{destroy_one-Guarded}
use iold.State.Machine.{healthy, ready}
use iold.State.Store.After.{At}
use iold.State.Store.Moves.{Unchanged, transition_ok, transition_err, Transitioned}
use iold.Supervisor.Process.{Process}
use iold.Supervisor.Stop.{stop, wait_empty, rounds, emptied, timed_out}
use iold.Supervisor.Stop.Guard.{Guarded, stop-Guarded}
use iold.Supervisor.Stop.Ends.{wait_empty-rounds}
use iold.Cli.Deploy.Ready
use iold.Cli.Deploy.Ready.{poll_health, poll_ready, starved}
use iold.Cli.Deploy.Ready.Ends.{poll_health-rounds, poll_ready-rounds}
use iold.Cli.Paths.{log_file_name}
use iold.Cli.Paths.Inside.{owned_paths_lem}
use iold.Cli.Names.{is_valid_id}
use iold.Base.{if◌then◌else◌, ◌++◌}
use iold.Fault.{err, invalid_id}
use iold.Cli.Names.{deployment_id}
use iold.Example.Table.{table}
use iold.Example.Machine.{machine}

abbrev id_of_example : Text
id_of_example = codes "m-1"

abbrev deployment_in : Phase → Deployment
deployment_in p = record {
  id = id_of_example;
  alias = codes "m";
  artifact = codes "org/m";
  artifact_revision = codes "abc";
  model_cache_dir = codes "/cache/m-1";
  port = 8000;
  pid = 0;
  command = [];
  started_at = 0;
  start_token = [];
  phase = p;
  failure_reason = no_reason;
  idempotency_key = codes "k";
  created_at = 0;
  updated_at = 0;
}

abbrev world_in : Phase → State (table id_of_example) machine
world_in p = record { db = some (deployment_in p); os = 5000000000; trace = []; output = [] }

abbrev example_dirs : Dirs
example_dirs = record { state_dir = codes "state" ∷ []; model_cache_dir = codes "cache" ∷ [] }

recovery_runs :
    (recover_interrupted_deployments (table id_of_example) machine (world_in starting)).0 ≡ ok tt
unfolding recover_interrupted_deployments list select_all ◌>>=◌ recover_each recover_one
    adopt_intent settle transition check_transition execute pure ask iold.Base.text_eq
recovery_runs = refl

destruction_runs :
    (destroy_one
      (table id_of_example)
      machine
      example_dirs
      (deployment_in failed)
      true
      (world_in failed)).0
    ≡ ok tt
unfolding destroy_one ◌>>=◌ transition check_transition execute pure ask note say remove_owned_data
    remove_each model_cache_owned_by safe_cache owned_paths render clean_path base_is delete_record
    safe_child_path iold.Base.text_eq iold.Cli.Names.is_valid_id iold.Base.contains_text
    mathlib.Core.List.flat_map iold.Base.split
destruction_runs = refl

abbrev example_spec : DeploySpec
example_spec = record {
  id = id_of_example;
  alias = codes "m";
  artifact = codes "org/m";
  revision = codes "abc";
  port = 8000;
  max_model_len = 4096;
  api_key = [];
  cache_dir = codes "/cache/m-1";
  quantization = [];
  min_driver_major = 0;
  min_compute_major = 0;
  min_vram_mib = 0;
  min_disk_gib = 0;
}

abbrev example_deps : Deps
example_deps = record {
  vllm_command = λ s. (codes "vllm", codes "serve" ∷ []);
  base_url = λ p. codes "http://127.0.0.1";
  health_timeout = 5;
  ready_timeout = 5;
  poll_interval = 1;
  stop_grace = 5;
}

other_id : codes "m-2" ≢ id_of_example
unfolding iold.Base.text_eq
other_id e = false≢true ((text_eq_iff (codes "m-2") id_of_example).1 e)

execute_deploy-others_example :
    (table id_of_example).view
      (execute_deploy
        (table id_of_example)
        machine
        example_dirs
        example_deps
        (deployment_in requested)
        example_spec
        (world_in requested)).1.db
      (codes "m-2")
    ≡ (table id_of_example).view (some (deployment_in requested)) (codes "m-2")
execute_deploy-others_example =
    execute_deploy-others (table id_of_example) machine example_dirs example_deps
      (deployment_in requested) example_spec (world_in requested) (codes "m-2") other_id

destroy_one-others_example :
    (table id_of_example).view
      (destroy_one
        (table id_of_example)
        machine
        example_dirs
        (deployment_in failed)
        true
        (world_in failed)).1.db
      (codes "m-2")
    ≡ (table id_of_example).view (some (deployment_in failed)) (codes "m-2")
destroy_one-others_example =
    destroy_one-others (table id_of_example) machine example_dirs (deployment_in failed) true
      (world_in failed) (codes "m-2") other_id

example_At :
    (p : Phase) → At (table id_of_example) machine id_of_example (λ row. row.phase ≡ p) (world_in p)
unfolding iold.Base.text_eq
example_At p = record { row = deployment_in p; is = refl; holds = refl }

destroy_one-outcome_example :
    Destroyed
      (table id_of_example)
      machine
      (deployment_in failed)
      true
      (destroy_one
        (table id_of_example)
        machine
        example_dirs
        (deployment_in failed)
        true
        (world_in failed)).1
destroy_one-outcome_example =
    destroy_one-outcome (table id_of_example) machine example_dirs (deployment_in failed) true
      (world_in failed) (example_At failed) destruction_runs

recover_interrupted_deployments-settles_example :
    is_past (
      (table id_of_example).view
        (recover_interrupted_deployments (table id_of_example) machine (world_in starting)).1.db
        id_of_example)
    ≡ true
recover_interrupted_deployments-settles_example =
    recover_interrupted_deployments-settles (table id_of_example) machine (world_in starting)
      id_of_example recovery_runs

destroy_one-Guarded_example :
    Guarded
      (deployment_process (deployment_in failed))
      (destroy_one
        (table id_of_example)
        machine
        example_dirs
        (deployment_in failed)
        true
        (world_in failed)).1.trace
destroy_one-Guarded_example =
    destroy_one-Guarded (table id_of_example) machine example_dirs (deployment_in failed) true
      (world_in failed) tt

abbrev example_process : Process
example_process = record {
  pid = 7;
  command = codes "vllm";
  log_path = [];
  started_at = 1;
  start_token = codes "1";
}

stop-Guarded_example :
    Guarded example_process (stop machine example_process 5 (world_in failed)).1.trace
stop-Guarded_example = stop-Guarded machine example_process 5 (world_in failed) tt

wait_empty-rounds_example :
    ((wait_empty machine (rounds 5) 7 10 (world_in failed)).0 ≡ ok emptied)
    ⊎ ((wait_empty machine (rounds 5) 7 10 (world_in failed)).0 ≡ ok timed_out)
wait_empty-rounds_example = wait_empty-rounds machine 5 7 5 (world_in failed) (omega arith)

transition_ok_example :
    Transitioned
      (table id_of_example)
      machine
      id_of_example
      starting
      failed
      (reason (codes "x"))
      (world_in starting)
      (transition
        (table id_of_example)
        machine
        id_of_example
        starting
        failed
        (reason (codes "x"))
        (world_in starting)).1
unfolding transition check_transition ◌>>=◌ execute pure ask iold.Base.text_eq
transition_ok_example =
    transition_ok (table id_of_example) machine id_of_example starting failed (reason (codes "x"))
      (world_in starting) refl

transition_err_example :
    Unchanged
      (table id_of_example)
      machine
      (world_in starting)
      (transition
        (table id_of_example)
        machine
        id_of_example
        starting
        ready
        no_reason
        (world_in starting)).1
unfolding transition check_transition raise
transition_err_example =
    transition_err (table id_of_example) machine id_of_example starting ready no_reason
      (world_in starting) refl

poll_health-rounds_example :
    (poll_health machine example_deps
      (Ready.rounds example_deps 5)
      []
      example_process
      10
      (world_in starting)).0
    ≢ ok starved
poll_health-rounds_example =
    poll_health-rounds machine example_deps [] example_process 5 (world_in starting) (omega arith)
      (omega arith)

poll_ready-rounds_example :
    (poll_ready machine example_deps
      (Ready.rounds example_deps 5)
      []
      example_spec
      10
      (world_in healthy)).0
    ≢ ok starved
poll_ready-rounds_example =
    poll_ready-rounds machine example_deps [] example_spec 5 (world_in healthy) (omega arith)
      (omega arith)

owned_paths_lem_example : owned_paths example_dirs id_of_example ≡ (
    if is_valid_id id_of_example
    then ok (
        (example_dirs.state_dir ++ codes "logs" ∷ log_file_name id_of_example ∷ [])
        ∷ (example_dirs.state_dir ++ codes "deployments" ∷ id_of_example ∷ [])
        ∷ [])
    else err (invalid_id id_of_example))
unfolding iold.Base.text_eq
owned_paths_lem_example = owned_paths_lem example_dirs id_of_example (refl, tt)
