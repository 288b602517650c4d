-- ===== src/Example/Planning.antt =====
-- The theorems on the planner, the hub, the doctor, the preflight, the arguments and retrying, at concrete
-- inputs.
use iold.Base.{
  ℕ, suc, ◌+◌, ◌-◌, ◌<◌, ◌≤◌, ◌*◌, ◌^◌, ◌≡◌, refl, none, some, [], ◌∷◌, List, Text, codes, false,
  true, arith, lt64, Option, Bool, has_prefix, is_empty,
}
use mathlib.Core.List.{Permᴰ}
use iold.Action.{◌>>=◌, pure, raise, attempt}
use iold.World.{World, ask}
use iold.Hub.{Client, Model, Fields, Json, json_string, unmarshal_gated, marshal_gated, replied}
use iold.Hub.Wire.{unmarshal_gated-marshal_gated}
use iold.Planner.Estimate.{Estimate, Verdict, fits, tight, too_big, estimate_model, assess}
use iold.Planner.Quantization.{quant_eighths, detect_quantization}
use iold.Planner.Estimate.Facts.{weight_eighths, estimate_model-Perm, assess_bounds}
use iold.Planner.Suggest.{Suggestion, no_config, collect, suggest_quantized}
use iold.Planner.Suggest.Facts.{Suggested, suggest_quantized-Suggested}
use iold.Cli.Deploy.Resolve.{required_vram_mib, resolve_spec}
use iold.Cli.Deploy.Resolve.Memory.{required_vram_mib-le}
use iold.Cli.Deploy.Resolve.Facts.{resolve_spec-Resolved, Resolved}
use iold.Cli.Paths.{Dirs}
use iold.Cli.Deploy.Spec.{DeploySpec}
use iold.Doctor.System.{system_probes}
use iold.Doctor.{default_requirements, report_ok}
use iold.Doctor as Doctor
use iold.Doctor.Facts.{IsFit, run-IsFit}
use iold.Preflight.{Spec}
use iold.Preflight as Preflight
use iold.Preflight.Facts.{IsAdmitted, run-IsAdmitted}
use iold.Retry.{Policy, Calls, do_attempts}
use iold.Retry.Facts.{Fits, counted, do_attempts-Fits}
use iold.Example.Live.{live, hub_answer, example_sha}

unmarshal_gated-marshal_gated_example :
    unmarshal_gated (marshal_gated (record { is_gated = true; mode = codes "auto" }))
    ≡ some (record { is_gated = true; mode = codes "auto" })
unfolding unmarshal_gated
unmarshal_gated-marshal_gated_example =
    unmarshal_gated-marshal_gated (json_string (codes "auto"))
      (record { is_gated = true; mode = codes "auto" }) refl

abbrev bf16 : Text × ℕ
bf16 = (codes "BF16", 7000000000)

abbrev f32 : Text × ℕ
f32 = (codes "F32", 1000)

estimate_model-Perm_example :
    estimate_model
      (record (hub_answer (codes "org/m")) { safetensors = some (bf16 ∷ f32 ∷ []) })
      no_config
      0
    ≡ estimate_model
        (record (hub_answer (codes "org/m")) { safetensors = some (f32 ∷ bf16 ∷ []) })
        no_config
        0
unfolding weight_eighths quant_eighths detect_quantization iold.Planner.Estimate.entry_eighths
    iold.Planner.Estimate.dtype_eighths iold.Base.has_prefix iold.Base.to_upper iold.Base.text_eq
    iold.Base.to_lower iold.Base.contains_text iold.Planner.Quantization.marker_of
    iold.Planner.Quantization.marker_in
estimate_model-Perm_example =
    estimate_model-Perm (hub_answer (codes "org/m")) no_config 0 (bf16 ∷ f32 ∷ []) (f32 ∷ bf16 ∷ [])
      (Permᴰ.swap refl refl) (omega arith)

abbrev example_estimate : Estimate
example_estimate = record {
  model_id = codes "org/m";
  param_count = 7000000000;
  quantization = [];
  context_tokens = 4096;
  weight_bytes = 14000000000;
  kv_cache_bytes = 0;
  overhead_bytes = 2147483648;
  total_bytes = 16147483648;
  architecture = [];
  known_architecture = false;
  kv_cache_unknown = true;
}

assess_bounds_example :
    (assess example_estimate 24576 ≡ fits
      → 1000 * 2 ^ 49 * 16147483648 ≤ (2 ^ 49 + 1) * (765 * 1048576 * 24576))
    × (assess example_estimate 24576 ≡ tight
        → (10 * 2 ^ 49 * 16147483648 ≤ (2 ^ 49 + 1) * (9 * 1048576 * 24576))
          × ((2 ^ 49 - 1) * (765 * 1048576 * 24576) < 1000 * 2 ^ 49 * 16147483648))
    × (assess example_estimate 24576 ≡ too_big
        → (2 ^ 49 - 1) * (9 * 1048576 * 24576) < 10 * 2 ^ 49 * 16147483648)
assess_bounds_example = assess_bounds example_estimate 24576 (omega arith) (omega arith)

required_vram_mib-le_example : lt64 24576 (required_vram_mib example_estimate.total_bytes) ≡ false
unfolding assess iold.Planner.Estimate.usable iold.Planner.Estimate.comfortable
    iold.Planner.Float.round64
required_vram_mib-le_example =
    required_vram_mib-le example_estimate 24576 (omega arith) (omega arith) admitted
  where
    admitted : assess example_estimate 24576 ≡ too_big → ⊥
    admitted e = cc

abbrev always_failing : Calls ℕ ℕ
always_failing = record {
  op = λ t s. (some 7, s + 1);
  context_err = λ s. (none, s);
  wait = λ d s. (none, s);
  is_permanent = λ e. false;
}

abbrev three_times : Policy
three_times = record { max_attempts = 3; jittered = λ n. n; attempt_timeout = 0 }

do_attempts-Fits_example :
    Fits 3
      (do_attempts three_times (counted always_failing) (0, 0)).0
      (do_attempts three_times (counted always_failing) (0, 0)).1.1
do_attempts-Fits_example = do_attempts-Fits three_times always_failing 0

abbrev idle : World (Unit {0}) ℕ
idle = record { db = tt; os = 0; trace = []; output = [] }

abbrev example_client : Client
example_client = record { base_url = codes "https://huggingface.co"; token = [] }

abbrev example_suggestion : Suggestion
example_suggestion = record {
  estimate = record {
    model_id = codes "org/m-AWQ";
    param_count = 7000000000;
    quantization = codes "awq";
    context_tokens = 4096;
    weight_bytes = 14000000000;
    kv_cache_bytes = 0;
    overhead_bytes = 2147483648;
    total_bytes = 16147483648;
    architecture = [];
    known_architecture = false;
    kv_cache_unknown = true;
  };
  verdict = fits;
  downloads = 10;
  gated = false;
}

suggest_quantized-Suggested_example : Suggested 97887 5 (example_suggestion ∷ [])
unfolding suggest_quantized ask pure raise attempt ◌>>=◌ collect iold.Hub.Requests.search_models
    iold.Hub.get_json iold.Base.text_eq iold.Base.to_lower iold.Base.contains_text
    iold.Planner.Suggest.short_name iold.Base.after_byte iold.Planner.Suggest.servable_by_vllm
    iold.Planner.Suggest.examine iold.Hub.Requests.get_model estimate_model
    iold.Planner.Quantization.detect_quantization iold.Hub.Requests.get_config_at_revision
    iold.Base.remove_byte assess iold.Planner.Estimate.weight_from iold.Planner.Float.round64
    iold.Planner.Estimate.usable iold.Planner.Estimate.comfortable
    iold.Planner.Estimate.entry_eighths has_prefix iold.Base.to_upper iold.Hub.resolved
    iold.Planner.Estimate.clamp_context iold.Planner.Estimate.dtype_eighths
    iold.Planner.Estimate.kv_cache_bytes iold.Planner.Estimate.param_count
    iold.Planner.Quantization.marker_in iold.Planner.Quantization.marker_of
    iold.Planner.Quantization.quant_eighths iold.Planner.Suggest.examine_each
    iold.Planner.Suggest.search_each
suggest_quantized-Suggested_example =
    suggest_quantized-Suggested (live (codes "m")) example_client 97887 4096 (λ f l. l)
      (codes "org/m") idle (example_suggestion ∷ []) refl

abbrev example_dirs : Dirs
example_dirs = record { state_dir = codes "state" ∷ []; model_cache_dir = codes "cache" ∷ [] }

abbrev example_spec : DeploySpec
example_spec = record {
  id = codes "m";
  alias = codes "org/m";
  artifact = codes "org/m";
  revision = example_sha;
  port = 8000;
  max_model_len = 4096;
  api_key = [];
  cache_dir = codes "/cache/m";
  quantization = [];
  min_driver_major = 570;
  min_compute_major = 0;
  min_vram_mib = 17111;
  min_disk_gib = 21;
}

resolve_spec-Resolved_example :
    Resolved
      (live (codes "m"))
      (system_probes (live (codes "m")))
      example_client
      example_dirs
      (codes "org/m")
      example_spec
unfolding resolve_spec ask pure raise attempt ◌>>=◌ iold.Catalog.get_entry iold.Base.text_eq
    iold.Base.contains_text iold.Cli.Deploy.Resolve.primary_vram_mib iold.Cli.Deploy.Cache.lift
    system_probes iold.Base.split iold.Base.trim_space iold.Base.atoi iold.Base.before_byte
    iold.Hub.Requests.get_model iold.Hub.get_json iold.Cli.Deploy.Resolve.validate_revision
    iold.Cli.Names.every iold.Hub.Requests.get_config_at_revision estimate_model assess
    iold.Base.drop_while has_prefix iold.Base.remove_byte iold.Base.split_from iold.Base.to_lower
    iold.Base.to_upper iold.Cli.Deploy.Resolve.is_revision iold.Cli.Deploy.Resolve.max_model_len
    iold.Cli.Deploy.Resolve.min_compute_for_quantization iold.Cli.Deploy.Resolve.required_disk_gib
    required_vram_mib iold.Cli.Deploy.Resolve.unless_missing iold.Cli.Names.behind_slash
    iold.Cli.Names.candidate_id iold.Cli.Names.deployment_id iold.Cli.Names.is_first
    iold.Cli.Names.is_later iold.Cli.Names.is_plain iold.Cli.Names.is_valid_id
    iold.Cli.Names.matches_valid_id iold.Cli.Names.sanitize iold.Cli.Names.shortened
    iold.Cli.Names.take iold.Cli.Names.trim_marks iold.Cli.Paths.checked_id
    iold.Cli.Paths.clean_from iold.Cli.Paths.clean_path iold.Cli.Paths.deployment_model_cache_dir
    iold.Cli.Paths.render iold.Cli.Paths.safe_child_path iold.Cli.Paths.starts_under
    iold.Doctor.System.bytes_of iold.Doctor.System.disk_free_bytes iold.Doctor.System.gpu_of
    iold.Doctor.System.gpus_of iold.Doctor.System.nearest iold.Doctor.System.parse_lines
    iold.Doctor.System.parse_nvidia_smi iold.Hub.resolved iold.Planner.Estimate.clamp_context
    iold.Planner.Estimate.dtype_eighths iold.Planner.Estimate.entry_eighths
    iold.Planner.Estimate.kv_cache_bytes iold.Planner.Estimate.param_count
    iold.Planner.Estimate.weight_from iold.Planner.Float.round64 iold.Planner.Estimate.usable
    iold.Planner.Estimate.comfortable iold.Planner.Quantization.detect_quantization
    iold.Planner.Quantization.marker_in iold.Planner.Quantization.marker_of
    iold.Planner.Quantization.quant_eighths mathlib.Core.List.flat_map
resolve_spec-Resolved_example =
    resolve_spec-Resolved (live (codes "m")) (system_probes (live (codes "m"))) example_client
      example_dirs (codes "org/m") idle example_spec refl

run-IsFit_example : IsFit (system_probes (live (codes "m"))) (default_requirements (codes "/cache"))
unfolding Doctor.run ask pure ◌>>=◌ report_ok Doctor.gpu_checks system_probes iold.Base.split
    iold.Base.trim_space iold.Base.atoi iold.Base.before_byte Doctor.driver_major
    iold.Base.contains_text Doctor.disk_check Doctor.network_check iold.Cli.Paths.clean_path
    iold.Doctor.System.nearest iold.Base.text_eq iold.Doctor.System.bytes_of
run-IsFit_example =
    run-IsFit (system_probes (live (codes "m"))) (default_requirements (codes "/cache")) idle
      (Doctor.check Doctor.nvidia_driver Doctor.pass
        ∷ Doctor.check Doctor.gpu_model Doctor.pass
        ∷ Doctor.check Doctor.gpu_architecture Doctor.pass
        ∷ Doctor.check Doctor.vram Doctor.pass
        ∷ Doctor.check Doctor.disk Doctor.pass
        ∷ Doctor.check Doctor.network Doctor.pass
        ∷ [])
      refl refl

abbrev example_preflight : Spec
example_preflight = record {
  runtime_binary = codes "vllm";
  cache_dir = codes "/cache/m";
  endpoint = codes "https://huggingface.co";
  min_driver_major = 570;
  min_compute_major = 10;
  min_vram_mib = 17111;
  min_disk_gib = 21;
  preferred_port = 8000;
  reserved_ports = 8000 ∷ [];
  releasable_ports = [];
}

run-IsAdmitted_example :
    IsAdmitted (live (codes "m")) (system_probes (live (codes "m"))) example_preflight 8001
unfolding Preflight.run ask pure ◌>>=◌ iold.Supervisor.Ports.reserves Preflight.gpu_failures
    system_probes iold.Base.split iold.Base.trim_space iold.Base.atoi iold.Base.before_byte
    Doctor.driver_major Preflight.disk_failures iold.Cli.Paths.clean_path iold.Doctor.System.nearest
    iold.Base.text_eq iold.Doctor.System.bytes_of iold.Supervisor.Ports.allocate_port
run-IsAdmitted_example =
    run-IsAdmitted (live (codes "m")) (system_probes (live (codes "m"))) example_preflight idle 8001
      refl
