-- ===== src/Cli/Deploy/Resolve.antt =====
-- `resolveSpec`, its helpers and `vllmCommand` of internal/cli/deploy.go.
pub mod Facts
pub mod Memory
pub mod Keeps
use iold.Base.{
  ℕ, zero, suc, ltb, ◌/◌, ◌%◌, ◌+◌, ◌-◌, ◌*◌, ◌^◌, ◌==◌, leb, lt64, is_positive, quot64, wrap, not,
  ◌&&◌, ◌||◌, Bool, true, false, List, [], ◌∷◌, ◌++◌, length, Text, codes, is_empty, has_prefix,
  contains_text, to_lower, Option, none, some, if◌then◌else◌,
}
use iold.Fault.{
  Fault, Result, ok, err, wrapped, unknown_model, auth_required, no_revision, checks_failed,
}
use iold.Fault.ExitCode.{is, err_hub_not_found}
use iold.Action.{Action, pure, raise, attempt, ◌>>=◌, ◌>>◌}
use iold.Host.{Host}
use iold.World.{World, ask}
use iold.Hub.{Client, Model, Fields}
use iold.Hub.Requests.{get_model, get_config_at_revision}
use iold.Catalog.{Entry, get_entry}
use iold.Planner.Quantization.{detect_quantization, one_of}
use iold.Planner.Estimate.{
  Estimate, Verdict, fits, tight, too_big, default_context_tokens, estimate_model, assess,
}
use iold.Planner.Suggest.{no_config}
use iold.Doctor.System.{Gpu, Probes}
use iold.Cli.Names.{is_lower, is_digit, every, candidate_id, is_valid_id, deployment_id}
use iold.Cli.Paths.{Dirs, render, deployment_model_cache_dir}
use iold.Cli.Deploy.Spec.{DeploySpec}
use iold.Cli.Deploy.Cache.{lift}

-- [a-fA-F0-9]
abbrev pub is_hex : ℕ → Bool
is_hex c = is_digit c || (leb b'a' c && leb c b'f') || (leb b'A' c && leb c b'F')

-- `^[a-fA-F0-9]{40,64}$`
unfoldable pub is_revision : Text → Bool
is_revision s = every is_hex s && leb 40 (length s) && leb (length s) 64

unfoldable pub validate_revision : Text → Result (Unit {0})
unfolding is_revision
validate_revision revision = if is_revision revision then ok tt else err no_revision

unfoldable pub min_compute_for_quantization : Text → ℕ
min_compute_for_quantization quantization =
    if one_of (to_lower quantization) (codes "nvfp4" ∷ codes "mxfp4" ∷ codes "fp4" ∷ [])
    then 10
    else 0

unfoldable pub required_vram_mib : ℕ → ℕ
required_vram_mib total = quot64 (wrap (quot64 (wrap (total * 10)) 9 + 1048575)) 1048576

unfoldable pub required_disk_gib : ℕ → ℕ
required_disk_gib weight =
    let value = wrap (quot64 (wrap (quot64 (wrap (weight * 6)) 5 + 1073741823)) 1073741824 + 5) in
    if lt64 value 10 then 10 else value

-- `strconv.Itoa` of a number that is not negative; twenty digits hold every int.
decimal_from : ℕ → ℕ → Text → Text
decimal_from zero n digits = digits
decimal_from (suc more) n digits =
    let rest = decimal_from more (n / 10) ((48 + n % 10) ∷ digits) in
    if ltb n 10 then (48 + n % 10) ∷ digits else rest

decimal : ℕ → Text
unfolding decimal_from
decimal n = decimal_from 20 n []

abbrev option : Bool → Text → Text → List Text
option b flag value = if b then flag ∷ value ∷ [] else []

-- `bin` is IOLD_VLLM_BIN in the environment.
unfoldable pub vllm_command : (bin : Text) → DeploySpec → Text × List Text
unfolding decimal
vllm_command bin spec = (
  if is_empty bin then codes "vllm" else bin,
  (codes "serve"
        ∷ spec.artifact
        ∷ codes "--host"
        ∷ codes "0.0.0.0"
        ∷ codes "--port"
        ∷ decimal spec.port
        ∷ codes "--served-model-name"
        ∷ spec.id
        ∷ [])
      ++ (option (is_positive spec.max_model_len) (codes "--max-model-len")
            (decimal spec.max_model_len)
          ++ (option (not (is_empty spec.revision)) (codes "--revision") spec.revision
              ++ option (not (is_empty spec.cache_dir)) (codes "--download-dir") spec.cache_dir)),
)

first_vram : Result (List Gpu) → Result ℕ
first_vram (err f) = err checks_failed
first_vram (ok []) = err checks_failed
first_vram (ok (gpu ∷ gpus)) = ok gpu.vram_mib

-- A config that is missing is the empty one; any other error is one of the call.
unfoldable pub unless_missing : Result Fields → Result Fields
unless_missing (ok cfg) = ok cfg
unless_missing (err f) = if is f err_hub_not_found then ok no_config else err f

unfoldable pub max_model_len : Fields → ℕ
max_model_len cfg =
    if is_positive cfg.max_position_embeddings
      && lt64 cfg.max_position_embeddings default_context_tokens
    then cfg.max_position_embeddings
    else default_context_tokens

abbrev is_too_big : Verdict → Bool
is_too_big too_big = true
is_too_big _ = false

module _ {D : Type 0} (h : Host) (p : Probes h.Os) (c : Client) (dirs : Dirs) where
  unfoldable pub primary_vram_mib : Action (World D h.Os) ℕ
  unfolding first_vram
  primary_vram_mib = do answer ← ask p.gpus; lift h (first_vram answer)

  -- The pinned revision of an entry, or the one that the hub has now.
  entry_revision : Entry → Action (World D h.Os) Text
  entry_revision entry =
      if is_empty entry.artifact_revision || has_prefix entry.artifact_revision (codes "MOCK_")
      then (do
        model ← get_model h c entry.artifact
        lift h (validate_revision model.sha)
        pure model.sha)
      else (do lift h (validate_revision entry.artifact_revision); pure entry.artifact_revision)

  resolve_entry : Entry → Action (World D h.Os) DeploySpec
  unfolding entry_revision
  resolve_entry entry = do
    revision ← entry_revision entry
    cache_dir ← lift h (deployment_model_cache_dir dirs entry.alias)
    pure (record {
      id = entry.alias;
      alias = entry.alias;
      artifact = entry.artifact;
      revision = revision;
      port = entry.default_port;
      max_model_len = entry.max_model_len;
      api_key = [];
      cache_dir = render cache_dir;
      quantization = entry.quantization;
      min_driver_major = 570;
      min_compute_major = min_compute_for_quantization entry.quantization;
      min_vram_mib = entry.minimum_vram_gib * 1024;
      min_disk_gib = 100;
    })

  -- `deploymentID`, which draws a random name only where the reference gives none.
  fresh_id : Text → Action (World D h.Os) Text
  fresh_id ref =
      if is_empty (candidate_id ref) || not (is_valid_id (candidate_id ref))
      then (do random ← ask (h.random_hex 4); pure (deployment_id random ref))
      else pure (deployment_id [] ref)

  resolve_fitting : Text → Model → Fields → Estimate → Action (World D h.Os) DeploySpec
  unfolding fresh_id
  resolve_fitting ref model cfg est = do
    id ← fresh_id ref
    cache_dir ← lift h (deployment_model_cache_dir dirs id)
    pure (record {
      id = id;
      alias = ref;
      artifact = ref;
      revision = model.sha;
      port = 8000;
      max_model_len = max_model_len cfg;
      api_key = [];
      cache_dir = render cache_dir;
      quantization = detect_quantization model cfg;
      min_driver_major = 570;
      min_compute_major = min_compute_for_quantization (detect_quantization model cfg);
      min_vram_mib = required_vram_mib est.total_bytes;
      min_disk_gib = required_disk_gib est.weight_bytes;
    })

  -- The gate of the planner, before any download and before any row.
  resolve_model : Text → Action (World D h.Os) DeploySpec
  unfolding unless_missing resolve_fitting
  resolve_model ref = do
    vram ← primary_vram_mib
    model ← get_model h c ref
    if model.gated.is_gated && is_empty c.token then raise auth_required else pure tt
    lift h (validate_revision model.sha)
    found ← attempt (get_config_at_revision h c ref model.sha)
    cfg ← lift h (unless_missing found)
    est ← lift h (estimate_model model cfg default_context_tokens)
    if is_too_big (assess est vram) then raise checks_failed else resolve_fitting ref model cfg est

  by_entry : Text → Result Entry → Action (World D h.Os) DeploySpec
  unfolding resolve_entry resolve_model
  by_entry ref (ok entry) = resolve_entry entry
  by_entry ref (err f) =
      if contains_text ref (codes "/") then resolve_model ref else raise (unknown_model ref)

  unfoldable pub resolve_spec : Text → Action (World D h.Os) DeploySpec
  unfolding by_entry
  resolve_spec ref = by_entry ref (get_entry ref)
