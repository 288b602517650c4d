-- ===== src/Planner/Estimate.antt =====
-- `EstimateModel`, `kvCacheBytes` and `Assess` of internal/planner/planner.go.
pub mod Facts
use iold.Base.{
  ℕ, ◌+◌, ◌-◌, ◌*◌, ◌/◌, ◌^◌, ◌==◌, leb, ltb, ◌||◌, ◌&&◌, not, Bool, true, false, List, [], ◌∷◌,
  Text, codes, text_eq, is_empty, has_prefix, to_lower, to_upper, is_positive, is_negative, lt64,
  quot64, wrap, Option, none, some, if◌then◌else◌,
}
use iold.Fault.{Fault, Result, ok, err, no_size_data}
use iold.Hub.{Model, Fields}
use iold.Planner.Float.{round64}
use iold.Planner.Quantization.{detect_quantization, quant_eighths, one_of}

abbrev pub default_context_tokens : ℕ
default_context_tokens = 4096

abbrev pub fixed_overhead_bytes : ℕ
fixed_overhead_bytes = 2147483648

pub data Verdict : Type 0 where
  fits tight too_big : Verdict

pub record Estimate : Type 0 where
  pub model_id : Text
  pub param_count : ℕ
  pub quantization : Text
  pub context_tokens : ℕ
  pub weight_bytes : ℕ
  pub kv_cache_bytes : ℕ
  pub overhead_bytes : ℕ
  pub total_bytes : ℕ
  pub architecture : Text
  pub known_architecture : Bool
  pub kv_cache_unknown : Bool

-- `dtypeBytes` in eighths of a byte, with the two bytes of an unknown type.
unfoldable pub dtype_eighths : Text → ℕ
dtype_eighths t =
    if one_of t (codes "F64" ∷ codes "I64" ∷ codes "U64" ∷ [])
    then 64
    else if one_of t (codes "F32" ∷ codes "I32" ∷ codes "U32" ∷ [])
    then 32
    else if one_of t
        (codes "F8_E4M3" ∷ codes "F8_E5M2" ∷ codes "I8" ∷ codes "U8" ∷ codes "BOOL" ∷ [])
    then 8
    else if one_of t (codes "F4" ∷ codes "NF4" ∷ codes "I4" ∷ codes "U4" ∷ [])
    then 4
    else 16

-- One entry of the census; a packed integer type costs the width of the scheme.
unfoldable pub entry_eighths : ℕ → Text → ℕ
unfolding dtype_eighths
entry_eighths quant dtype =
    let t = to_upper dtype in
    if ltb 0 quant && (has_prefix t (codes "I") || has_prefix t (codes "U"))
    then quant
    else dtype_eighths t

-- `weight` in eighths of a byte, summed as float64 in the order of the walk.
unfoldable pub weight_from : (quant weight : ℕ) → List (Text × ℕ) → ℕ
weight_from quant weight [] = weight
weight_from quant weight ((dtype, count) ∷ more) =
    weight_from quant (round64 (weight + round64 (round64 count * entry_eighths quant dtype))) more

-- `int64(weight)`; a value that does not fit becomes the least int64, as on amd64.
abbrev pub to_int64 : ℕ → ℕ
to_int64 weight = if ltb (weight / 8) (2 ^ 63) then weight / 8 else 2 ^ 63

unfoldable pub param_count : List (Text × ℕ) → ℕ
param_count [] = 0
param_count ((dtype, count) ∷ more) = wrap (count + param_count more)

unfoldable pub kv_cache_bytes : Fields → ℕ → ℕ
kv_cache_bytes cfg context_tokens =
    let heads =
      if cfg.num_key_value_heads == 0 then cfg.num_attention_heads else cfg.num_key_value_heads in
    let head_dim =
      if cfg.head_dim == 0 && is_positive cfg.num_attention_heads
      then quot64 cfg.hidden_size cfg.num_attention_heads
      else cfg.head_dim in
    if cfg.num_hidden_layers == 0 || heads == 0 || head_dim == 0
    then 0
    else wrap (2 * cfg.num_hidden_layers * heads * head_dim * 2 * context_tokens)

abbrev known_model_types : List Text
known_model_types =
    codes "llama"
    ∷ codes "llama4"
    ∷ codes "mistral"
    ∷ codes "mixtral"
    ∷ codes "qwen2"
    ∷ codes "qwen2_moe"
    ∷ codes "qwen3"
    ∷ codes "qwen3_moe"
    ∷ codes "gemma"
    ∷ codes "gemma2"
    ∷ codes "gemma3"
    ∷ codes "gemma3_text"
    ∷ codes "phi"
    ∷ codes "phi3"
    ∷ codes "phimoe"
    ∷ codes "deepseek_v2"
    ∷ codes "deepseek_v3"
    ∷ codes "falcon"
    ∷ codes "gpt2"
    ∷ codes "gpt_neox"
    ∷ codes "gpt_bigcode"
    ∷ codes "starcoder2"
    ∷ codes "olmo"
    ∷ codes "olmo2"
    ∷ codes "granite"
    ∷ codes "internlm2"
    ∷ codes "baichuan"
    ∷ codes "chatglm"
    ∷ codes "glm4"
    ∷ codes "stablelm"
    ∷ codes "mpt"
    ∷ codes "opt"
    ∷ codes "bloom"
    ∷ codes "cohere"
    ∷ codes "command-r"
    ∷ codes "exaone"
    ∷ codes "minicpm"
    ∷ codes "nemotron"
    ∷ codes "smollm3"
    ∷ []

abbrev first_of : List Text → Text
first_of [] = []
first_of (a ∷ l) = a

-- The context that is asked for, or the default, and no more than the model has positions.
unfoldable pub clamp_context : ℕ → ℕ → ℕ
clamp_context max_positions asked =
    let tokens = if is_positive asked then asked else default_context_tokens in
    if is_positive max_positions && lt64 max_positions tokens then max_positions else tokens

abbrev total_of : ℕ → ℕ → ℕ
total_of weight kv = wrap (weight + kv + fixed_overhead_bytes)

estimate_census : Model → Fields → ℕ → List (Text × ℕ) → Estimate
estimate_census model cfg tokens census =
    let quant = detect_quantization model cfg in
    let weight = to_int64 (weight_from (quant_eighths quant cfg) 0 census) in
    let kv = kv_cache_bytes cfg tokens in
    record {
      model_id = model.id;
      param_count = param_count census;
      quantization = quant;
      context_tokens = tokens;
      weight_bytes = weight;
      kv_cache_bytes = kv;
      overhead_bytes = fixed_overhead_bytes;
      total_bytes = total_of weight kv;
      architecture = first_of cfg.architectures;
      known_architecture = one_of (to_lower cfg.model_type) known_model_types;
      kv_cache_unknown = kv == 0;
    }

by_census : Model → Fields → ℕ → Option (List (Text × ℕ)) → Result Estimate
unfolding estimate_census
by_census model cfg tokens none = err no_size_data
by_census model cfg tokens (some []) = err no_size_data
by_census model cfg tokens (some (e ∷ es)) = ok (estimate_census model cfg tokens (e ∷ es))

unfoldable pub estimate_model : Model → Fields → ℕ → Result Estimate
unfolding by_census
estimate_model model cfg context_tokens =
    by_census model cfg (clamp_context cfg.max_position_embeddings context_tokens) model.safetensors

-- `usable` for so many MiB of memory, in units of 2 ^ -53: 0.90 is 8106479329266893 of them.
unfoldable pub usable : ℕ → ℕ
usable vram = round64 (round64 vram * 1048576 * 8106479329266893)

-- `usable * comfortFraction` in units of 2 ^ -106: 0.85 is 7656119366529843 of 2 ^ -53.
unfoldable pub comfortable : ℕ → ℕ
unfolding usable
comfortable vram = round64 (usable vram * 7656119366529843)

-- Whether the total is within the budget that `budget` gives for the memory, in units of `1 / unit`, on the
-- numbers that the patterns stand for.
abbrev pub within : (unit : ℕ) → (budget : ℕ → ℕ) → (total vram : ℕ) → Bool
within unit budget total vram =
    if is_negative total
    then (if is_negative vram
        then leb (budget (2 ^ 64 - vram)) (unit * round64 (2 ^ 64 - total))
        else true)
    else (if is_negative vram then false else leb (unit * round64 total) (budget vram))

unfoldable pub assess : Estimate → ℕ → Verdict
unfolding comfortable
assess est vram_mib =
    if within (2 ^ 106) comfortable est.total_bytes vram_mib
    then fits
    else if within (2 ^ 53) usable est.total_bytes vram_mib
    then tight
    else too_big
