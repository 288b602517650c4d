-- ===== src/Planner/Suggest.antt =====
-- internal/planner/suggest.go: quantized variants of a model that fit the memory. Filtering the results
-- of the searches has no effect on anything else, so it is applied to all of them at once.
pub mod Facts
pub mod Keeps
use iold.Base.{
  take, ℕ, zero, suc, ◌||◌, ◌&&◌, not, Bool, true, false, List, [], ◌∷◌, ◌++◌, Text, codes, text_eq,
  is_empty, contains_text, to_lower, after_byte, Option, none, some, lt64, if◌then◌else◌,
}
use iold.Fault.{Fault, Result, ok, err}
use iold.Action.{Action, pure, raise, attempt, ◌>>=◌}
use iold.Host.{Host}
use iold.World.{World}
use iold.Hub.{Client, Model, Fields}
use iold.Hub.Requests.{get_model, get_config_at_revision, search_models}
use iold.Planner.Quantization.{detect_quantization, one_of}
use iold.Planner.Estimate.{Estimate, Verdict, fits, tight, too_big, estimate_model, assess}

pub record Suggestion : Type 0 where
  pub estimate : Estimate
  pub verdict : Verdict
  pub downloads : ℕ
  pub gated : Bool

abbrev variant_queries : List Text
variant_queries = codes "AWQ" ∷ codes "GPTQ" ∷ codes "FP8" ∷ codes "NVFP4" ∷ codes "4bit" ∷ []

abbrev pub search_limit_per_query : ℕ
search_limit_per_query = 8

abbrev pub max_candidate_fetches : ℕ
max_candidate_fetches = 12

abbrev pub max_suggestions : ℕ
max_suggestions = 5

has_tag : List Text → Bool
has_tag [] = false
has_tag (t ∷ ts) = one_of (to_lower t) (codes "mlx" ∷ codes "gguf" ∷ []) || has_tag ts

unfoldable pub servable_by_vllm : Model → Bool
unfolding has_tag
servable_by_vllm m =
    not (contains_text (to_lower m.id) (codes "mlx"))
    && not (contains_text (to_lower m.id) (codes "gguf"))
    && not (has_tag m.tags)

has_slash : Text → Bool
has_slash s = contains_text s (codes "/")

-- The name behind the first slash, or the whole identifier.
unfoldable pub short_name : Text → Text
unfolding has_slash
short_name id = if has_slash id then after_byte b'/' id else id

-- The results that go on to be fetched; `seen` are the keys that are not taken again.
unfoldable pub collect : Text → List Text → List Model → List Model
collect short seen [] = []
collect short seen (m ∷ ms) =
    let skipped = collect short seen ms in
    let kept = m ∷ collect short (to_lower m.id ∷ seen) ms in
    if one_of (to_lower m.id) seen
      || not (contains_text (to_lower m.id) short)
      || not (servable_by_vllm m)
    then skipped
    else kept

abbrev pub no_config : Fields
no_config = record {
  architectures = [];
  model_type = [];
  num_hidden_layers = 0;
  num_attention_heads = 0;
  num_key_value_heads = 0;
  hidden_size = 0;
  head_dim = 0;
  max_position_embeddings = 0;
  quantization_config = none;
}

or_no_config : Result Fields → Fields
or_no_config (ok cfg) = cfg
or_no_config (err f) = no_config

abbrev unless_too_big : Model → Estimate → Verdict → Option Suggestion
unless_too_big model est too_big = none
unless_too_big model est v = some (record {
  estimate = est;
  verdict = v;
  downloads = model.downloads;
  gated = model.gated.is_gated;
})

by_estimate : Model → Fields → ℕ → Result Estimate → Option Suggestion
by_estimate model cfg vram (err f) = none
by_estimate model cfg vram (ok est) =
    if is_empty (detect_quantization model cfg)
    then none
    else unless_too_big model est (assess est vram)

module _ {D : Type 0} (h : Host) (c : Client) (vram context_tokens : ℕ) where
  with_model : Text → Result Model → Action (World D h.Os) (Option Suggestion)
  unfolding or_no_config by_estimate
  with_model id (err f) = pure none
  with_model id (ok model) = if is_empty model.sha then pure none else (do
    found ← attempt (get_config_at_revision h c id model.sha)
    let cfg = or_no_config found
    pure (by_estimate model cfg vram (estimate_model model cfg context_tokens)))

  -- One candidate; whatever fails skips it.
  unfoldable pub examine : Model → Action (World D h.Os) (Option Suggestion)
  unfolding with_model
  examine candidate = do found ← attempt (get_model h c candidate.id); with_model candidate.id found

  keep_or_skip :
      Option Suggestion
      → (skipped kept : Action (World D h.Os) (List Suggestion))
      → Action (World D h.Os) (List Suggestion)
  keep_or_skip none skipped kept = skipped
  keep_or_skip (some s) skipped kept = do rest ← kept; pure (s ∷ rest)

  -- `left` suggestions may still come.
  unfoldable pub examine_each : (left : ℕ) → List Model → Action (World D h.Os) (List Suggestion)
  unfolding keep_or_skip
  examine_each zero candidates = pure []
  examine_each (suc left) [] = pure []
  examine_each (suc left) (candidate ∷ more) = do
    found ← examine candidate
    keep_or_skip found (examine_each (suc left) more) (examine_each left more)

  unfoldable pub search_each : Text → List Text → Action (World D h.Os) (List Model)
  search_each short [] = pure []
  search_each short (quant ∷ more) = do
    results ← search_models h c (short ++ b' ' ∷ quant) search_limit_per_query
    rest ← search_each short more
    pure (results ++ rest)

  -- `SuggestQuantized`; `sort` stands for sort.Slice, which orders by a test.
  unfoldable pub suggest_quantized :
      ((Model → Model → Bool) → List Model → List Model)
      → Text
      → Action (World D h.Os) (List Suggestion)
  unfolding examine_each search_each
  suggest_quantized sort base_id = do
    results ← search_each (short_name base_id) variant_queries
    let candidates = collect (to_lower (short_name base_id)) (to_lower base_id ∷ []) results
    let ordered = sort (λ a b. lt64 b.downloads a.downloads) candidates
    examine_each max_suggestions (take max_candidate_fetches ordered)
