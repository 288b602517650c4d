-- ===== src/Planner/Suggest/Facts.antt =====
-- What is suggested, and what is fetched for it.
use iold.Base.{
  ℕ, zero, suc, ◌≤◌, ◌≡◌, ◌≢◌, refl, ap, ◌∙◌, Bool, true, false, List, [], ◌∷◌, All, length, Text,
  is_empty, contains_text, to_lower, Option, none, some, arith, inl, inr, Bool-cases,
}
use iold.Fault.{Result, ok, err}
use iold.Action.{Action, attempt}
use iold.Action.Yields.{Yields, Yields-pure, Yields-bind, Yields-if, Yields_ok, Yields-any}
use iold.Host.{Host}
use iold.World.{World}
use iold.Hub.{Client, Model, Fields}
use iold.Hub.Requests.{get_model, get_config_at_revision}
use iold.Planner.Quantization.{detect_quantization, one_of}
use iold.Planner.Estimate.{Estimate, Verdict, fits, tight, too_big, estimate_model, assess}
use iold.Planner.Estimate.Facts.{estimate_model-quantization}
use iold.Planner.Suggest.{
  Suggestion, servable_by_vllm, unless_too_big, by_estimate, or_no_config, with_model, examine,
  examine_each, keep_or_skip, search_each, suggest_quantized, short_name, variant_queries,
  max_suggestions,
}

-- The verdict is that of the estimate, which is not too big, and the model is quantized.
pub record IsFitting (vram : ℕ) (s : Suggestion) : Type 0 where
  pub judged : s.verdict ≡ assess s.estimate vram
  pub admits : s.verdict ≢ too_big
  pub quantized : is_empty s.estimate.quantization ≡ false

abbrev Fitting : ℕ → Option Suggestion → Type 0
Fitting vram none = Unit
Fitting vram (some s) = IsFitting vram s

unless_too_big-Fitting :
    (vram : ℕ) (model : Model) (est : Estimate) (v : Verdict)
    → v ≡ assess est vram
    → is_empty est.quantization ≡ false
    → Fitting vram (unless_too_big model est v)
unless_too_big-Fitting vram model est too_big e q = tt
unless_too_big-Fitting vram model est fits e q = record {
  judged = e;
  admits = λ x. cc;
  quantized = q;
}
unless_too_big-Fitting vram model est tight e q = record {
  judged = e;
  admits = λ x. cc;
  quantized = q;
}

by_estimate-Fitting :
    (model : Model) (cfg : Fields) (vram : ℕ) (r : Result Estimate)
    → ((est : Estimate) → r ≡ ok est → est.quantization ≡ detect_quantization model cfg)
    → Fitting vram (by_estimate model cfg vram r)
unfolding by_estimate
by_estimate-Fitting model cfg vram (err f) k = tt
by_estimate-Fitting model cfg vram (ok est) k =
    elim (Bool-cases (is_empty (detect_quantization model cfg))) [
      | inl t ↦ rw t tt
      | inr t ↦ rw t (
          unless_too_big-Fitting vram model est (assess est vram) refl
            (ap is_empty (k est refl) ∙ t))
    ]

-- At most so many, all of which fit.
abbrev pub Suggested : ℕ → ℕ → List Suggestion → Type 0
Suggested vram left l = (length l ≤ left) × All (IsFitting vram) l

module _ {D : Type 0} (h : Host) (c : Client) (vram context_tokens : ℕ) where
  with_model-Yields :
      (id : Text) (r : Result Model)
      → Yields (Fitting vram) (with_model {D = D} h c vram context_tokens id r)
  unfolding with_model
  with_model-Yields id (err f) = Yields-pure _ tt
  with_model-Yields id (ok model) =
      Yields-if (is_empty model.sha) _ _ (λ t. Yields-pure none tt)
        λ t.
          Yields-bind _ _ (Yields-any (attempt (get_config_at_revision h c id model.sha)))
            λ found u. Yields-pure _ (
              by_estimate-Fitting model (or_no_config found) vram _
                (λ est e. of_estimate found est e))
    where
      of_estimate :
          (found : Result Fields) (est : Estimate)
          → estimate_model model (or_no_config found) context_tokens ≡ ok est
          → est.quantization ≡ detect_quantization model (or_no_config found)
      of_estimate found est e =
          estimate_model-quantization model (or_no_config found) context_tokens est e

  examine-Yields : (m : Model) → Yields (Fitting vram) (examine {D = D} h c vram context_tokens m)
  unfolding examine
  examine-Yields m =
      Yields-bind _ _ (Yields-any (attempt (get_model h c m.id))) (λ r u. with_model-Yields m.id r)

  keep_or_skip-Yields :
      (left : ℕ) (found : Option Suggestion)
      (skipped kept : Action (World D h.Os) (List Suggestion))
      → Fitting vram found
      → Yields (Suggested vram (suc left)) skipped
      → Yields (Suggested vram left) kept
      → Yields (Suggested vram (suc left)) (keep_or_skip h c vram context_tokens found skipped kept)
  unfolding keep_or_skip
  keep_or_skip-Yields left none skipped kept f s k = s
  keep_or_skip-Yields left (some x) skipped kept f s k =
      Yields-bind _ _ k (λ rest y. Yields-pure _ (omega (arith, y.0), (f, y.1)))

  examine_each-Yields :
      (left : ℕ) (ms : List Model)
      → Yields (Suggested vram left) (examine_each {D = D} h c vram context_tokens left ms)
  unfolding examine_each
  examine_each-Yields zero ms = Yields-pure _ (omega arith, tt)
  examine_each-Yields (suc left) [] = Yields-pure _ (omega arith, tt)
  examine_each-Yields (suc left) (m ∷ ms) = Yields-bind _ _ (examine-Yields m) λ found f.
      keep_or_skip-Yields left found _ _ f (examine_each-Yields (suc left) ms)
        (examine_each-Yields left ms)

  suggest-Yields :
      (sort : (Model → Model → Bool) → List Model → List Model) (base_id : Text)
      → Yields (Suggested vram 5) (suggest_quantized {D = D} h c vram context_tokens sort base_id)
  unfolding suggest_quantized
  suggest-Yields sort base_id =
      Yields-bind _ _
        (Yields-any (search_each h c vram context_tokens (short_name base_id) variant_queries))
        (λ results u. examine_each-Yields max_suggestions _)

-- `SuggestQuantized` returns at most five suggestions, and each is of a quantized model whose verdict, that of its
-- estimate for the given memory, is not TOO_BIG, whatever the hub answers and however the candidates are ordered.
pub suggest_quantized-Suggested :
    {D : Type 0} (h : Host) (c : Client) (vram context_tokens : ℕ)
    (sort : (Model → Model → Bool) → List Model → List Model) (base_id : Text) (w : World D h.Os)
    (l : List Suggestion)
    → (suggest_quantized h c vram context_tokens sort base_id w).0 ≡ ok l
    → Suggested vram 5 l
suggest_quantized-Suggested h c vram context_tokens sort base_id w l e =
    Yields_ok _ (suggest-Yields h c vram context_tokens sort base_id) w l e

-- A model that may be fetched for a base model with key `base` and a name in lower case.
pub record IsEligible (short : Text) (seen : List Text) (m : Model) : Type 0 where
  pub fresh : one_of (to_lower m.id) seen ≡ false
  pub named : contains_text (to_lower m.id) short ≡ true
  pub servable : servable_by_vllm m ≡ true

-- No two identifiers are the same but for case.
abbrev pub AllDistinct : List Model → Type 0
AllDistinct [] = Unit
AllDistinct (m ∷ ms) = All (λ n. to_lower n.id ≢ to_lower m.id) ms × AllDistinct ms
