-- ===== src/Planner/Suggest/Keeps.antt =====
-- Searching for variants only asks: it leaves alone what does not depend on the system.
use iold.Base.{ℕ, zero, suc, List, [], ◌∷◌, Bool, Text, Option, none, some}
use iold.Fault.{Result, ok, err}
use iold.Action.{Action}
use iold.Action.Keeps.{Keeps, Keeps-pure, Keeps-bind, Keeps-if, Keeps-attempt}
use iold.Host.{Host}
use iold.World.{World}
use iold.Hub.{Client, Model}
use iold.Hub.Requests.Keeps.{get_model-Keeps, get_config-Keeps, search_models-Keeps}
use iold.Planner.Suggest.{
  Suggestion, with_model, examine, keep_or_skip, examine_each, search_each, suggest_quantized,
  short_name, variant_queries, max_suggestions,
}
use iold.Supervisor.Identity.Indifferent.{IsIndifferent}

module _ {D : Type 0} (h : Host) (P : World D h.Os → Type 0) (i : IsIndifferent h P) (c : Client)
    (vram tokens : ℕ) where
  with_model-Keeps : (id : Text) (r : Result Model) → Keeps P (with_model h c vram tokens id r)
  unfolding with_model
  with_model-Keeps id (err f) = Keeps-pure _
  with_model-Keeps id (ok model) =
      Keeps-if _ _ _ (Keeps-pure none) (
        Keeps-bind _ _ (Keeps-attempt _ (get_config-Keeps h P i c id model.sha))
          (λ f. Keeps-pure _))

  examine-Keeps : (m : Model) → Keeps P (examine h c vram tokens m)
  unfolding examine
  examine-Keeps m =
      Keeps-bind _ _ (Keeps-attempt _ (get_model-Keeps h P i c m.id)) (λ r. with_model-Keeps m.id r)

  keep_or_skip-Keeps :
      (o : Option Suggestion) (a b : Action (World D h.Os) (List Suggestion))
      → Keeps P a
      → Keeps P b
      → Keeps P (keep_or_skip h c vram tokens o a b)
  unfolding keep_or_skip
  keep_or_skip-Keeps none a b ka kb = ka
  keep_or_skip-Keeps (some s) a b ka kb = Keeps-bind _ _ kb (λ rest. Keeps-pure _)

  examine_each-Keeps : (left : ℕ) (ms : List Model) → Keeps P (examine_each h c vram tokens left ms)
  unfolding examine_each
  examine_each-Keeps zero ms = Keeps-pure _
  examine_each-Keeps (suc left) [] = Keeps-pure _
  examine_each-Keeps (suc left) (m ∷ ms) = Keeps-bind _ _ (examine-Keeps m) (λ o.
      keep_or_skip-Keeps o _ _ (examine_each-Keeps (suc left) ms) (examine_each-Keeps left ms))

  search_each-Keeps :
      (short : Text) (queries : List Text) → Keeps P (search_each h c vram tokens short queries)
  unfolding search_each
  search_each-Keeps short [] = Keeps-pure _
  search_each-Keeps short (q ∷ qs) =
      Keeps-bind _ _ (search_models-Keeps h P i c _ _)
        (λ r. Keeps-bind _ _ (search_each-Keeps short qs) (λ rest. Keeps-pure _))

  pub suggest-Keeps :
      (sort : (Model → Model → Bool) → List Model → List Model) (base_id : Text)
      → Keeps P (suggest_quantized h c vram tokens sort base_id)
  unfolding suggest_quantized
  suggest-Keeps sort base_id =
      Keeps-bind _ _ (search_each-Keeps (short_name base_id) variant_queries)
        (λ r. examine_each-Keeps max_suggestions _)
