-- ===== src/Cli/Plan.antt =====
-- `runPlan` of internal/cli/plan.go. What it prints is the estimate, the verdict and the suggestions, which
-- the model returns.
pub mod Keeps
use iold.Base.{
  ℕ, ◌*◌, ◌==◌, lt64, is_positive, wrap, not, ◌&&◌, ◌||◌, Bool, true, false, List, [], ◌∷◌, Text,
  codes, text_eq, is_empty, atoi, Option, none, some, if◌then◌else◌,
}
use iold.Fault.{Fault, Result, ok, err, usage, wrapped, auth_required, system_failed}
use iold.Action.{Action, pure, raise, catch, attempt, ◌>>=◌, ◌>>◌}
use iold.Host.{Host}
use iold.World.{World, ask}
use iold.Hub.{Client, Model}
use iold.Hub.Requests.{get_model, get_config_at_revision}
use iold.Doctor.System.{Gpu, Probes}
use iold.Planner.Estimate.{
  Estimate, Verdict, fits, tight, too_big, default_context_tokens, estimate_model, assess,
}
use iold.Planner.Suggest.{Suggestion, suggest_quantized}
use iold.Cli.Args.{is_name}
use iold.Cli.Deploy.Cache.{lift}
use iold.Cli.Deploy.Resolve.{validate_revision, unless_missing}

pub record PlanArgs : Type 0 where
  pub model_id : Text
  pub context_tokens : ℕ
  pub vram_gib : ℕ

-- `strconv.Atoi` of a value that has to be positive.
positive : Text → Option ℕ
positive value = elim (atoi value) [ none ↦ none | some n ↦ if is_positive n then some n else none ]

with_context : PlanArgs → Option ℕ → Option PlanArgs
with_context a none = none
with_context a (some n) = some (record a { context_tokens = n })

with_vram : PlanArgs → Option ℕ → Option PlanArgs
with_vram a none = none
with_vram a (some n) = some (record a { vram_gib = n })

-- One flag with its value, or `none`.
with_flag : PlanArgs → Text → Text → Option PlanArgs
unfolding positive with_context with_vram
with_flag a flag value =
    if text_eq flag (codes "--context")
    then with_context a (positive value)
    else with_vram a (positive value)

abbrev is_flag : Text → Bool
is_flag arg = text_eq arg (codes "--context") || text_eq arg (codes "--vram")

then_more : Option PlanArgs → (PlanArgs → Option PlanArgs) → Option PlanArgs
then_more none k = none
then_more (some a) k = k a

unfoldable pub plan_args : List Text → PlanArgs → Option PlanArgs
unfolding with_flag then_more
plan_args [] a = if is_empty a.model_id then none else some a
plan_args (arg ∷ []) a =
    if is_flag arg
    then none
    else if is_name a.model_id arg
    then (if is_empty arg then none else some (record a { model_id = arg }))
    else none
plan_args (arg ∷ value ∷ more) a =
    let flagged = then_more (with_flag a arg value) (plan_args more) in
    let named = plan_args (value ∷ more) (record a { model_id = arg }) in
    if is_flag arg then flagged else if is_name a.model_id arg then named else none

most_memory : ℕ → List Gpu → ℕ
most_memory m [] = m
most_memory m (gpu ∷ gpus) = most_memory (if lt64 m gpu.vram_mib then gpu.vram_mib else m) gpus

detected : Result (List Gpu) → Result ℕ
unfolding most_memory
detected (err f) = err system_failed
detected (ok []) = err system_failed
detected (ok (gpu ∷ gpus)) = ok (most_memory 0 (gpu ∷ gpus))

pub record Plan : Type 0 where
  pub estimate : Estimate
  pub verdict : Verdict
  pub suggestions : List Suggestion

abbrev is_too_big : Verdict → Bool
is_too_big too_big = true
is_too_big _ = false

module _ {D : Type 0} (h : Host) (p : Probes h.Os) (c : Client)
    (sort : (Model → Model → Bool) → List Model → List Model) where
  -- The memory that --vram gives, or the most that a GPU of the host has.
  plan_vram : ℕ → Action (World D h.Os) ℕ
  unfolding detected
  plan_vram vram_gib =
      if wrap (vram_gib * 1024) == 0
      then (do answer ← ask p.gpus; lift h (detected answer))
      else pure (wrap (vram_gib * 1024))

  by_verdict : PlanArgs → ℕ → Estimate → Verdict → Action (World D h.Os) Plan
  by_verdict a vram est verdict =
      if is_too_big verdict
      then (do
        suggestions ←
            catch (suggest_quantized h c vram a.context_tokens sort a.model_id)
              (λ f. raise (wrapped (codes "variant search failed") f))
        pure (record { estimate = est; verdict = verdict; suggestions = suggestions }))
      else pure (record { estimate = est; verdict = verdict; suggestions = [] })

  unfoldable pub plan_model : PlanArgs → Action (World D h.Os) Plan
  unfolding plan_vram by_verdict
  plan_model a = do
    vram ← plan_vram a.vram_gib
    model ← get_model h c a.model_id
    if model.gated.is_gated && is_empty c.token then raise auth_required else pure tt
    lift h (validate_revision model.sha)
    found ← attempt (get_config_at_revision h c a.model_id model.sha)
    cfg ← lift h (unless_missing found)
    est ← lift h (estimate_model model cfg a.context_tokens)
    by_verdict a vram est (assess est vram)

  by_plan_args : Option PlanArgs → Action (World D h.Os) Plan
  by_plan_args none = raise usage
  by_plan_args (some a) = plan_model a

  unfoldable pub run_plan : List Text → Action (World D h.Os) Plan
  unfolding by_plan_args
  run_plan args = by_plan_args (
      plan_args args
        (record { model_id = []; context_tokens = default_context_tokens; vram_gib = 0 }))
