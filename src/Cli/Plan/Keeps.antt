-- ===== src/Cli/Plan/Keeps.antt =====
-- Planning only asks: it leaves alone what does not depend on the system.
use iold.Base.{ℕ, ◌*◌, ◌==◌, wrap, List, Bool, Text, Option, none, some}
use iold.Fault.{Result}
use iold.Action.Keeps.{
  Keeps, Keeps-pure, Keeps-raise, Keeps-bind, Keeps-if, Keeps-catch, Keeps-attempt,
}
use iold.Host.{Host}
use iold.World.{World}
use iold.Hub.{Client, Model}
use iold.Hub.Requests.Keeps.{get_model-Keeps, get_config-Keeps}
use iold.Doctor.System.{Gpu, Probes}
use iold.Planner.Estimate.{Estimate, Verdict}
use iold.Planner.Suggest.Keeps.{suggest-Keeps}
use iold.Supervisor.Identity.Indifferent.{IsIndifferent}
use iold.Cli.Deploy.Cache.Facts.{lift-Keeps}
use iold.Cli.Plan.{PlanArgs, plan_vram, by_verdict, is_too_big, plan_model, by_plan_args, run_plan}

module _ {D : Type 0} (h : Host) (P : World D h.Os → Type 0) (i : IsIndifferent h P)
    (p : Probes h.Os) (c : Client) (sort : (Model → Model → Bool) → List Model → List Model) where
  plan_vram-Keeps : (gib : ℕ) → Keeps P (plan_vram h p c sort gib)
  unfolding plan_vram
  plan_vram-Keeps gib =
      Keeps-if (wrap (gib * 1024) == 0) _ _
        (Keeps-bind _ _ (i.asks (Result (List Gpu)) p.gpus) (λ answer. lift-Keeps h P i _))
        (Keeps-pure (wrap (gib * 1024)))

  by_verdict-Keeps :
      (a : PlanArgs) (vram : ℕ) (est : Estimate) (v : Verdict)
      → Keeps P (by_verdict h p c sort a vram est v)
  unfolding by_verdict
  by_verdict-Keeps a vram est v =
      Keeps-if (is_too_big v) _ _
        (Keeps-bind _ _
          (Keeps-catch _ _ (suggest-Keeps h P i c vram a.context_tokens sort a.model_id)
            (λ f. Keeps-raise _))
          (λ l. Keeps-pure _))
        (Keeps-pure _)

  plan_model-Keeps : (a : PlanArgs) → Keeps P (plan_model h p c sort a)
  unfolding plan_model
  plan_model-Keeps a = Keeps-bind _ _ (plan_vram-Keeps a.vram_gib) λ vram.
      Keeps-bind _ _ (get_model-Keeps h P i c a.model_id) λ model.
        Keeps-bind _ _ (Keeps-if _ _ _ (Keeps-raise _) (Keeps-pure _)) λ u.
          Keeps-bind _ _ (lift-Keeps h P i _) λ u.
            Keeps-bind _ _ (Keeps-attempt _ (get_config-Keeps h P i c a.model_id model.sha))
              λ found.
                Keeps-bind _ _ (lift-Keeps h P i _)
                  λ cfg. Keeps-bind _ _ (lift-Keeps h P i _) λ est. by_verdict-Keeps a vram est _

  by_plan_args-Keeps : (o : Option PlanArgs) → Keeps P (by_plan_args h p c sort o)
  unfolding by_plan_args
  by_plan_args-Keeps none = Keeps-raise _
  by_plan_args-Keeps (some a) = plan_model-Keeps a

  pub run_plan-Keeps : (args : List Text) → Keeps P (run_plan h p c sort args)
  unfolding run_plan
  run_plan-Keeps args = by_plan_args-Keeps _
