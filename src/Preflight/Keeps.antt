-- ===== src/Preflight/Keeps.antt =====
-- The preflight only asks: it leaves alone what does not depend on the system.
use iold.Base.{ℕ, Bool, List, [], ◌∷◌}
use iold.Fault.{Result, ok, err}
use iold.Action.Keeps.{Keeps, Keeps-pure, Keeps-raise, Keeps-bind, Keeps-if}
use iold.Host.{Host}
use iold.World.{World}
use iold.Doctor.System.{Gpu, Probes}
use iold.Supervisor.Identity.Indifferent.{IsIndifferent}
use iold.Supervisor.Ports.{allocate_port}
use iold.Preflight.{
  Spec, check_disk, check_endpoint, check_runtime, choose_port, returned, gathered, verdict, run,
  is_invalid_port, is_released, chosen, invalid_port,
}

module _ {D : Type 0} (h : Host) (P : World D h.Os → Type 0) (i : IsIndifferent h P)
    (p : Probes h.Os) (spec : Spec) where
  check_disk-Keeps : Keeps P (check_disk h p spec)
  unfolding check_disk
  check_disk-Keeps =
      Keeps-if _ _ _
        (Keeps-bind _ _ (i.asks (Result ℕ) (p.disk_free_bytes spec.cache_dir)) (λ f. Keeps-pure _))
        (Keeps-pure _)

  check_endpoint-Keeps : Keeps P (check_endpoint h p spec)
  unfolding check_endpoint
  check_endpoint-Keeps = Keeps-if _ _ _ (Keeps-pure _) (
      Keeps-bind _ _ (i.asks (Result (Unit {0})) (p.check_endpoint spec.endpoint))
        (λ f. Keeps-pure _))

  check_runtime-Keeps : Keeps P (check_runtime h p spec)
  unfolding check_runtime
  check_runtime-Keeps =
      Keeps-if _ _ _ (Keeps-pure _)
        (Keeps-bind _ _ (i.asks Bool (h.look_path spec.runtime_binary)) (λ f. Keeps-pure _))

  choose_port-Keeps : Keeps P (choose_port h p spec)
  unfolding choose_port
  choose_port-Keeps =
      Keeps-if (is_invalid_port spec.preferred_port) _ _ (Keeps-pure (invalid_port ∷ [], 0)) (
        Keeps-if (is_released spec) _ _ (Keeps-pure ([], spec.preferred_port)) (
          Keeps-bind _ _ (i.asks (ℕ → Bool) h.free_ports) (λ free.
            Keeps-pure (chosen (allocate_port free spec.preferred_port spec.reserved_ports)))))

  returned-Keeps : (r : Result ℕ) → Keeps P (returned h p spec r)
  unfolding returned
  returned-Keeps (ok port) = Keeps-pure _
  returned-Keeps (err f) = Keeps-raise _

  pub run-Keeps : Keeps P (run h p spec)
  unfolding run gathered
  run-Keeps =
      Keeps-bind _ _
        (Keeps-bind _ _ (i.asks (Result (List Gpu)) p.gpus) λ gpus.
          Keeps-bind _ _ check_disk-Keeps λ disk. Keeps-bind _ _ check_endpoint-Keeps λ endpoint.
            Keeps-bind _ _ check_runtime-Keeps
              λ runtime. Keeps-bind _ _ choose_port-Keeps (λ port. Keeps-pure _))
        (λ found. returned-Keeps (verdict found))
