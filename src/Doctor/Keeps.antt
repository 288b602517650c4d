-- ===== src/Doctor/Keeps.antt =====
-- The doctor only asks: it leaves alone what does not depend on the system.
use iold.Base.{ℕ, List, [], ◌∷◌, Text}
use iold.Fault.{Result}
use iold.Action.Keeps.{Keeps, Keeps-pure, Keeps-bind}
use iold.Host.{Host}
use iold.World.{World}
use iold.Doctor.System.{Gpu, Probes}
use iold.Doctor.{Requirements, network_checks, run}
use iold.Supervisor.Identity.Indifferent.{IsIndifferent}

module _ {D : Type 0} (h : Host) (P : World D h.Os → Type 0) (i : IsIndifferent h P)
    (p : Probes h.Os) where
  network_checks-Keeps : (endpoints : List Text) → Keeps P (network_checks p endpoints)
  unfolding network_checks
  network_checks-Keeps [] = Keeps-pure _
  network_checks-Keeps (endpoint ∷ more) =
      Keeps-bind _ _ (i.asks (Result (Unit {0})) (p.check_endpoint endpoint))
        (λ a. Keeps-bind _ _ (network_checks-Keeps more) (λ rest. Keeps-pure _))

  pub run-Keeps : (req : Requirements) → Keeps P (run p req)
  unfolding run
  run-Keeps req = Keeps-bind _ _ (i.asks (Result (List Gpu)) p.gpus) λ gpus.
      Keeps-bind _ _ (i.asks (Result ℕ) (p.disk_free_bytes req.cache_dir))
        λ free. Keeps-bind _ _ (network_checks-Keeps req.endpoints) (λ n. Keeps-pure _)
