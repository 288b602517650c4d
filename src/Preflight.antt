-- ===== src/Preflight.antt =====
-- internal/preflight/preflight.go: the one validation of the host before a deployment.
pub mod Facts
pub mod Keeps
use iold.Base.{
  ℕ, ◌+◌, ◌/◌, ◌^◌, ◌==◌, ltb, lt64, is_positive, not, Bool, true, false, ◌&&◌, ◌||◌, List, [], ◌∷◌,
  ◌++◌, Text, is_empty, Option, none, some, if◌then◌else◌,
}
use iold.Fault.{Fault, Result, ok, err, checks_failed}
use iold.Action.{Action, pure, raise, ◌>>=◌}
use iold.Host.{Host}
use iold.World.{World, ask}
use iold.Doctor.{driver_major}
use iold.Doctor.System.{Gpu, Probes}
use iold.Supervisor.Ports.{reserves, allocate_port}

pub record Spec : Type 0 where
  pub runtime_binary : Text
  pub cache_dir : Text
  pub endpoint : Text
  pub min_driver_major : ℕ
  pub min_compute_major : ℕ
  pub min_vram_mib : ℕ
  pub min_disk_gib : ℕ
  pub preferred_port : ℕ
  pub reserved_ports : List ℕ
  pub releasable_ports : List ℕ

-- The messages that are gathered.
pub data Failure : Type 0 where
  no_gpu bad_driver old_driver low_compute low_vram no_disk low_disk unreachable_endpoint : Failure
  no_runtime missing_runtime invalid_port no_port : Failure

abbrev pub when : Bool → Failure → List Failure
when true f = f ∷ []
when false f = []

unfoldable pub driver_failures : Spec → Option ℕ → List Failure
driver_failures spec none = bad_driver ∷ []
driver_failures spec (some major) = when (lt64 major spec.min_driver_major) old_driver

unfoldable pub gpu_failures : Spec → Result (List Gpu) → List Failure
unfolding driver_failures
gpu_failures spec (err f) = no_gpu ∷ []
gpu_failures spec (ok []) = no_gpu ∷ []
gpu_failures spec (ok (gpu ∷ gpus)) =
    (if is_positive spec.min_driver_major
      then driver_failures spec (driver_major gpu.driver_version)
      else [])
    ++ (when (lt64 gpu.compute_cap_major spec.min_compute_major) low_compute
        ++ when (lt64 gpu.vram_mib spec.min_vram_mib) low_vram)

unfoldable pub disk_failures : Spec → Result ℕ → List Failure
disk_failures spec (err f) = no_disk ∷ []
disk_failures spec (ok free) = when (ltb (free / 2 ^ 30) spec.min_disk_gib) low_disk

endpoint_failures : Result (Unit {0}) → List Failure
endpoint_failures (err f) = unreachable_endpoint ∷ []
endpoint_failures (ok u) = []

abbrev chosen : Option ℕ → List Failure × ℕ
chosen none = (no_port ∷ [], 0)
chosen (some port) = ([], port)

-- A preferred port outside of 1 to 65535.
abbrev pub is_invalid_port : ℕ → Bool
is_invalid_port port = not (is_positive port) || ltb 65535 port

abbrev pub is_released : Spec → Bool
is_released spec =
    reserves spec.releasable_ports spec.preferred_port
    && not (reserves spec.reserved_ports spec.preferred_port)

verdict : List Failure × ℕ → Result ℕ
verdict ([], port) = ok port
verdict (f ∷ fs, port) = err checks_failed

module _ {D : Type 0} (h : Host) (p : Probes h.Os) (spec : Spec) where
  check_disk : Action (World D h.Os) (List Failure)
  check_disk =
      if is_positive spec.min_disk_gib
      then (do free ← ask (p.disk_free_bytes spec.cache_dir); pure (disk_failures spec free))
      else pure []

  check_endpoint : Action (World D h.Os) (List Failure)
  unfolding endpoint_failures
  check_endpoint =
      if is_empty spec.endpoint
      then pure []
      else (do answer ← ask (p.check_endpoint spec.endpoint); pure (endpoint_failures answer))

  check_runtime : Action (World D h.Os) (List Failure)
  check_runtime = if is_empty spec.runtime_binary then pure (no_runtime ∷ []) else (do
    found ← ask (h.look_path spec.runtime_binary)
    pure (when (not found) missing_runtime))

  unfoldable pub choose_port : Action (World D h.Os) (List Failure × ℕ)
  choose_port =
      if is_invalid_port spec.preferred_port
      then pure (invalid_port ∷ [], 0)
      else if is_released spec
      then pure ([], spec.preferred_port)
      else (do
        free ← ask h.free_ports
        pure (chosen (allocate_port free spec.preferred_port spec.reserved_ports)))

  returned : Result ℕ → Action (World D h.Os) ℕ
  returned (ok port) = pure port
  returned (err f) = raise f

  -- Every failure is gathered before the verdict.
  unfoldable pub gathered : Action (World D h.Os) (List Failure × ℕ)
  unfolding check_disk check_endpoint check_runtime choose_port
  gathered = do
    gpus ← ask p.gpus
    disk ← check_disk
    endpoint ← check_endpoint
    runtime ← check_runtime
    port ← choose_port
    pure (gpu_failures spec gpus ++ (disk ++ (endpoint ++ (runtime ++ port.0))), port.1)

  unfoldable pub run : Action (World D h.Os) ℕ
  unfolding gathered returned verdict
  run = do found ← gathered; returned (verdict found)
