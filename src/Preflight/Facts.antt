-- ===== src/Preflight/Facts.antt =====
-- What a passed preflight says of the host, and that a fit host passes.
use iold.Base.{
  ℕ, ◌+◌, ◌≤◌, ◌<◌, ◌≡◌, refl, lt64, is_positive, not, Bool, true, false, List, [], ◌∷◌, ◌++◌,
  is_empty, Option, none, some, arith, sym, ◌∙◌, false≢true, ◌⊎◌, inl, inr, Option-cases,
  if◌then◌else◌,
}
use iold.Fault.{Result, ok, err}
use iold.Action.Yields.{
  Yields, Yields-pure, Yields-raise, Yields-bind, Yields-if, Yields-ask, Yields_ok, Answers,
}
use iold.Host.{Host}
use iold.World.{World}
use iold.Doctor.{driver_major}
use iold.Doctor.System.{Gpu, Probes}
use iold.Doctor.Facts.{Drives, Leads, Stores}
use iold.Supervisor.Ports.{reserves, allocate_port, allocate_port-Usable}
use iold.Preflight.{
  Spec, Failure, when, driver_failures, gpu_failures, disk_failures, endpoint_failures, chosen,
  is_invalid_port, is_released, verdict, check_disk, check_endpoint, check_runtime, choose_port,
  returned, gathered, run,
}

append_nil : (a b : List Failure) → a ++ b ≡ [] → (a ≡ []) × (b ≡ [])
append_nil [] b e = (refl, e)
append_nil (x ∷ a) b e = cc

when_nil : (b : Bool) (f : Failure) → when b f ≡ [] → b ≡ false
when_nil true f e = cc
when_nil false f e = refl

-- A driver is asked for only where a least one is given.
abbrev pub Driver : Spec → Gpu → Type 0
Driver spec gpu = is_positive spec.min_driver_major ≡ true → Drives spec.min_driver_major gpu

driver_fine :
    (spec : Spec) (gpu : Gpu)
    → driver_failures spec (driver_major gpu.driver_version) ≡ []
    → Drives spec.min_driver_major gpu
unfolding driver_failures
driver_fine spec gpu e = elim (Option-cases (driver_major gpu.driver_version)) [
  | inl n ↦ absurd (ground (arith, n))
  | inr (major, m) ↦ record { major = major; reads = m; enough = ground (arith, m) }
]

gpu_fine :
    (spec : Spec) (answer : Result (List Gpu))
    → gpu_failures spec answer ≡ []
    → Leads spec.min_compute_major spec.min_vram_mib (Driver spec) answer
unfolding gpu_failures
gpu_fine spec (err f) e = cc
gpu_fine spec (ok []) e = cc
gpu_fine spec (ok (gpu ∷ gpus)) e =
    let driver =
      if is_positive spec.min_driver_major
      then driver_failures spec (driver_major gpu.driver_version)
      else [] in
    let (a, r) = append_nil driver _ e in
    let (b, c) =
      append_nil (when (lt64 gpu.compute_cap_major spec.min_compute_major) Failure.low_compute) _
        r in
    record {
      gpu = gpu;
      others = gpus;
      is = refl;
      drives = λ t. driver_fine spec gpu (ground (arith, a));
      computes = when_nil _ _ b;
      holds = when_nil _ _ c;
    }

disk_fine :
    (spec : Spec) (answer : Result ℕ)
    → disk_failures spec answer ≡ []
    → Stores spec.min_disk_gib answer
unfolding disk_failures
disk_fine spec (err f) e = cc
disk_fine spec (ok free) e = record { free = free; is = refl; enough = ground arith }

module _ (h : Host) (p : Probes h.Os) (spec : Spec) where
  -- The port is the preferred one, which an owner releases, or a usable one of the window behind it.
  abbrev pub Granted : ℕ → Type 0
  Granted port =
      ((port ≡ spec.preferred_port) × (is_released spec ≡ true))
      ⊎ ((spec.preferred_port ≤ port)
          × (port < spec.preferred_port + 100)
          × (reserves spec.reserved_ports port ≡ false)
          × ((free : ℕ → Bool) × Answers h.free_ports free × (free port ≡ true)))

  -- What was answered, each in some state.
  pub record IsAdmitted (port : ℕ) : Type 0 where
    pub gpus : Result (List Gpu)
    pub asked_gpus : Answers p.gpus gpus
    pub leads : Leads spec.min_compute_major spec.min_vram_mib (Driver spec) gpus
    pub stores :
        is_positive spec.min_disk_gib ≡ true
        → (free : Result ℕ) × Answers (p.disk_free_bytes spec.cache_dir) free
          × Stores spec.min_disk_gib free
    pub reaches : is_empty spec.endpoint ≡ false → Answers (p.check_endpoint spec.endpoint) (ok tt)
    pub runtime_named : is_empty spec.runtime_binary ≡ false
    pub runtime_found : Answers (h.look_path spec.runtime_binary) true
    pub valid : is_invalid_port spec.preferred_port ≡ false
    pub granted : Granted port

  abbrev Stored : List Failure → Type 0
  Stored fs =
      fs ≡ []
      → is_positive spec.min_disk_gib ≡ true
      → (free : Result ℕ) × Answers (p.disk_free_bytes spec.cache_dir) free
        × Stores spec.min_disk_gib free

  abbrev Reached : List Failure → Type 0
  Reached fs =
      fs ≡ [] → is_empty spec.endpoint ≡ false → Answers (p.check_endpoint spec.endpoint) (ok tt)

  abbrev Found : List Failure → Type 0
  Found fs =
      fs ≡ []
      → (is_empty spec.runtime_binary ≡ false) × Answers (h.look_path spec.runtime_binary) true

  abbrev Chosen : List Failure × ℕ → Type 0
  Chosen c = c.0 ≡ [] → (is_invalid_port spec.preferred_port ≡ false) × Granted c.1

  disk-Yields : {D : Type 0} → Yields Stored (check_disk {D = D} h p spec)
  unfolding check_disk
  disk-Yields =
      Yields-if _ _ _
        (λ t.
          Yields-bind _ _ (Yields-ask (p.disk_free_bytes spec.cache_dir))
            λ free a. Yields-pure _ (λ e u. (free, a, disk_fine spec free e)))
        (λ t. Yields-pure _ (λ e u. absurd (false≢true (sym t ∙ u))))

  endpoint_fine :
      (answer : Result (Unit {0}))
      → Answers (p.check_endpoint spec.endpoint) answer
      → Reached (endpoint_failures answer)
  unfolding endpoint_failures
  endpoint_fine (err f) a e t = cc
  endpoint_fine (ok u) a e t = a

  endpoint-Yields : {D : Type 0} → Yields Reached (check_endpoint {D = D} h p spec)
  unfolding check_endpoint
  endpoint-Yields =
      Yields-if _ _ _ (λ t. Yields-pure _ (λ e u. absurd (false≢true (sym u ∙ t))))
        (λ t.
          Yields-bind _ _ (Yields-ask (p.check_endpoint spec.endpoint))
            λ answer a. Yields-pure _ (endpoint_fine answer a))

  runtime-Yields : {D : Type 0} → Yields Found (check_runtime {D = D} h p spec)
  unfolding check_runtime
  runtime-Yields =
      Yields-if _ _ _ (λ t. Yields-pure _ (λ e. absurd (cc)))
        (λ t.
          Yields-bind _ _ (Yields-ask (h.look_path spec.runtime_binary))
            λ found a. Yields-pure _ (λ e. (t, (a.0, found_true found a.1 e))))
    where
      found_true :
          (found : Bool) {o : h.Os}
          → (h.look_path spec.runtime_binary o).0 ≡ found
          → when (not found) Failure.missing_runtime ≡ []
          → (h.look_path spec.runtime_binary o).0 ≡ true
      found_true true e q = e
      found_true false e q = cc

  port_fine :
      (free : ℕ → Bool) (o : Option ℕ)
      → Answers h.free_ports free
      → allocate_port free spec.preferred_port spec.reserved_ports ≡ o
      → (chosen o).0 ≡ []
      → Granted (chosen o).1
  port_fine free none a e q = cc
  port_fine free (some port) a e q =
      let (lo, hi, u) = allocate_port-Usable free spec.preferred_port spec.reserved_ports port e in
      inr (lo, hi, u.0, (free, a, u.1))

  port-Yields : {D : Type 0} → Yields Chosen (choose_port {D = D} h p spec)
  unfolding choose_port
  port-Yields =
      Yields-if _ _ _ (λ t. Yields-pure _ (λ e. absurd (cc)))
        λ t.
          Yields-if _ _ _ (λ r. Yields-pure _ (λ e. (t, inl (refl, r))))
            λ r.
              Yields-bind _ _ (Yields-ask h.free_ports)
                λ free a. Yields-pure _ (λ e. (t, port_fine free _ a refl e))

  gathered-Yields :
      {D : Type 0} → Yields (λ c. c.0 ≡ [] → IsAdmitted c.1) (gathered {D = D} h p spec)
  unfolding gathered
  gathered-Yields = Yields-bind _ _ (Yields-ask p.gpus) λ gpus a.
      Yields-bind _ _ disk-Yields λ disk b. Yields-bind _ _ endpoint-Yields λ endpoint c.
        Yields-bind _ _ runtime-Yields λ runtime d. Yields-bind _ _ port-Yields λ port f.
          Yields-pure _ λ e.
            let (g, r) = append_nil (gpu_failures spec gpus) _ e in
            let (g', r') = append_nil disk _ r in
            let (g'', r'') = append_nil endpoint _ r' in
            let (g''', r''') = append_nil runtime _ r'' in
            record {
              gpus = gpus;
              asked_gpus = a;
              leads = gpu_fine spec gpus g;
              stores = b g';
              reaches = c g'';
              runtime_named = (d g''').0;
              runtime_found = (d g''').1;
              valid = (f r''').0;
              granted = (f r''').1;
            }

  verdict-Yields :
      {D : Type 0} (c : List Failure × ℕ)
      → (c.0 ≡ [] → IsAdmitted c.1)
      → Yields IsAdmitted (returned {D = D} h p spec (verdict c))
  unfolding returned verdict
  verdict-Yields ([], port) k = Yields-pure _ (k refl)
  verdict-Yields (f ∷ fs, port) k = Yields-raise _

  pub run-Yields : {D : Type 0} → Yields IsAdmitted (run {D = D} h p spec)
  unfolding run
  run-Yields = Yields-bind _ _ gathered-Yields (λ c k. verdict-Yields c k)

-- A preflight that passes has found the host fit: the first GPU that was listed has the compute capability, the
-- memory and, where one is asked for, the driver; where it is asked for, the disk has the space and the endpoint
-- answered; the runtime was found; the preferred port lies between 1 and 65535, and the port that is
-- returned is the preferred one, which a replaced deployment releases, or one of the 100 from it on that is
-- not reserved and was free.
pub run-IsAdmitted :
    {D : Type 0} (h : Host) (p : Probes h.Os) (spec : Spec) (w : World D h.Os) (port : ℕ)
    → (run h p spec w).0 ≡ ok port
    → IsAdmitted h p spec port
run-IsAdmitted h p spec w port e = Yields_ok _ (run-Yields h p spec) w port e
