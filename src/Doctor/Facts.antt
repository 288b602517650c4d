-- ===== src/Doctor/Facts.antt =====
-- A report without a failed check means that the host was found fit.
use iold.Base.{
  ℕ, ◌+◌, length-append, ◌*◌, ◌/◌, ◌^◌, ◌≤◌, ◌≡◌, refl, ap, lt64, wrap, true, false, List, [], ◌∷◌,
  ◌++◌, length, All, Text, some, arith, inl, inr, Option-cases,
}
use iold.Fault.{Result, ok, err}
use iold.Action.{pure, ◌>>=◌}
use iold.Action.Yields.{
  Yields, Yields-pure, Yields-bind, Yields-ask, Yields_ok, Answers, bind_of_ok,
}
use iold.World.{World, ask}
use iold.Doctor.System.{Gpu, Probes}
use iold.Doctor.{
  Requirements, Check, is_fail, report_ok, driver_major, driver_status, driver_check, gpu_checks,
  disk_check, network_check, network_checks, run,
}

-- The version of the driver can be read, and is not below the least one.
pub record Drives (least : ℕ) (gpu : Gpu) : Type 0 where
  pub major : ℕ
  pub reads : driver_major gpu.driver_version ≡ some major
  pub enough : lt64 major least ≡ false

-- The first GPU has the compute capability and the memory.
pub record Leads (compute memory : ℕ) (driver : Gpu → Type 0) (answer : Result (List Gpu))
    : Type 0 where
  pub gpu : Gpu
  pub others : List Gpu
  pub is : answer ≡ ok (gpu ∷ others)
  pub drives : driver gpu
  pub computes : lt64 gpu.compute_cap_major compute ≡ false
  pub holds : lt64 gpu.vram_mib memory ≡ false

-- The bytes are known, and make the least number of GiB.
pub record Stores (least : ℕ) (answer : Result ℕ) : Type 0 where
  pub free : ℕ
  pub is : answer ≡ ok free
  pub enough : least ≤ free / 2 ^ 30

driver_Drives :
    (gpu : Gpu) (least : ℕ)
    → is_fail (driver_status (driver_major gpu.driver_version) least) ≡ false
    → Drives least gpu
unfolding driver_status
driver_Drives gpu least e = elim (Option-cases (driver_major gpu.driver_version)) [
  | inl n ↦ absurd (ground (arith, n))
  | inr (major, m) ↦ record { major = major; reads = m; enough = ground (arith, m) }
]

report_append :
    (a b : List Check) → report_ok (a ++ b) ≡ true → (report_ok a ≡ true) × (report_ok b ≡ true)
unfolding report_ok
report_append [] b e = (refl, e)
report_append (c ∷ a) b e = ground (arith, report_append a b)

gpu_checks-Leads :
    (answer : Result (List Gpu)) (req : Requirements)
    → report_ok (gpu_checks answer req) ≡ true
    → Leads req.min_compute_major
        (wrap (req.min_vram_gib * 1024))
        (Drives req.min_driver_major)
        answer
unfolding report_ok gpu_checks driver_check
gpu_checks-Leads (err f) req e = cc
gpu_checks-Leads (ok []) req e = cc
gpu_checks-Leads (ok (gpu ∷ gpus)) req e = record {
  gpu = gpu;
  others = gpus;
  is = refl;
  drives = driver_Drives gpu req.min_driver_major (ground arith);
  computes = ground arith;
  holds = ground arith;
}

disk_check-Stores :
    (answer : Result ℕ) (req : Requirements)
    → is_fail (disk_check answer req).status ≡ false
    → Stores req.min_disk_free_gib answer
unfolding disk_check
disk_check-Stores (err f) req e = cc
disk_check-Stores (ok free) req e = record { free = free; is = refl; enough = ground arith }

network_ok :
    (answer : Result (Unit {0})) → is_fail (network_check answer).status ≡ false → answer ≡ ok tt
unfolding network_check
network_ok (err f) e = cc
network_ok (ok u) e = refl

module _ {O : Type 0} (p : Probes O) where
  abbrev pub Reaches : Text → Type 0
  Reaches endpoint = Answers (p.check_endpoint endpoint) (ok tt)

  -- What the probes answered, each in some state.
  pub record IsFit (req : Requirements) : Type 0 where
    pub gpus : Result (List Gpu)
    pub asked_gpus : Answers p.gpus gpus
    pub leads :
        Leads req.min_compute_major
          (wrap (req.min_vram_gib * 1024))
          (Drives req.min_driver_major)
          gpus
    pub free : Result ℕ
    pub asked_free : Answers (p.disk_free_bytes req.cache_dir) free
    pub stores : Stores req.min_disk_free_gib free
    pub reaches : All Reaches req.endpoints

  abbrev AllReach : List Text → List Check → Type 0
  AllReach endpoints checks = report_ok checks ≡ true → All Reaches endpoints

module _ {D O : Type 0} (p : Probes O) where
  network_checks_yield :
      (endpoints : List Text) → Yields (AllReach p endpoints) (network_checks {D = D} p endpoints)
  unfolding network_checks report_ok
  network_checks_yield [] = Yields-pure _ (λ e. tt)
  network_checks_yield (endpoint ∷ more) =
      Yields-bind _ _ (Yields-ask (p.check_endpoint endpoint)) λ answer a.
        Yields-bind _ _ (network_checks_yield more)
          λ rest r. Yields-pure _ (λ e. (reached answer a (ground arith), r (ground arith)))
    where
      reached :
          (answer : Result (Unit {0}))
          → Answers (p.check_endpoint endpoint) answer
          → is_fail (network_check answer).status ≡ false
          → Reaches p endpoint
      reached answer (o, is) e = (o, cc (network_ok answer e))

  run-Yields :
      (req : Requirements) → Yields (λ cs. report_ok cs ≡ true → IsFit p req) (run {D = D} p req)
  unfolding run report_ok
  run-Yields req = Yields-bind _ _ (Yields-ask p.gpus) λ gpus a.
      Yields-bind _ _ (Yields-ask (p.disk_free_bytes req.cache_dir)) λ free b.
        Yields-bind _ _ (network_checks_yield req.endpoints) λ networks c.
          Yields-pure _
            (λ e. fit gpus free networks a b c (report_append (gpu_checks gpus req) _ e))
    where
      fit :
          (gpus : Result (List Gpu)) (free : Result ℕ) (networks : List Check)
          → Answers p.gpus gpus
          → Answers (p.disk_free_bytes req.cache_dir) free
          → AllReach p req.endpoints networks
          → (report_ok (gpu_checks gpus req) ≡ true)
            × (report_ok (disk_check free req ∷ networks) ≡ true)
          → IsFit p req
      fit gpus free networks a b c (e, f) = record {
        gpus = gpus;
        asked_gpus = a;
        leads = gpu_checks-Leads gpus req e;
        free = free;
        asked_free = b;
        stores = disk_check-Stores free req (ground arith);
        reaches = c (ground arith);
      }

-- Where the report has no failed check the host is fit: the first GPU that was listed has a driver, a compute
-- capability and a memory that are not below the requirements, the disk has the free space, and every
-- endpoint answered.
pub run-IsFit :
    {D O : Type 0} (p : Probes O) (req : Requirements) (w : World D O) (checks : List Check)
    → (run p req w).0 ≡ ok checks
    → report_ok checks ≡ true
    → IsFit p req
run-IsFit p req w checks e r = Yields_ok _ (run-Yields p req) w checks e r

network_checks_total :
    {D O : Type 0} (p : Probes O) (endpoints : List Text) (w : World D O)
    → (checks : List Check) × ((network_checks p endpoints w).0 ≡ ok checks)
      × (length checks ≡ length endpoints)
unfolding network_checks ◌>>=◌ ask pure
network_checks_total p [] w = ([], refl, refl)
network_checks_total {D} {O} p (endpoint ∷ more) w =
    let (answer, s) = p.check_endpoint endpoint w.os in
    let (rest, e, n) = network_checks_total p more (record w { os = s }) in
    (
      network_check answer ∷ rest,
      ap (λ (x : Result (List Check) × World D O). x.0)
          (bind_of_ok (network_checks p more) (λ cs. pure (network_check answer ∷ cs))
            (record w { os = s }) rest e),
      omega arith,
    )

-- `doctor.Run` never fails and never stops early: it returns a report, with one check of the driver
-- where no GPU was listed and four where one was, and a check of the disk and one of each endpoint.
pub run-total :
    {D O : Type 0} (p : Probes O) (req : Requirements) (w : World D O)
    → (checks : List Check) × ((run p req w).0 ≡ ok checks)
      × (length checks ≡ length (gpu_checks (p.gpus w.os).0 req) + 1 + length req.endpoints)
unfolding run ◌>>=◌ ask pure
run-total {D} {O} p req w =
    let (gpus, s) = p.gpus w.os in
    let (free, s') = p.disk_free_bytes req.cache_dir s in
    let (rest, e, n) = network_checks_total p req.endpoints (record w { os = s' }) in
    (
      gpu_checks gpus req ++ disk_check free req ∷ rest,
      ap (λ (x : Result (List Check) × World D O). x.0)
          (bind_of_ok (network_checks p req.endpoints)
            (λ cs. pure (gpu_checks gpus req ++ disk_check free req ∷ cs)) (record w { os = s' })
            rest e),
      omega (arith, length-append (gpu_checks gpus req) (disk_check free req ∷ rest)),
    )
