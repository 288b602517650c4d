-- ===== src/Doctor.antt =====
-- internal/doctor: what the host is asked, and the report on it. Numbers that `Atoi` reads are bit
-- patterns of 64 bits. The details of the checks are texts for the user and are left out, and so is
-- the minor compute capability, which stands only in them.
pub mod System
pub mod Facts
pub mod Keeps
use iold.Base.{
  ℕ, ◌+◌, ◌*◌, ◌/◌, ◌^◌, ◌==◌, ltb, lt64, wrap, not, Bool, true, false, ◌&&◌, List, [], ◌∷◌, ◌++◌,
  map, Text, codes, contains_text, before_byte, trim_space, atoi, Option, none, some, if◌then◌else◌,
}
use iold.Fault.{Fault, Result, ok, err}
use iold.Action.{Action, pure, ◌>>=◌}
use iold.World.{World, ask}
use System.{Gpu, Probes}

pub data Status : Type 0 where
  pass warn fail : Status

pub record Requirements : Type 0 where
  pub expected_gpu_name : Text
  pub min_compute_major : ℕ
  pub min_driver_major : ℕ
  pub min_vram_gib : ℕ
  pub min_disk_free_gib : ℕ
  pub cache_dir : Text
  pub endpoints : List Text

abbrev pub default_requirements : Text → Requirements
default_requirements cache_dir = record {
  expected_gpu_name = codes "RTX PRO 6000";
  min_compute_major = 10;
  min_driver_major = 570;
  min_vram_gib = 32;
  min_disk_free_gib = 100;
  cache_dir = cache_dir;
  endpoints = codes "https://huggingface.co" ∷ [];
}

pub data CheckName : Type 0 where
  nvidia_driver gpu_model gpu_architecture vram disk network : CheckName

pub record Check : Type 0 where
  pub name : CheckName
  pub status : Status

abbrev pub check : CheckName → Status → Check
check n s = record { name = n; status = s }

abbrev pub is_fail : Status → Bool
is_fail fail = true
is_fail _ = false

-- `Report.OK`
unfoldable pub report_ok : List Check → Bool
report_ok [] = true
report_ok (c ∷ cs) = not (is_fail c.status) && report_ok cs

unfoldable pub driver_major : Text → Option ℕ
driver_major version = atoi (trim_space (before_byte b'.' version))

abbrev pub pass_unless : Bool → Status
pass_unless true = fail
pass_unless false = pass

driver_status : Option ℕ → ℕ → Status
driver_status none least = fail
driver_status (some major) least = pass_unless (lt64 major least)

unfoldable pub driver_check : Gpu → Requirements → Check
unfolding driver_status
driver_check gpu req =
    check nvidia_driver (driver_status (driver_major gpu.driver_version) req.min_driver_major)

unfoldable pub gpu_checks : Result (List Gpu) → Requirements → List Check
unfolding driver_check
gpu_checks (err f) req = check nvidia_driver fail ∷ []
gpu_checks (ok []) req = check nvidia_driver fail ∷ []
gpu_checks (ok (gpu ∷ gpus)) req =
    driver_check gpu req
    ∷ check gpu_model (if contains_text gpu.name req.expected_gpu_name then pass else warn)
    ∷ check gpu_architecture (pass_unless (lt64 gpu.compute_cap_major req.min_compute_major))
    ∷ check vram (pass_unless (lt64 gpu.vram_mib (wrap (req.min_vram_gib * 1024))))
    ∷ []

unfoldable pub disk_check : Result ℕ → Requirements → Check
disk_check (err f) req = check disk fail
disk_check (ok free) req = check disk (pass_unless (ltb (free / 2 ^ 30) req.min_disk_free_gib))

unfoldable pub network_check : Result (Unit {0}) → Check
network_check (err f) = check network fail
network_check (ok u) = check network pass

module _ {D O : Type 0} (p : Probes O) where
  unfoldable pub network_checks : List Text → Action (World D O) (List Check)
  network_checks [] = pure []
  network_checks (endpoint ∷ more) = do
    answer ← ask (p.check_endpoint endpoint)
    rest ← network_checks more
    pure (network_check answer ∷ rest)

  -- `Run`: every check is made, whatever the others say.
  unfoldable pub run : Requirements → Action (World D O) (List Check)
  unfolding network_checks
  run req = do
    gpus ← ask p.gpus
    free ← ask (p.disk_free_bytes req.cache_dir)
    networks ← network_checks req.endpoints
    pure (gpu_checks gpus req ++ disk_check free req ∷ networks)
