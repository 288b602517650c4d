-- ===== src/Cli/Deploy/Resolve/Memory.antt =====
-- `requiredVRAMMiB` against the verdict of the planner.
use iold.Base.{ℕ, ◌+◌, ◌*◌, ◌/◌, ◌^◌, ◌≤◌, ◌<◌, ◌≡◌, ◌≢◌, refl, lt64, false, arith}
use iold.Planner.Estimate.{Estimate, Verdict, fits, tight, too_big, assess}
use iold.Planner.Estimate.Facts.{assess_bounds}
use iold.Cli.Deploy.Resolve.{required_vram_mib}

required_vram_mib_small :
    (t : ℕ) → t < 2 ^ 59 → required_vram_mib t ≡ (t * 10 / 9 + 1048575) / 1048576
unfolding required_vram_mib
required_vram_mib_small t ht = ground arith

admitted_bound :
    (est : Estimate) (vram : ℕ)
    → est.total_bytes < 2 ^ 63
    → vram < 2 ^ 63
    → assess est vram ≢ too_big
    → 10 * 2 ^ 49 * est.total_bytes ≤ (2 ^ 49 + 1) * (9 * 1048576 * vram)
admitted_bound est vram ht hv n = by_verdict (assess est vram) refl
  where
    by_verdict :
        (v : Verdict)
        → assess est vram ≡ v
        → 10 * 2 ^ 49 * est.total_bytes ≤ (2 ^ 49 + 1) * (9 * 1048576 * vram)
    by_verdict fits e = omega (arith, (assess_bounds est vram ht hv).0 e)
    by_verdict tight e = ((assess_bounds est vram ht hv).1 e).0
    by_verdict too_big e = absurd (n e)

lt64_small : (v r : ℕ) → v < 2 ^ 63 → r ≤ v → lt64 v r ≡ false
lt64_small v r hv le = ground arith

-- A model that the planner does not find TOO_BIG asks the preflight for no more memory than the planner
-- was told of, for less than 2 ^ 29 MiB of memory and a total that is not negative; there float64 is exact enough.
pub required_vram_mib-le :
    (est : Estimate) (vram : ℕ)
    → est.total_bytes < 2 ^ 63
    → vram < 2 ^ 29
    → assess est vram ≢ too_big
    → lt64 vram (required_vram_mib est.total_bytes) ≡ false
required_vram_mib-le est vram ht hv n =
    let b = admitted_bound est vram ht (omega (arith, hv)) n in
    let small : est.total_bytes < 2 ^ 59 = omega (arith, b, hv) in
    lt64_small vram (required_vram_mib est.total_bytes) (omega (arith, hv))
      (omega (arith, required_vram_mib_small est.total_bytes small, b, hv))
