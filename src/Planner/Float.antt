-- ===== src/Planner/Float.antt =====
-- Go's float64, as far as internal/planner uses it: numbers that are not negative, each a natural number of
-- some unit that is a power of two. `round64` rounds to the nearest number with 53 significant bits, ties to
-- even; a product of two such numbers is the rounded product, in the product of their units.
pub mod Facts
use iold.Base.{ℕ, zero, suc, ◌+◌, ◌*◌, ◌/◌, ◌%◌, ◌^◌, ◌==◌, ltb, ◌&&◌, ◌||◌, if◌then◌else◌}

-- The weight of the last significant bit of `n`, from `p` on; `fuel` bounds the number of doublings.
unfoldable pub ulp_from : (fuel p n : ℕ) → ℕ
ulp_from zero p n = p
ulp_from (suc fuel) p n =
    let rest = ulp_from fuel (2 * p) n in if ltb n (2 ^ 53 * p) then p else rest

-- Every product of the planner is below 2 ^ 253.
unfoldable pub ulp : ℕ → ℕ
unfolding ulp_from
ulp n = ulp_from 200 1 n

unfoldable pub nearest : (n p : ℕ) → ℕ
nearest n p =
    if ltb p (2 * (n % p)) || 2 * (n % p) == p && (n / p) % 2 == 1 then n / p * p + p else n / p * p

unfoldable pub round64 : ℕ → ℕ
unfolding ulp nearest
round64 n = nearest n (ulp n)
