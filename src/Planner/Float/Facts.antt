-- ===== src/Planner/Float/Facts.antt =====
-- How far rounding goes, and that it leaves small numbers alone.
use iold.Base.{
  ℕ, zero, suc, ◌+◌, ◌-◌, ◌*◌, ◌/◌, ◌%◌, ◌^◌, ◌==◌, ◌≤◌, ◌<◌, ◌≡◌, refl, ap, ◌∙◌, ltb, ◌&&◌, ◌||◌,
  ◌⊎◌, inl, inr, Bool, true, false, Bool-cases, arith, if◌then◌else◌,
}
use iold.Planner.Float.{ulp_from, ulp, nearest, round64}

-- The last bit is one, or there are 53 significant bits.
abbrev Significant : ℕ → ℕ → Type 0
Significant p n = (p ≡ 1) ⊎ ((1 ≤ p) × (2 ^ 52 * p ≤ n))

ulp_from-Significant : (fuel p n : ℕ) → Significant p n → Significant (ulp_from fuel p n) n
unfolding ulp_from
ulp_from-Significant zero p n s = s
ulp_from-Significant (suc fuel) p n s = elim (Bool-cases (ltb n (2 ^ 53 * p))) [
  | inl t ↦ rw t s
  | inr t ↦ rw t (ulp_from-Significant fuel (2 * p) n (inr (doubled s, ground (arith, t))))
]
  where
    doubled : Significant p n → 1 ≤ 2 * p
    doubled (inl e) = omega (arith, e)
    doubled (inr (l, k)) = omega (arith, l)

-- The unit after all doublings.
abbrev cap : ℕ → ℕ → ℕ
cap zero p = p
cap (suc fuel) p = cap fuel (2 * p)

-- With enough fuel, `n` has no more than 53 bits in the unit.
ulp_from-fits : (fuel p n : ℕ) → n < 2 ^ 53 * cap fuel p → n < 2 ^ 53 * ulp_from fuel p n
unfolding ulp_from
ulp_from-fits zero p n l = l
ulp_from-fits (suc fuel) p n l = elim (Bool-cases (ltb n (2 ^ 53 * p))) [
  | inl t ↦ rw t (ground (arith, t))
  | inr t ↦ rw t (ulp_from-fits fuel (2 * p) n l)
]

pub ulp-fits : (n : ℕ) → n < 2 ^ 253 → n < 2 ^ 53 * ulp n
unfolding ulp
ulp-fits n l = ulp_from-fits 200 1 n l

-- What rounding adds or takes away is at most one part in 2 ^ 53.
pub record Near (n r : ℕ) : Type 0 where
  pub above : 2 ^ 53 * r ≤ (2 ^ 53 + 1) * n
  pub below : (2 ^ 53 - 1) * n ≤ 2 ^ 53 * r

Near-by :
    (n p q r : ℕ)
    → n ≡ q + r
    → r < p
    → Significant p n
    → (b : Bool) → (b ≡ true → p ≤ 2 * r)
    → (b ≡ false → 2 * r ≤ p)
    → Near n (if b then q + p else q)
Near-by n p q r e l (inl o) true u d = absurd (omega (arith, u refl, l, o))
Near-by n p q r e l (inl o) false u d = record {
  above = omega (arith, e, l, o);
  below = omega (arith, e, l, o);
}
Near-by n p q r e l (inr (k, s)) true u d = record {
  above = omega (arith, e, l, s, u refl);
  below = omega (arith, e, l, s, u refl);
}
Near-by n p q r e l (inr (k, s)) false u d = record {
  above = omega (arith, e, l, s, d refl);
  below = omega (arith, e, l, s, d refl);
}

positive : (n p : ℕ) → Significant p n → 1 ≤ p
positive n p (inl e) = omega (arith, e)
positive n p (inr (l, k)) = l

nearest-Near : (n p : ℕ) → Significant p n → Near n (nearest n p)
unfolding nearest
nearest-Near n p s =
    Near-by n p (n / p * p) (n % p) (omega arith) (omega (arith, positive n p s)) s
      (ltb p (2 * (n % p)) || 2 * (n % p) == p && (n / p) % 2 == 1) (λ t. ground (arith, t))
      (λ t. ground (arith, t))

pub round64-Near : (n : ℕ) → Near n (round64 n)
unfolding round64 ulp
round64-Near n = nearest-Near n (ulp n) (ulp_from-Significant 200 1 n (inl refl))

ulp_from-stops : (fuel p n : ℕ) → n < 2 ^ 53 * p → ulp_from (suc fuel) p n ≡ p
unfolding ulp_from
ulp_from-stops fuel p n l = let t : ltb n (2 ^ 53 * p) ≡ true = ground (arith, l) in rw t refl

ulp-small : (n : ℕ) → n < 2 ^ 53 → ulp n ≡ 1
unfolding ulp
ulp-small n l = ulp_from-stops 199 1 n l

nearest-one : (n : ℕ) → nearest n 1 ≡ n
unfolding nearest
nearest-one n = ground arith

-- Whole numbers of 53 bits are float64 numbers.
pub round64-small : (n : ℕ) → n < 2 ^ 53 → round64 n ≡ n
unfolding round64
round64-small n l = ap (nearest n) (ulp-small n l) ∙ nearest-one n
