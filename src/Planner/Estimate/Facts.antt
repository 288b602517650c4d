-- ===== src/Planner/Estimate/Facts.antt =====
-- What the estimate and the verdict depend on, and how far they can be relied on.
use iold.Base.{
  ℕ, zero, suc, ◌+◌, ◌-◌, ◌*◌, ◌^◌, leb, is_negative, if◌then◌else◌, ◌<◌, ◌≤◌, ◌≡◌, refl, ap, sym,
  ◌∙◌, Bool, true, false, List, [], ◌∷◌, Text, Option, none, some, arith,
}
use mathlib.Core.List.{Permᴰ}
use iold.Fault.{ok}
use iold.Hub.{Model, Fields}
use iold.Planner.Float.{round64}
use iold.Planner.Float.Facts.{round64-Near, round64-small}
use iold.Planner.Quantization.{detect_quantization, quant_eighths}
use iold.Planner.Estimate.{
  Estimate, fits, tight, too_big, weight_from, dtype_eighths, entry_eighths, param_count,
  estimate_census, by_census, estimate_model, usable, comfortable, within, assess, clamp_context,
}

-- The weight without rounding.
unfoldable pub weight_eighths : ℕ → List (Text × ℕ) → ℕ
weight_eighths quant [] = 0
weight_eighths quant ((dtype, count) ∷ more) =
    count * entry_eighths quant dtype + weight_eighths quant more

weight_eighths-Perm :
    (q : ℕ) {c c' : List (Text × ℕ)} → Permᴰ c c' → weight_eighths q c ≡ weight_eighths q c'
unfolding weight_eighths
weight_eighths-Perm q Permᴰ.nil = refl
weight_eighths-Perm q (Permᴰ.cons {a = a} {b = b} e p) =
    cc (weight_eighths-Perm q p, ap (λ (x : Text × ℕ). x.1 * entry_eighths q x.0) e)
weight_eighths-Perm q (Permᴰ.swap {a = a} {b = b} {a' = a'} {b' = b'} e f) = omega (
  arith,
  ap (λ (x : Text × ℕ). x.1 * entry_eighths q x.0) e,
  ap (λ (x : Text × ℕ). x.1 * entry_eighths q x.0) f,
)
weight_eighths-Perm q (Permᴰ.trans p r) = weight_eighths-Perm q p ∙ weight_eighths-Perm q r

entry_positive : (q : ℕ) (dtype : Text) → 1 ≤ entry_eighths q dtype
unfolding entry_eighths dtype_eighths
entry_positive q dtype = ground arith

le_times : (n e : ℕ) → 1 ≤ e → n ≤ n * e
le_times n zero l = absurd (omega (arith, l))
le_times n (suc e) l = omega arith

-- Below 2 ^ 53 eighths no sum is rounded.
weight_from-exact :
    (q w : ℕ) (c : List (Text × ℕ))
    → w + weight_eighths q c < 2 ^ 53
    → weight_from q w c ≡ w + weight_eighths q c
unfolding weight_from weight_eighths
weight_from-exact q w [] l = omega arith
weight_from-exact q w ((dtype, count) ∷ more) l =
    ap (λ x. weight_from q x more) step
    ∙ weight_from-exact q (w + count * entry_eighths q dtype) more (omega (arith, l))
    ∙ (omega arith)
  where
    product : round64 (round64 count * entry_eighths q dtype) ≡ count * entry_eighths q dtype
    product =
        ap (λ x. round64 (x * entry_eighths q dtype))
          (round64-small count (omega (arith, l, le_times count _ (entry_positive q dtype))))
        ∙ round64-small (count * entry_eighths q dtype) (omega (arith, l))

    step :
        round64 (w + round64 (round64 count * entry_eighths q dtype))
        ≡ w + count * entry_eighths q dtype
    step = ap (λ x. round64 (w + x)) product ∙ round64-small _ (omega (arith, l))

weight_from-Perm :
    (q : ℕ) {c c' : List (Text × ℕ)}
    → Permᴰ c c'
    → weight_eighths q c < 2 ^ 53
    → weight_from q 0 c ≡ weight_from q 0 c'
weight_from-Perm q {c} {c'} p l =
    let same = weight_eighths-Perm q p in
    omega (
      arith,
      same,
      weight_from-exact q 0 c (omega (arith, l)),
      weight_from-exact q 0 c' (omega (arith, l, same)),
    )

param_count-Perm : {c c' : List (Text × ℕ)} → Permᴰ c c' → param_count c ≡ param_count c'
unfolding param_count
param_count-Perm Permᴰ.nil = refl
param_count-Perm (Permᴰ.cons {a = a} {b = b} e p) =
    omega (arith, param_count-Perm p, ap (λ (x : Text × ℕ). x.1) e)
param_count-Perm (Permᴰ.swap {a = a} {b = b} {a' = a'} {b' = b'} e f) =
    omega (arith, ap (λ (x : Text × ℕ). x.1) e, ap (λ (x : Text × ℕ). x.1) f)
param_count-Perm (Permᴰ.trans p r) = param_count-Perm p ∙ param_count-Perm r

abbrev is_nil : List (Text × ℕ) → Bool
is_nil [] = true
is_nil (e ∷ es) = false

is_nil-Perm : {c c' : List (Text × ℕ)} → Permᴰ c c' → is_nil c ≡ is_nil c'
is_nil-Perm Permᴰ.nil = refl
is_nil-Perm (Permᴰ.cons e p) = refl
is_nil-Perm (Permᴰ.swap e f) = refl
is_nil-Perm (Permᴰ.trans p r) = is_nil-Perm p ∙ is_nil-Perm r

module _ (model : Model) (cfg : Fields) (tokens : ℕ) where
  estimate_census-Perm :
      {c c' : List (Text × ℕ)}
      → Permᴰ c c'
      → weight_eighths (quant_eighths (detect_quantization model cfg) cfg) c < 2 ^ 53
      → estimate_census model cfg tokens c ≡ estimate_census model cfg tokens c'
  unfolding estimate_census
  estimate_census-Perm p l =
      cc (
        param_count-Perm p,
        weight_from-Perm (quant_eighths (detect_quantization model cfg) cfg) p l,
      )

  -- The estimate reads the name and the tags of a model, and the census that it is given.
  by_census_reads :
      (o c : Option (List (Text × ℕ)))
      → by_census (record model { safetensors = o }) cfg tokens c ≡ by_census model cfg tokens c
  unfolding by_census estimate_census detect_quantization
  by_census_reads o none = refl
  by_census_reads o (some []) = refl
  by_census_reads o (some (e ∷ es)) = refl

  by_census-Perm :
      (c c' : List (Text × ℕ))
      → Permᴰ c c'
      → weight_eighths (quant_eighths (detect_quantization model cfg) cfg) c < 2 ^ 53
      → by_census model cfg tokens (some c) ≡ by_census model cfg tokens (some c')
  unfolding by_census
  by_census-Perm [] [] p l = refl
  by_census-Perm [] (e ∷ es) p l = cc (is_nil-Perm p)
  by_census-Perm (e ∷ es) [] p l = cc (is_nil-Perm p)
  by_census-Perm (e ∷ es) (e' ∷ es') p l = cc (estimate_census-Perm p l)

-- For a census that weighs less than 2 ^ 50 bytes, so that no float64 sum is rounded, the estimate does not depend on the
-- order in which its entries come: Go walks the map in any order.
pub estimate_model-Perm :
    (model : Model) (cfg : Fields) (tokens : ℕ) (c c' : List (Text × ℕ))
    → Permᴰ c c'
    → weight_eighths (quant_eighths (detect_quantization model cfg) cfg) c < 8 * 2 ^ 50
    → estimate_model (record model { safetensors = some c }) cfg tokens
      ≡ estimate_model (record model { safetensors = some c' }) cfg tokens
unfolding estimate_model
estimate_model-Perm model cfg tokens c c' p l =
    let t = clamp_context cfg.max_position_embeddings tokens in
    by_census_reads model cfg t (some c) (some c)
    ∙ by_census-Perm model cfg t c c' p l
    ∙ sym (by_census_reads model cfg t (some c') (some c'))

usable_bounds :
    (v : ℕ)
    → ((2 ^ 51 - 1) * 9437184 * v * 2 ^ 53 ≤ 10 * 2 ^ 51 * usable v)
      × (10 * 2 ^ 51 * usable v ≤ (2 ^ 51 + 1) * 9437184 * v * 2 ^ 53)
unfolding usable
usable_bounds v =
    let m = round64-Near v in
    let u = round64-Near (round64 v * 1048576 * 8106479329266893) in
    (omega (arith, m.below, u.below), omega (arith, m.above, u.above))

comfortable_bounds :
    (v : ℕ)
    → ((2 ^ 51 - 2) * 802160640 * v * 2 ^ 106 ≤ 1000 * 2 ^ 51 * comfortable v)
      × (1000 * 2 ^ 51 * comfortable v ≤ (2 ^ 51 + 2) * 802160640 * v * 2 ^ 106)
unfolding comfortable
comfortable_bounds v =
    let u = usable_bounds v in
    let r = round64-Near (usable v * 7656119366529843) in
    (omega (arith, u.0, r.below), omega (arith, u.1, r.above))

within_small :
    (unit : ℕ) (budget : ℕ → ℕ) (t v : ℕ)
    → t < 2 ^ 63
    → v < 2 ^ 63
    → within unit budget t v ≡ leb (unit * round64 t) (budget v)
within_small unit budget t v ht hv =
    let a : is_negative t ≡ false = ground (arith, ht) in
    let b : is_negative v ≡ false = ground (arith, hv) in rw (a, b) refl

fits_le :
    (t v : ℕ)
    → leb (2 ^ 106 * round64 t) (comfortable v) ≡ true
    → 1000 * 2 ^ 49 * t ≤ (2 ^ 49 + 1) * (765 * 1048576 * v)
fits_le t v e =
    let le : 2 ^ 106 * round64 t ≤ comfortable v = ground (arith, e) in
    omega (arith, le, (round64-Near t).below, (comfortable_bounds v).1)

fits_gt :
    (t v : ℕ)
    → leb (2 ^ 106 * round64 t) (comfortable v) ≡ false
    → (2 ^ 49 - 1) * (765 * 1048576 * v) < 1000 * 2 ^ 49 * t
fits_gt t v e =
    let gt : comfortable v < 2 ^ 106 * round64 t = ground (arith, e) in
    omega (arith, gt, (round64-Near t).above, (comfortable_bounds v).0)

tight_le :
    (t v : ℕ)
    → leb (2 ^ 53 * round64 t) (usable v) ≡ true
    → 10 * 2 ^ 49 * t ≤ (2 ^ 49 + 1) * (9 * 1048576 * v)
tight_le t v e =
    let le : 2 ^ 53 * round64 t ≤ usable v = ground (arith, e) in
    omega (arith, le, (round64-Near t).below, (usable_bounds v).1)

tight_gt :
    (t v : ℕ)
    → leb (2 ^ 53 * round64 t) (usable v) ≡ false
    → (2 ^ 49 - 1) * (9 * 1048576 * v) < 10 * 2 ^ 49 * t
tight_gt t v e =
    let gt : usable v < 2 ^ 53 * round64 t = ground (arith, e) in
    omega (arith, gt, (round64-Near t).above, (usable_bounds v).0)

by_tests :
    {A B B' C : Type 0} (a b : Bool)
    → (a ≡ true → A)
    → (a ≡ false → B')
    → (b ≡ true → B)
    → (b ≡ false → C)
    → ((if a then fits else if b then tight else too_big) ≡ fits → A)
      × ((if a then fits else if b then tight else too_big) ≡ tight → B × B')
      × ((if a then fits else if b then tight else too_big) ≡ too_big → C)
by_tests true b fa fb' fb fc = (λ e. fa refl, λ e. absurd (cc), λ e. absurd (cc))
by_tests false true fa fb' fb fc = (λ e. absurd (cc), λ e. (fb refl, fb' refl), λ e. absurd (cc))
by_tests false false fa fb' fb fc = (λ e. absurd (cc), λ e. absurd (cc), λ e. fc refl)

-- For sizes below 2 ^ 63 and up to one part in 2 ^ 49, by which float64 may be off, the verdict FITS says that the model
-- takes no more than 0.765 of the memory, and TIGHT that it takes no more than 0.9 of it, and too much for FITS; the
-- verdict TOO_BIG says that it takes more than 0.9.
pub assess_bounds :
    (est : Estimate) (vram : ℕ)
    → est.total_bytes < 2 ^ 63
    → vram < 2 ^ 63
    → (assess est vram ≡ fits
        → 1000 * 2 ^ 49 * est.total_bytes ≤ (2 ^ 49 + 1) * (765 * 1048576 * vram))
      × (assess est vram ≡ tight
          → (10 * 2 ^ 49 * est.total_bytes ≤ (2 ^ 49 + 1) * (9 * 1048576 * vram))
            × ((2 ^ 49 - 1) * (765 * 1048576 * vram) < 1000 * 2 ^ 49 * est.total_bytes))
      × (assess est vram ≡ too_big
          → (2 ^ 49 - 1) * (9 * 1048576 * vram) < 10 * 2 ^ 49 * est.total_bytes)
unfolding assess
assess_bounds est vram ht hv =
    let t = est.total_bytes in
    let first = sym (within_small (2 ^ 106) comfortable t vram ht hv) in
    let second = sym (within_small (2 ^ 53) usable t vram ht hv) in
    by_tests (within (2 ^ 106) comfortable t vram) (within (2 ^ 53) usable t vram)
      (λ e. fits_le t vram (first ∙ e)) (λ e. fits_gt t vram (first ∙ e))
      (λ e. tight_le t vram (second ∙ e)) (λ e. tight_gt t vram (second ∙ e))

by_census_quantization :
    (model : Model) (cfg : Fields) (t : ℕ) (o : Option (List (Text × ℕ))) (est : Estimate)
    → by_census model cfg t o ≡ ok est
    → est.quantization ≡ detect_quantization model cfg
unfolding by_census estimate_census
by_census_quantization model cfg t none est e = cc
by_census_quantization model cfg t (some []) est e = cc
by_census_quantization model cfg t (some (x ∷ xs)) est e = cc

pub estimate_model-quantization :
    (model : Model) (cfg : Fields) (tokens : ℕ) (est : Estimate)
    → estimate_model model cfg tokens ≡ ok est
    → est.quantization ≡ detect_quantization model cfg
unfolding estimate_model
estimate_model-quantization model cfg tokens est e =
    by_census_quantization model cfg (clamp_context cfg.max_position_embeddings tokens)
      model.safetensors est e
