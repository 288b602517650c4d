-- ===== src/Hub/Wire.antt =====
-- What survives the way to the wire and back, and what resolving a config settles.
use iold.Base.{
  ◌==◌, ◌≡◌, refl, not, Bool, true, false, [], ◌∷◌, some, arith, Bool-cases, inl, inr, ◌∙◌, subst,
}
use mathlib.Core.Option.{some-injective}
use iold.Hub.{
  Gated, Json, json_null, json_other, json_bool, json_string, unmarshal_gated, marshal_gated,
  Fields, Config, flat, nested, inheriting, resolved,
}

again :
    (a g : Gated)
    → unmarshal_gated (marshal_gated a) ≡ some a
    → some a ≡ some g
    → unmarshal_gated (marshal_gated g) ≡ some g
again a g h e = subst (λ x. unmarshal_gated (marshal_gated x) ≡ some x) (some-injective _ _ e) h

-- Whatever value of `gated` was read, writing it and reading it again gives the same value.
pub unmarshal_gated-marshal_gated :
    (j : Json) (g : Gated) → unmarshal_gated j ≡ some g → unmarshal_gated (marshal_gated g) ≡ some g
unfolding unmarshal_gated marshal_gated
unmarshal_gated-marshal_gated json_null g e = again _ g refl e
unmarshal_gated-marshal_gated (json_bool true) g e = again _ g refl e
unmarshal_gated-marshal_gated (json_bool false) g e = again _ g refl e
unmarshal_gated-marshal_gated (json_string []) g e = again _ g refl e
unmarshal_gated-marshal_gated (json_string (c ∷ s)) g e = again _ g refl e
unmarshal_gated-marshal_gated json_other g e = cc

-- Nothing is nested, or the layers stand beside what is.
abbrev is_settled : Config → Bool
is_settled (flat f) = true
is_settled (nested f c) = not (f.num_hidden_layers == 0)

inheriting-is_settled : (f : Fields) (c : Config) → is_settled (inheriting f c) ≡ is_settled c
inheriting-is_settled f (flat g) = refl
inheriting-is_settled f (nested g c) = refl

resolved-is_settled : (c : Config) → is_settled (resolved c) ≡ true
unfolding resolved
resolved-is_settled (flat f) = refl
resolved-is_settled (nested f c) = elim (Bool-cases (f.num_hidden_layers == 0)) [
  | inl e ↦ rw e (inheriting-is_settled f (resolved c) ∙ resolved-is_settled c)
  | inr e ↦ rw (e, e) refl
]

settled_stays : (c : Config) → is_settled c ≡ true → resolved c ≡ c
unfolding resolved
settled_stays (flat f) s = refl
settled_stays (nested f c) s =
    let e : (f.num_hidden_layers == 0) ≡ false = ground (arith, s) in rw e refl

-- Resolving a config twice is resolving it once: a config that was resolved has nothing nested that
-- could replace its layers.
pub resolved_lem : (c : Config) → resolved (resolved c) ≡ resolved c
resolved_lem c = settled_stays (resolved c) (resolved-is_settled c)
