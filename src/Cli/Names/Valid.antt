-- ===== src/Cli/Names/Valid.antt =====
-- `deploymentID` gives a valid identifier for every reference.
use iold.Base.{
  ℕ, ◌≡◌, refl, Bool, true, false, [], ◌∷◌, ◌++◌, Text, codes, arith, Bool-cases, inl, inr,
  is_empty, ◌&&◌, ◌||◌, not, contains_text, has_prefix, length, leb, if◌then◌else◌,
}
use iold.Cli.Names.{
  is_first, is_later, every, matches_valid_id, is_valid_id, is_digit, candidate_id, deployment_id,
}

-- What `randomHex` writes.
abbrev pub is_hex : ℕ → Bool
is_hex c = is_digit c || (leb b'a' c && leb c b'f')

later_hex : (s : Text) → every is_hex s ≡ true → every is_later s ≡ true
unfolding every is_later is_first
later_hex [] e = refl
later_hex (c ∷ s) e = ground (arith, e, later_hex s (ground (arith, e)))

dotless : (s : Text) → every is_hex s ≡ true → contains_text s (codes "..") ≡ false
unfolding every contains_text has_prefix
dotless [] e = refl
dotless (c ∷ s) e = ground (arith, e, dotless s (ground (arith, e)))

fallback_valid :
    (random : Text)
    → every is_hex random ≡ true
    → length random ≡ 8
    → is_valid_id (codes "deployment-" ++ random) ≡ true
unfolding is_valid_id matches_valid_id every is_later is_first contains_text has_prefix
fallback_valid random e n = rw (later_hex random e, dotless random e, n) refl

-- If `randomHex` writes eight hexadecimal digits, `deploymentID` gives a valid identifier for every
-- reference, so a new deployment always owns paths.
pub deployment_id_lem :
    (random ref : Text)
    → every is_hex random ≡ true
    → length random ≡ 8
    → is_valid_id (deployment_id random ref) ≡ true
unfolding deployment_id candidate_id
deployment_id_lem random ref e n = by_name (candidate_id ref)
  where
    by_name :
        (id : Text)
        → is_valid_id
            (if is_empty id || not (is_valid_id id) then codes "deployment-" ++ random else id)
          ≡ true
    by_name id = elim (Bool-cases (is_empty id || not (is_valid_id id))) [
      | inl bad ↦ rw bad (fallback_valid random e n)
      | inr good ↦ rw good (ground (arith, good))
    ]
