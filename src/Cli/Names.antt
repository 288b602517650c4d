-- ===== src/Cli/Names.antt =====
-- Deployment IDs: `validateID` of internal/cli/cli.go and `deploymentID` of internal/cli/deploy.go.
-- Text is ASCII.
pub mod Valid
use iold.Base.{
  ℕ, zero, suc, ◌+◌, ◌&&◌, ◌||◌, ◌==◌, leb, ltb, not, Bool, true, false, [], ◌∷◌, ◌++◌, Text, codes,
  contains_text, is_empty, to_lower, length, if◌then◌else◌, drop_while, reverse, map, Option, none,
  some,
}

abbrev pub is_lower : ℕ → Bool
is_lower c = leb b'a' c && leb c b'z'

abbrev pub is_upper : ℕ → Bool
is_upper c = leb b'A' c && leb c b'Z'

abbrev pub is_digit : ℕ → Bool
is_digit c = leb b'0' c && leb c b'9'

abbrev pub is_mark : ℕ → Bool
is_mark c = c == b'.' || c == b'_' || c == b'-'

-- [a-zA-Z0-9]
unfoldable pub is_first : ℕ → Bool
is_first c = is_lower c || is_upper c || is_digit c

-- [a-zA-Z0-9._-]
unfoldable pub is_later : ℕ → Bool
unfolding is_first
is_later c = is_first c || is_mark c

unfoldable pub every : (ℕ → Bool) → Text → Bool
every p [] = true
every p (c ∷ s) = p c && every p s

-- `^[a-zA-Z0-9][a-zA-Z0-9._-]{0,63}$`
unfoldable pub matches_valid_id : Text → Bool
unfolding is_first is_later every
matches_valid_id [] = false
matches_valid_id (c ∷ s) = is_first c && every is_later s && leb (length s) 63

-- `validateID(id) == nil`
unfoldable pub is_valid_id : Text → Bool
unfolding matches_valid_id
is_valid_id id = matches_valid_id id && not (contains_text id (codes ".."))

-- [a-z0-9._-]
unfoldable pub is_plain : ℕ → Bool
is_plain c = is_lower c || is_digit c || is_mark c

-- `idSanitizer.ReplaceAllString(s, "-")`: each run of other bytes becomes one dash.
unfoldable pub sanitize : (in_run : Bool) → Text → Text
sanitize in_run [] = []
sanitize in_run (c ∷ s) =
    let rest = sanitize (not (is_plain c)) s in
    if is_plain c then c ∷ rest else if in_run then rest else b'-' ∷ rest

-- `strings.Trim(s, "-._")`
unfoldable pub trim_marks : Text → Text
unfolding drop_while
trim_marks s = reverse (drop_while is_mark (reverse (drop_while is_mark s)))

unfoldable pub take : ℕ → Text → Text
take zero s = []
take (suc n) [] = []
take (suc n) (c ∷ s) = c ∷ take n s

-- What stands behind the first slash, or the whole text.
unfoldable pub behind_slash : Text → Option Text
behind_slash [] = none
behind_slash (c ∷ s) = let rest = behind_slash s in if c == b'/' then some s else rest

abbrev or_whole : Option Text → Text → Text
or_whole none s = s
or_whole (some t) s = t

unfoldable pub shortened : Text → Text
unfolding take
shortened id = if ltb 64 (length id) then take 64 id else id

unfoldable pub candidate_id : Text → Text
unfolding behind_slash to_lower sanitize trim_marks shortened
candidate_id ref =
    shortened (trim_marks (sanitize false (to_lower (or_whole (behind_slash ref) ref))))

-- `random` is `randomHex(4)`.
unfoldable pub deployment_id : (random : Text) → Text → Text
unfolding candidate_id is_valid_id
deployment_id random ref =
    let id = candidate_id ref in
    if is_empty id || not (is_valid_id id) then codes "deployment-" ++ random else id
