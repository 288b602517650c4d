-- ===== src/Cli/Paths/Inside.antt =====
-- A valid identifier is one plain path segment, so the paths that a deployment owns stand directly in
-- the directories for them.
use iold.Base.{
  ℕ, ◌≡◌, refl, sym, ◌∙◌, ◌==◌, ◌&&◌, ◌||◌, not, Bool, true, false, List, [], ◌∷◌, ◌++◌, Text,
  codes, text_eq, text_eq_refl, is_empty, split, split_from, All, reverse, flat_map, arith,
  if◌then◌else◌, Bool-cases, inl, inr,
}
use mathlib.Core.List.{reverse-cons, append_assoc, append-nil}
use iold.Fault.{ok, err, invalid_id}
use iold.Cli.Names.{is_first, is_later, every, matches_valid_id, is_valid_id}
use iold.Cli.Paths.{
  clean_from, starts_under, safe_child_path, Dirs, checked_id, log_file_name, owned_paths,
}

-- A segment that filepath.Clean keeps as it is.
abbrev pub is_kept : Text → Bool
is_kept s = not (is_empty s || text_eq s (codes ".")) && not (text_eq s (codes ".."))

-- A cleaned path.
abbrev pub IsClean : List Text → Type 0
IsClean path = All (λ s. is_kept s ≡ true) path

reverse-shift {ℓ} :
    {A : Type ℓ} (x : A) (l m : List A) → reverse (x ∷ l) ++ m ≡ reverse l ++ (x ∷ m)
reverse-shift x l m = rw (reverse-cons x l) (append_assoc (reverse l) (x ∷ []) m)

clean_from-kept :
    (kept path : List Text) → IsClean path → clean_from kept path ≡ reverse kept ++ path
unfolding clean_from
clean_from-kept kept [] c = sym (append-nil (reverse kept))
clean_from-kept kept (s ∷ path) c =
    let a : (is_empty s || text_eq s (codes ".")) ≡ false = ground (arith, c.0) in
    let b : text_eq s (codes "..") ≡ false = ground (arith, c.0) in
    rw (a, b) (clean_from-kept (s ∷ kept) path c.1 ∙ reverse-shift s kept path)

starts_under-append : (base more : List Text) → starts_under base (base ++ more) ≡ true
unfolding starts_under
starts_under-append [] more = refl
starts_under-append (b ∷ base) more = ground (arith, text_eq_refl b, starts_under-append base more)

-- Without a separator there is one part.
split_from-plain :
    (part s : Text) → every is_later s ≡ true → split_from b'/' part s ≡ (reverse part ++ s) ∷ []
unfolding split_from every is_later is_first
split_from-plain part [] e = rw (append-nil (reverse part)) refl
split_from-plain part (c ∷ s) e =
    let a : (c == b'/') ≡ false = ground (arith, e) in
    let b : every is_later s ≡ true = ground (arith, e) in
    rw a (split_from-plain (c ∷ part) s b ∙ rw (reverse-shift c part s) refl)

-- One path segment, which Clean keeps.
pub record IsSegment (s : Text) : Type 0 where
  pub plain : every is_later s ≡ true
  pub kept : is_kept s ≡ true

flat_map-plain : (es : List Text) → All IsSegment es → flat_map (split b'/') es ≡ es
unfolding split mathlib.Core.List.flat_map
flat_map-plain [] a = refl
flat_map-plain (e ∷ es) a = rw (split_from-plain [] e a.0.plain, flat_map-plain es a.1) refl

All-kept : (es : List Text) → All IsSegment es → IsClean es
All-kept [] a = tt
All-kept (e ∷ es) a = (a.0.kept, All-kept es a.1)

IsClean-append : (base es : List Text) → IsClean base → IsClean es → IsClean (base ++ es)
IsClean-append [] es b c = c
IsClean-append (s ∷ base) es b c = (b.0, IsClean-append base es b.1 c)

safe_child_path-plain :
    (base es : List Text)
    → IsClean base
    → All IsSegment es
    → safe_child_path base es ≡ ok (base ++ es)
unfolding safe_child_path
safe_child_path-plain base es b a =
    rw
      (
        flat_map-plain es a,
        clean_from-kept [] (base ++ es) (IsClean-append base es b (All-kept es a)),
        starts_under-append base es,
      )
      refl

every-append :
    (s t : Text)
    → every is_later s ≡ true
    → every is_later t ≡ true
    → every is_later (s ++ t) ≡ true
unfolding every
every-append [] t a b = b
every-append (c ∷ s) t a b = ground (arith, every-append s t (ground (arith, a)) b)

first_is_later : (c : ℕ) → is_first c ≡ true → is_later c ≡ true
unfolding is_later is_first
first_is_later c e = ground (arith, e)

-- Text that begins as an identifier and goes on as one is a segment.
begun : (c : ℕ) (s : Text) → is_first c ≡ true → every is_later s ≡ true → IsSegment (c ∷ s)
unfolding every is_later is_first text_eq
begun c s e f = record { plain = ground (arith, e, f); kept = ground (arith, e) }

parts :
    (c : ℕ) (s : Text)
    → is_valid_id (c ∷ s) ≡ true
    → (is_first c ≡ true) × (every is_later s ≡ true)
unfolding is_valid_id matches_valid_id
parts c s v = (ground (arith, v), ground (arith, v))

pub valid-IsSegment : (id : Text) → is_valid_id id ≡ true → IsSegment id
unfolding is_valid_id matches_valid_id
valid-IsSegment [] v = absurd (ground (arith, v))
valid-IsSegment (c ∷ s) v = let (a, b) = parts c s v in begun c s a b

pub log-IsSegment : (id : Text) → is_valid_id id ≡ true → IsSegment (log_file_name id)
unfolding is_valid_id matches_valid_id every is_later is_first
log-IsSegment [] v = absurd (ground (arith, v))
log-IsSegment (c ∷ s) v =
    let (a, b) = parts c s v in begun c (s ++ codes ".log") a (every-append s (codes ".log") b refl)

named-IsSegment : IsSegment (codes "logs") × IsSegment (codes "deployments")
unfolding every is_later is_first text_eq
named-IsSegment = (record { plain = refl; kept = refl }, record { plain = refl; kept = refl })

-- For a valid identifier the paths that a deployment owns are its log file and its directory, directly
-- under logs and deployments of a cleaned state directory; an invalid identifier owns none.
pub owned_paths_lem :
    (dirs : Dirs) (id : Text)
    → IsClean dirs.state_dir
    → owned_paths dirs id ≡ (
        if is_valid_id id
        then ok (
            (dirs.state_dir ++ codes "logs" ∷ log_file_name id ∷ [])
            ∷ (dirs.state_dir ++ codes "deployments" ∷ id ∷ [])
            ∷ [])
        else err (invalid_id id))
unfolding owned_paths checked_id
owned_paths_lem dirs id c = elim (Bool-cases (is_valid_id id)) [
  | inl v ↦
      rw
        (
          v,
          safe_child_path-plain dirs.state_dir (codes "logs" ∷ log_file_name id ∷ []) c
              (named-IsSegment.0, (log-IsSegment id v, tt)),
          safe_child_path-plain dirs.state_dir (codes "deployments" ∷ id ∷ []) c
              (named-IsSegment.1, (valid-IsSegment id v, tt)),
        )
        refl
  | inr v ↦ rw v refl
]
