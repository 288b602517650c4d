-- ===== src/Cli/Paths.antt =====
-- Paths of internal/cli/cli.go. An absolute path is the list of its segments, as filepath.Clean
-- leaves them.
pub mod Inside
use iold.Base.{
  ◌&&◌, ◌||◌, ◌==◌, Bool, true, false, List, [], ◌∷◌, ◌++◌, Text, codes, text_eq, is_empty, split,
  Option, none, some, reverse, flat_map, if◌then◌else◌,
}
use iold.Fault.{Result, ok, err, invalid_id, path_escapes}
use iold.Cli.Names.{is_valid_id}

-- filepath.Clean on the segments of an absolute path; `kept` are those behind, last first.
unfoldable pub clean_from : List Text → List Text → List Text
clean_from kept [] = reverse kept
clean_from kept (s ∷ more) =
    clean_from
      (if is_empty s || text_eq s (codes ".")
        then kept
        else if text_eq s (codes "..")
        then parent kept
        else s ∷ kept)
      more
  where
    parent : List Text → List Text
    parent [] = []
    parent (k ∷ ks) = ks

unfoldable pub starts_under : List Text → List Text → Bool
starts_under [] path = true
starts_under (b ∷ base) [] = false
starts_under (b ∷ base) (p ∷ path) = text_eq b p && starts_under base path

-- `base` is what filepath.Abs returned. A path outside of it is relative to it by a leading "..".
unfoldable pub safe_child_path : List Text → List Text → Result (List Text)
unfolding clean_from starts_under
safe_child_path base elements =
    let path = clean_from [] (base ++ flat_map (split b'/') elements) in
    if starts_under base path then ok path else err path_escapes

-- The text of an absolute path.
unfoldable pub render : List Text → Text
render [] = codes "/"
render (s ∷ []) = b'/' ∷ s
render (s ∷ t ∷ more) = b'/' ∷ s ++ render (t ∷ more)

-- filepath.Clean and filepath.IsAbs of a recorded path.
unfoldable pub clean_path : Text → Option (List Text)
unfolding clean_from
clean_path [] = none
clean_path (c ∷ s) = if c == b'/' then some (clean_from [] (split b'/' s)) else none

-- filepath.Base
unfoldable pub base_is : Text → List Text → Bool
base_is id [] = text_eq id (codes "/")
base_is id (s ∷ []) = text_eq s id
base_is id (s ∷ t ∷ more) = base_is id (t ∷ more)

-- The directories that the environment chooses, as filepath.Abs returns them.
pub record Dirs : Type 0 where
  pub state_dir : List Text
  pub model_cache_dir : List Text

unfoldable pub checked_id : Text → Result Text
checked_id id = if is_valid_id id then ok id else err (invalid_id id)

infixl 10 ◌>>=◌
abbrev ◌>>=◌ {ℓ κ} : {A : Type ℓ} {B : Type κ} → Result A → (A → Result B) → Result B
ok a >>= k = k a
err f >>= k = err f

abbrev pub log_file_name : Text → Text
log_file_name id = id ++ codes ".log"

unfoldable pub log_path : Dirs → Text → Result (List Text)
unfolding checked_id
log_path dirs id = do
  id ← checked_id id
  safe_child_path dirs.state_dir (codes "logs" ∷ log_file_name id ∷ [])

unfoldable pub owned_paths : Dirs → Text → Result (List (List Text))
unfolding checked_id
owned_paths dirs id = do
  id ← checked_id id
  log_file ← safe_child_path dirs.state_dir (codes "logs" ∷ log_file_name id ∷ [])
  deployment_dir ← safe_child_path dirs.state_dir (codes "deployments" ∷ id ∷ [])
  ok (log_file ∷ deployment_dir ∷ [])

unfoldable pub deployment_model_cache_dir : Dirs → Text → Result (List Text)
unfolding checked_id
deployment_model_cache_dir dirs id = do
  id ← checked_id id
  safe_child_path dirs.model_cache_dir (id ∷ [])
