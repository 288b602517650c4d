-- ===== src/Cli/Data.antt =====
-- `removeOwnedData` and `modelCacheOwnedBy` of internal/cli/cli.go: what destruction deletes.
pub mod Facts
use iold.Base.{
  ℕ, ◌&&◌, ◌||◌, ◌==◌, not, Bool, true, false, List, [], ◌∷◌, ◌++◌, Text, codes, text_eq, is_empty,
  trim_space, Option, none, some, if◌then◌else◌, map,
}
use iold.Fault.{Fault, Result, ok, err, unsafe_cache, foreign_cache, system_failed}
use iold.Action.{Action, pure, raise, ◌>>=◌, ◌>>◌}
use iold.Host.{
  Host, Read, content, absent, unreadable, path, Stat, directory, symlink, other_file, no_file,
  stat_failed,
}
use iold.World.{World, removed, ask, note}
use iold.State.Record.{Deployment}
use iold.Cli.Paths.{Dirs, render, clean_path, base_is, owned_paths, deployment_model_cache_dir}

abbrev pub owner_file : List Text → Text
owner_file cache = render (cache ++ codes ".iold-owner" ∷ [])

-- The recorded cache path, if it may be a cache of the deployment at all.
unfoldable pub safe_cache : Text → Deployment → Option (List Text)
safe_cache cache d = elim (clean_path cache) [
  | none ↦ none
  | some clean ↦ if not (base_is d.id clean) || is_empty d.idempotency_key then none else some clean
]

module _ {D : Type 0} (h : Host) where
  lift : {A : Type 0} → Result A → Action (World D h.Os) A
  lift (ok a) = pure a
  lift (err f) = raise f

  -- Whether the owner file of an existing cache names this deployment.
  by_marker : Deployment → List Text → Read → Action (World D h.Os) Bool
  by_marker d clean absent = raise (foreign_cache (render clean))
  by_marker d clean unreadable = raise (foreign_cache (render clean))
  by_marker d clean (content marker) =
      if not (text_eq (trim_space marker) d.idempotency_key)
      then raise (foreign_cache (render clean))
      else pure true

  by_stat : Deployment → List Text → Stat → Action (World D h.Os) Bool
  unfolding by_marker
  by_stat d clean no_file = pure false
  by_stat d clean stat_failed = raise system_failed
  by_stat d clean _ = do
    marker ← ask (h.read_file (path (owner_file clean)))
    by_marker d clean marker

  unfoldable pub model_cache_owned_by : Text → Deployment → Action (World D h.Os) Bool
  unfolding by_stat
  model_cache_owned_by cache d = elim (safe_cache cache d) [
    | none ↦ raise (unsafe_cache cache d.id)
    | some clean ↦ do st ← ask (h.stat (render clean)); by_stat d clean st
  ]

  after_removal : Bool → Action (World D h.Os) Unit
  after_removal true = pure tt
  after_removal false = raise system_failed

  -- os.RemoveAll on each path, up to the first failure.
  unfoldable pub remove_each : List Text → Action (World D h.Os) Unit
  unfolding after_removal
  remove_each [] = pure tt
  remove_each (p ∷ ps) = do
    note (removed p)
    done ← ask (h.remove_all p)
    after_removal done
    remove_each ps

  cache_path : Dirs → Deployment → Action (World D h.Os) Text
  unfolding lift
  cache_path dirs d =
      if is_empty d.model_cache_dir
      then (do dir ← lift (deployment_model_cache_dir dirs d.id); pure (render dir))
      else pure d.model_cache_dir

  unfoldable pub remove_owned_data : Dirs → Deployment → Action (World D h.Os) Unit
  unfolding lift cache_path
  remove_owned_data dirs d = do
    paths ← lift (owned_paths dirs d.id)
    cache ← cache_path dirs d
    owned ← model_cache_owned_by cache d
    remove_each (map render paths ++ (if owned then cache ∷ [] else []))
