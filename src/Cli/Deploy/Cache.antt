-- ===== src/Cli/Deploy/Cache.antt =====
-- `writeAPIKey` and `prepareModelCache` of internal/cli/deploy.go.
pub mod Facts
use iold.Base.{
  ℕ, ◌&&◌, ◌||◌, ◌==◌, not, Bool, true, false, List, [], ◌∷◌, ◌++◌, Text, codes, text_eq, is_empty,
  trim_space, Option, none, some, if◌then◌else◌,
}
use iold.Fault.{Fault, Result, ok, err, unsafe_cache, foreign_cache, system_failed}
use iold.Action.{Action, pure, raise, ◌>>=◌, ◌>>◌}
use iold.Host.{
  Host, Read, content, absent, unreadable, path, Stat, directory, symlink, other_file, no_file,
  stat_failed,
}
use iold.World.{World, ask}
use iold.Supervisor.Start.{must}
use iold.Cli.Paths.{Dirs, render, clean_path, base_is, owned_paths}
use iold.Cli.Data.{owner_file}

module _ {D : Type 0} (h : Host) where
  unfoldable pub lift : {A : Type 0} → Result A → Action (World D h.Os) A
  lift (ok a) = pure a
  lift (err f) = raise f

  -- `paths[1]`
  store_key : Text → List (List Text) → Action (World D h.Os) Unit
  store_key key (log_file ∷ dir ∷ rest) = do
    must h (h.mkdir_all (render dir))
    must h (h.chmod (render dir) 0o700)
    must h (h.write_file (render (dir ++ codes "api-key" ∷ [])) (key ++ 10 ∷ []))
    must h (h.chmod (render (dir ++ codes "api-key" ∷ [])) 0o600)
  store_key key _ = raise system_failed

  unfoldable pub write_api_key : Dirs → Text → Text → Action (World D h.Os) Unit
  unfolding store_key
  write_api_key dirs id key = do paths ← lift (owned_paths dirs id); store_key key paths

  claim_if_empty : List Text → Text → Option (List Text) → Action (World D h.Os) Unit
  claim_if_empty clean key none = raise system_failed
  claim_if_empty clean key (some (e ∷ es)) = raise (foreign_cache (render clean))
  claim_if_empty clean key (some []) = do
    must h (h.create_exclusive (owner_file clean) (key ++ 10 ∷ []))
    must h (h.chmod (owner_file clean) 0o600)

  by_marker : List Text → Text → Read → Action (World D h.Os) Unit
  unfolding claim_if_empty
  by_marker clean key (content existing) =
      if not (text_eq (trim_space existing) key)
      then raise (foreign_cache (render clean))
      else must h (h.chmod (owner_file clean) 0o600)
  by_marker clean key unreadable = raise system_failed
  by_marker clean key absent = do
    entries ← ask (h.read_dir (render clean))
    claim_if_empty clean key entries

  by_lstat : List Text → Text → Stat → Action (World D h.Os) Unit
  unfolding by_marker
  by_lstat clean key directory = do
    must h (h.chmod (render clean) 0o700)
    marker ← ask (h.read_file (path (owner_file clean)))
    by_marker clean key marker
  by_lstat clean key no_file = raise system_failed
  by_lstat clean key stat_failed = raise system_failed
  by_lstat clean key _ = raise (foreign_cache (render clean))

  by_path : Text → Text → Text → Option (List Text) → Action (World D h.Os) Unit
  unfolding by_lstat
  by_path cache id key none = raise (unsafe_cache cache id)
  by_path cache id key (some clean) =
      if not (base_is id clean) || is_empty key then raise (unsafe_cache cache id) else do
        must h (h.mkdir_all (render clean))
        st ← ask (h.lstat (render clean))
        by_lstat clean key st

  unfoldable pub prepare_model_cache : Text → Text → Text → Action (World D h.Os) Unit
  unfolding by_path
  prepare_model_cache cache id key = by_path cache id key (clean_path cache)
