-- ===== src/Cli/Deploy/Cache/Facts.antt =====
-- Preparing the key and the cache leaves alone what does not depend on the system and the trace.
use iold.Base.{Option, none, some, List, [], ◌∷◌, Text}
use iold.Fault.{Result, ok, err}
use iold.Action.Keeps.{Keeps, Keeps-bind, Keeps-raise, Keeps-pure, Keeps-if}
use iold.Host.{
  Host, Read, content, absent, unreadable, path, Stat, directory, symlink, other_file, no_file,
  stat_failed,
}
use iold.World.{World}
use iold.Supervisor.Identity.Indifferent.{IsIndifferent}
use iold.Supervisor.Start.Facts.{must-Keeps}
use iold.Cli.Paths.{Dirs, render, clean_path}
use iold.Cli.Data.{owner_file}
use iold.Cli.Deploy.Cache.{
  lift, store_key, write_api_key, claim_if_empty, by_marker, by_lstat, by_path, prepare_model_cache,
}

module _ {D : Type 0} (h : Host) (P : World D h.Os → Type 0) (i : IsIndifferent h P) where
  pub lift-Keeps : {A : Type 0} (r : Result A) → Keeps P (lift h r)
  unfolding lift
  lift-Keeps (ok a) = Keeps-pure _
  lift-Keeps (err f) = Keeps-raise _

  store_key-Keeps : (key : Text) (paths : List (List Text)) → Keeps P (store_key h key paths)
  unfolding store_key
  store_key-Keeps key [] = Keeps-raise _
  store_key-Keeps key (log_file ∷ []) = Keeps-raise _
  store_key-Keeps key (log_file ∷ dir ∷ rest) = Keeps-bind _ _ (must-Keeps h P i _) λ u.
      Keeps-bind _ _ (must-Keeps h P i _)
        λ u. Keeps-bind _ _ (must-Keeps h P i _) (λ u. must-Keeps h P i _)

  pub write_api_key-Keeps : (dirs : Dirs) (id key : Text) → Keeps P (write_api_key h dirs id key)
  unfolding write_api_key
  write_api_key-Keeps dirs id key =
      Keeps-bind _ _ (lift-Keeps _) (λ paths. store_key-Keeps key paths)

  claim_if_empty-Keeps :
      (clean : List Text) (key : Text) (entries : Option (List Text))
      → Keeps P (claim_if_empty h clean key entries)
  unfolding claim_if_empty
  claim_if_empty-Keeps clean key none = Keeps-raise _
  claim_if_empty-Keeps clean key (some (e ∷ es)) = Keeps-raise _
  claim_if_empty-Keeps clean key (some []) =
      Keeps-bind _ _ (must-Keeps h P i _) (λ u. must-Keeps h P i _)

  by_marker-Keeps : (clean : List Text) (key : Text) (r : Read) → Keeps P (by_marker h clean key r)
  unfolding by_marker
  by_marker-Keeps clean key unreadable = Keeps-raise _
  by_marker-Keeps clean key (content m) = Keeps-if _ _ _ (Keeps-raise _) (must-Keeps h P i _)
  by_marker-Keeps clean key absent =
      Keeps-bind _ _ (i.asks (Option (List Text)) (h.read_dir (render clean)))
        (λ entries. claim_if_empty-Keeps clean key entries)

  by_lstat-Keeps : (clean : List Text) (key : Text) (s : Stat) → Keeps P (by_lstat h clean key s)
  unfolding by_lstat
  by_lstat-Keeps clean key no_file = Keeps-raise _
  by_lstat-Keeps clean key stat_failed = Keeps-raise _
  by_lstat-Keeps clean key symlink = Keeps-raise _
  by_lstat-Keeps clean key other_file = Keeps-raise _
  by_lstat-Keeps clean key directory = Keeps-bind _ _ (must-Keeps h P i _) λ u.
      Keeps-bind _ _ (i.asks Read (h.read_file (path (owner_file clean))))
        (λ marker. by_marker-Keeps clean key marker)

  by_path-Keeps :
      (cache id key : Text) (clean : Option (List Text)) → Keeps P (by_path h cache id key clean)
  unfolding by_path
  by_path-Keeps cache id key none = Keeps-raise _
  by_path-Keeps cache id key (some clean) = Keeps-if _ _ _ (Keeps-raise _) (
      Keeps-bind _ _ (must-Keeps h P i _) λ u.
        Keeps-bind _ _ (i.asks Stat (h.lstat (render clean))) (λ s. by_lstat-Keeps clean key s))

  pub prepare_model_cache-Keeps :
      (cache id key : Text) → Keeps P (prepare_model_cache h cache id key)
  unfolding prepare_model_cache
  prepare_model_cache-Keeps cache id key = by_path-Keeps cache id key (clean_path cache)
