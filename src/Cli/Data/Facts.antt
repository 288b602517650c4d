-- ===== src/Cli/Data/Facts.antt =====
-- Deleting the data of a deployment leaves alone what does not depend on the system and the trace.
use iold.Base.{refl, Bool, true, false, List, [], ◌∷◌, Text, Option-cases, inl, inr}
use iold.Fault.{Result, ok, err}
use iold.Action.Keeps.{Keeps, Keeps-bind, Keeps-raise, Keeps-pure, Keeps-if}
use iold.Host.{Host, Read, content, absent, unreadable, path, Stat, no_file, stat_failed}
use iold.World.{World, removed}
use iold.State.Record.{Deployment}
use iold.Supervisor.Identity.Facts.{IsQuiet}
use iold.Cli.Paths.{Dirs, render}
use iold.Cli.Data.{
  owner_file, safe_cache, lift, by_marker, by_stat, model_cache_owned_by, after_removal,
  remove_each, cache_path, remove_owned_data,
}

module _ {D : Type 0} (h : Host) (P : World D h.Os → Type 0) (q : IsQuiet h P) where
  lift-Keeps : {A : Type 0} (r : Result A) → Keeps P (lift h r)
  unfolding lift
  lift-Keeps (ok a) = Keeps-pure _
  lift-Keeps (err f) = Keeps-raise _

  by_marker-Keeps :
      (d : Deployment) (clean : List Text) (r : Read) → Keeps P (by_marker {D = D} h d clean r)
  unfolding by_marker
  by_marker-Keeps d clean absent = Keeps-raise _
  by_marker-Keeps d clean unreadable = Keeps-raise _
  by_marker-Keeps d clean (content m) = Keeps-if _ _ _ (Keeps-raise _) (Keeps-pure _)

  by_stat-Keeps : (d : Deployment) (clean : List Text) (s : Stat) → Keeps P (by_stat h d clean s)
  unfolding by_stat
  by_stat-Keeps d clean no_file = Keeps-pure _
  by_stat-Keeps d clean stat_failed = Keeps-raise _
  by_stat-Keeps d clean _ =
      Keeps-bind _ _ (q.asks Read (h.read_file (path (owner_file clean))))
        (λ m. by_marker-Keeps d clean m)

  model_cache_owned_by-Keeps : (c : Text) (d : Deployment) → Keeps P (model_cache_owned_by h c d)
  unfolding model_cache_owned_by
  model_cache_owned_by-Keeps c d = elim (Option-cases (safe_cache c d)) [
    | inl e ↦ rw (e, model_cache_owned_by) (Keeps-raise _)
    | inr (clean, e) ↦
        rw (e, model_cache_owned_by)
          (Keeps-bind _ _ (q.asks Stat (h.stat (render clean))) (λ s. by_stat-Keeps d clean s))
  ]

  after_removal-Keeps : (b : Bool) → Keeps P (after_removal {D = D} h b)
  unfolding after_removal
  after_removal-Keeps true = Keeps-pure _
  after_removal-Keeps false = Keeps-raise _

  remove_each-Keeps : (ps : List Text) → Keeps P (remove_each h ps)
  unfolding remove_each
  remove_each-Keeps [] = Keeps-pure _
  remove_each-Keeps (p ∷ ps) = Keeps-bind _ _ (q.notes (removed p) refl) λ u.
      Keeps-bind _ _ (q.asks Bool (h.remove_all p))
        λ b. Keeps-bind _ _ (after_removal-Keeps b) (λ u. remove_each-Keeps ps)

  cache_path-Keeps : (dirs : Dirs) (d : Deployment) → Keeps P (cache_path h dirs d)
  unfolding cache_path
  cache_path-Keeps dirs d =
      Keeps-if _ _ _ (Keeps-bind _ _ (lift-Keeps _) (λ dir. Keeps-pure _)) (Keeps-pure _)

  pub remove_owned_data-Keeps :
      (dirs : Dirs) (d : Deployment) → Keeps P (remove_owned_data h dirs d)
  unfolding remove_owned_data
  remove_owned_data-Keeps dirs d = Keeps-bind _ _ (lift-Keeps _) λ paths.
      Keeps-bind _ _ (cache_path-Keeps dirs d)
        λ cache. Keeps-bind _ _ (model_cache_owned_by-Keeps cache d) (λ owned. remove_each-Keeps _)
