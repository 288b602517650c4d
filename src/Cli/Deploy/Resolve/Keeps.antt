-- ===== src/Cli/Deploy/Resolve/Keeps.antt =====
-- Resolving only asks: it leaves alone what does not depend on the system.
use iold.Base.{List, Text}
use iold.Fault.{Result, ok, err}
use iold.Action.Keeps.{Keeps, Keeps-pure, Keeps-raise, Keeps-bind, Keeps-if, Keeps-attempt}
use iold.Host.{Host}
use iold.World.{World}
use iold.Hub.{Client, Model, Fields}
use iold.Hub.Requests.Keeps.{get_model-Keeps, get_config-Keeps}
use iold.Catalog.{Entry, get_entry}
use iold.Planner.Estimate.{Estimate}
use iold.Doctor.System.{Gpu, Probes}
use iold.Supervisor.Identity.Indifferent.{IsIndifferent}
use iold.Cli.Paths.{Dirs}
use iold.Cli.Deploy.Cache.Facts.{lift-Keeps}
use iold.Cli.Deploy.Resolve.{
  primary_vram_mib, entry_revision, resolve_entry, fresh_id, resolve_fitting, resolve_model,
  by_entry, resolve_spec,
}

module _ {D : Type 0} (h : Host) (P : World D h.Os → Type 0) (i : IsIndifferent h P)
    (p : Probes h.Os) (c : Client) (dirs : Dirs) where
  primary-Keeps : Keeps P (primary_vram_mib h p c dirs)
  unfolding primary_vram_mib
  primary-Keeps = Keeps-bind _ _ (i.asks (Result (List Gpu)) p.gpus) (λ answer. lift-Keeps h P i _)

  entry_revision-Keeps : (entry : Entry) → Keeps P (entry_revision h p c dirs entry)
  unfolding entry_revision
  entry_revision-Keeps entry =
      Keeps-if _ _ _
        (Keeps-bind _ _ (get_model-Keeps h P i c _)
          (λ model. Keeps-bind _ _ (lift-Keeps h P i _) (λ u. Keeps-pure _)))
        (Keeps-bind _ _ (lift-Keeps h P i _) (λ u. Keeps-pure _))

  resolve_entry-Keeps : (entry : Entry) → Keeps P (resolve_entry h p c dirs entry)
  unfolding resolve_entry
  resolve_entry-Keeps entry =
      Keeps-bind _ _ (entry_revision-Keeps entry)
        (λ r. Keeps-bind _ _ (lift-Keeps h P i _) (λ cache. Keeps-pure _))

  fresh_id-Keeps : (ref : Text) → Keeps P (fresh_id h p c dirs ref)
  unfolding fresh_id
  fresh_id-Keeps ref =
      Keeps-if _ _ _ (Keeps-bind _ _ (i.asks Text (h.random_hex 4)) (λ random. Keeps-pure _))
        (Keeps-pure _)

  resolve_fitting-Keeps :
      (ref : Text) (model : Model) (cfg : Fields) (est : Estimate)
      → Keeps P (resolve_fitting h p c dirs ref model cfg est)
  unfolding resolve_fitting
  resolve_fitting-Keeps ref model cfg est =
      Keeps-bind _ _ (fresh_id-Keeps ref)
        (λ id. Keeps-bind _ _ (lift-Keeps h P i _) (λ cache. Keeps-pure _))

  resolve_model-Keeps : (ref : Text) → Keeps P (resolve_model h p c dirs ref)
  unfolding resolve_model
  resolve_model-Keeps ref = Keeps-bind _ _ primary-Keeps λ vram.
      Keeps-bind _ _ (get_model-Keeps h P i c ref) λ model.
        Keeps-bind _ _ (Keeps-if _ _ _ (Keeps-raise _) (Keeps-pure _)) λ u.
          Keeps-bind _ _ (lift-Keeps h P i _) λ u.
            Keeps-bind _ _ (Keeps-attempt _ (get_config-Keeps h P i c ref model.sha)) λ found.
              Keeps-bind _ _ (lift-Keeps h P i _) λ cfg.
                Keeps-bind _ _ (lift-Keeps h P i _)
                  λ est. Keeps-if _ _ _ (Keeps-raise _) (resolve_fitting-Keeps ref model cfg est)

  by_entry-Keeps : (ref : Text) (r : Result Entry) → Keeps P (by_entry h p c dirs ref r)
  unfolding by_entry
  by_entry-Keeps ref (ok entry) = resolve_entry-Keeps entry
  by_entry-Keeps ref (err f) = Keeps-if _ _ _ (resolve_model-Keeps ref) (Keeps-raise _)

  pub resolve_spec-Keeps : (ref : Text) → Keeps P (resolve_spec h p c dirs ref)
  unfolding resolve_spec
  resolve_spec-Keeps ref = by_entry-Keeps ref (get_entry ref)
