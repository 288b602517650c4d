-- ===== src/Cli/Deploy/Resolve/Facts.antt =====
-- What a specification is that was resolved.
use iold.Base.{
  ◌≡◌, ◌≢◌, refl, ap, ◌∙◌, ◌&&◌, ◌||◌, Bool, true, false, List, [], ◌∷◌, ℕ, ◌*◌, Text, codes,
  is_empty, has_prefix, contains_text, arith, inl, inr, ◌⊎◌, if◌then◌else◌,
}
use iold.Fault.{Fault, Result, ok, err}
use iold.Action.{pure, raise}
use iold.Action.Yields.{
  Yields, Yields-pure, Yields-raise, Yields-bind, Yields-if, Yields-ask, Yields-any, Yields_ok,
  Yields-map, Answers,
}
use iold.Host.{Host}
use iold.World.{World, ask}
use iold.Hub.{Client, Model, Fields}
use iold.Hub.Requests.Answered.{IsModel, IsConfigResult, get_model-Yields, attempt-get_config}
use iold.Catalog.{Entry, get_entry}
use iold.Planner.Quantization.{detect_quantization}
use iold.Planner.Estimate.{
  Estimate, Verdict, too_big, default_context_tokens, estimate_model, assess,
}
use iold.Doctor.System.{Gpu, Probes}
use iold.Cli.Names.{deployment_id}
use iold.Cli.Paths.{Dirs, render, deployment_model_cache_dir}
use iold.Cli.Deploy.Spec.{DeploySpec}
use iold.Cli.Deploy.Cache.{lift}
use iold.Cli.Deploy.Resolve.{
  is_revision, validate_revision, required_vram_mib, required_disk_gib, first_vram, unless_missing,
  is_too_big, primary_vram_mib, entry_revision, resolve_entry, fresh_id, resolve_fitting,
  resolve_model, by_entry, resolve_spec, max_model_len, min_compute_for_quantization,
}

module _ {D : Type 0} (h : Host) where
  pub lift-Yields : {A : Type 0} (r : Result A) → Yields (λ a. r ≡ ok a) (lift {D = D} h r)
  unfolding lift
  lift-Yields (ok a) = Yields-pure a refl
  lift-Yields (err f) = Yields-raise f

validated : (s : Text) (u : Unit {0}) → validate_revision s ≡ ok u → is_revision s ≡ true
unfolding validate_revision
validated s u e = ground arith

hash_filled : (s : Text) → is_revision s ≡ true → is_empty s ≡ false
unfolding is_revision
hash_filled [] r = absurd (ground arith)
hash_filled (x ∷ s) r = refl

-- The revision is a hash, the identifier is valid, and the cache is the directory of the identifier.
pub record IsResolved (dirs : Dirs) (spec : DeploySpec) : Type 0 where
  pub pinned : is_revision spec.revision ≡ true
  pub cache : List Text
  pub owns : deployment_model_cache_dir dirs spec.id ≡ ok cache
  pub in_cache : spec.cache_dir ≡ render cache

-- The entry has no revision of its own.
abbrev is_open : Entry → Bool
is_open entry =
    is_empty entry.artifact_revision || has_prefix entry.artifact_revision (codes "MOCK_")

module _ (h : Host) (p : Probes h.Os) (c : Client) where
  -- The revision of the entry, or, where it has none, the one that the hub has now of its artifact.
  abbrev pub IsRevisionOf : Entry → Text → Type 0
  IsRevisionOf entry revision =
      ((is_open entry ≡ false) × (revision ≡ entry.artifact_revision))
      ⊎ ((is_open entry ≡ true)
          × (model : Model) × IsModel h c entry.artifact model
          × (revision ≡ model.sha))

  -- The specification is that of the entry.
  pub record IsEntry (ref : Text) (spec : DeploySpec) : Type 0 where
    pub entry : Entry
    pub listed : get_entry ref ≡ ok entry
    pub revision : IsRevisionOf entry spec.revision
    pub is : spec ≡ record spec {
      id = entry.alias;
      alias = entry.alias;
      artifact = entry.artifact;
      port = entry.default_port;
      max_model_len = entry.max_model_len;
      quantization = entry.quantization;
      min_driver_major = 570;
      min_compute_major = min_compute_for_quantization entry.quantization;
      min_vram_mib = entry.minimum_vram_gib * 1024;
      min_disk_gib = 100;
    }

  -- `deploymentID` gives this identifier, with some random text.
  abbrev pub IsIdOf : Text → Text → Type 0
  IsIdOf ref id = (random : Text) × (id ≡ deployment_id random ref)

  -- The model of the hub under the reference passed the planner, with the memory of the first GPU, and
  -- the specification is for it.
  pub record IsGated (ref : Text) (spec : DeploySpec) : Type 0 where
    pub gpu : Gpu
    pub others : List Gpu
    pub asked : Answers p.gpus (ok (gpu ∷ others))
    pub model : Model
    pub found : IsModel h c ref model
    pub allowed : (model.gated.is_gated && is_empty c.token) ≡ false
    pub answer : Result Fields
    pub config : IsConfigResult h c ref model.sha answer
    pub cfg : Fields
    pub taken : unless_missing answer ≡ ok cfg
    pub estimate : Estimate
    pub estimated : estimate_model model cfg default_context_tokens ≡ ok estimate
    pub admits : assess estimate gpu.vram_mib ≢ too_big
    pub named : IsIdOf ref spec.id
    pub is : spec ≡ record spec {
      alias = ref;
      artifact = ref;
      revision = model.sha;
      port = 8000;
      max_model_len = max_model_len cfg;
      quantization = detect_quantization model cfg;
      min_driver_major = 570;
      min_compute_major = min_compute_for_quantization (detect_quantization model cfg);
      min_vram_mib = required_vram_mib estimate.total_bytes;
      min_disk_gib = required_disk_gib estimate.weight_bytes;
    }

  abbrev Leading : ℕ → Type 0
  Leading vram =
      (gpu : Gpu) × (others : List Gpu) × Answers p.gpus (ok (gpu ∷ others)) × (gpu.vram_mib ≡ vram)

  first_leads :
      (answer : Result (List Gpu)) (vram : ℕ)
      → Answers p.gpus answer
      → first_vram answer ≡ ok vram
      → Leading vram
  unfolding first_vram
  first_leads (err f) vram a e = absurd (cc)
  first_leads (ok []) vram a e = absurd (cc)
  first_leads (ok (gpu ∷ others)) vram a e = (gpu, others, a, cc)

  small_enough : (v : Verdict) → is_too_big v ≡ false → v ≢ too_big
  small_enough v t e = absurd (ground arith)

  -- What is resolved is the entry under the reference, or a model that passed the gate.
  abbrev pub Resolved : Dirs → Text → DeploySpec → Type 0
  Resolved dirs ref spec = IsResolved dirs spec × (IsEntry ref spec ⊎ IsGated ref spec)

module _ {D : Type 0} (h : Host) (p : Probes h.Os) (c : Client) (dirs : Dirs) where
  entry_revision-Yields :
      (entry : Entry)
      → Yields
          (λ s. (is_revision s ≡ true) × IsRevisionOf h p c entry s)
          (entry_revision {D = D} h p c dirs entry)
  unfolding entry_revision
  entry_revision-Yields entry =
      Yields-if _ _ _
        (λ t. Yields-bind _ _ (get_model-Yields h c entry.artifact) λ model m.
          Yields-bind _ _ (lift-Yields h (validate_revision model.sha))
            λ v e. Yields-pure _ (validated _ v e, inr (t, model, m, refl)))
        (λ t.
          Yields-bind _ _ (lift-Yields h (validate_revision entry.artifact_revision))
            λ v e. Yields-pure _ (validated _ v e, inl (t, refl)))

  resolve_entry-Yields :
      (ref : Text) (entry : Entry)
      → get_entry ref ≡ ok entry
      → Yields
          (λ spec. IsResolved dirs spec × IsEntry h p c ref spec)
          (resolve_entry {D = D} h p c dirs entry)
  unfolding resolve_entry
  resolve_entry-Yields ref entry l = Yields-bind _ _ (entry_revision-Yields entry) λ revision r.
      Yields-bind _ _ (lift-Yields h (deployment_model_cache_dir dirs entry.alias)) λ cache e.
        Yields-pure _ (
          record { pinned = r.0; cache = cache; owns = e; in_cache = refl },
          record { entry = entry; listed = l; revision = r.1; is = refl },
        )

  fresh_id-Yields : (ref : Text) → Yields (IsIdOf h p c ref) (fresh_id {D = D} h p c dirs ref)
  unfolding fresh_id
  fresh_id-Yields ref =
      Yields-if _ _ _
        (λ t. Yields-bind _ _ (Yields-any (ask (h.random_hex 4))) (λ r u. Yields-pure _ (r, refl)))
        (λ t. Yields-pure _ ([], refl))

  module _ (ref : Text) (model : Model) (cfg : Fields) (est : Estimate) where
    resolve_fitting-Yields :
        is_revision model.sha ≡ true
        → ((spec : DeploySpec)
            → spec ≡ record spec {
              alias = ref;
              artifact = ref;
              revision = model.sha;
              port = 8000;
              max_model_len = max_model_len cfg;
              quantization = detect_quantization model cfg;
              min_driver_major = 570;
              min_compute_major = min_compute_for_quantization (detect_quantization model cfg);
              min_vram_mib = required_vram_mib est.total_bytes;
              min_disk_gib = required_disk_gib est.weight_bytes;
            }
            → IsIdOf h p c ref spec.id
            → IsGated h p c ref spec)
        → Yields
            (λ spec. IsResolved dirs spec × IsGated h p c ref spec)
            (resolve_fitting {D = D} h p c dirs ref model cfg est)
    unfolding resolve_fitting
    resolve_fitting-Yields r k = Yields-bind _ _ (fresh_id-Yields ref) λ id n.
        Yields-bind _ _ (lift-Yields h (deployment_model_cache_dir dirs id)) λ cache e.
          Yields-pure _
            (record { pinned = r; cache = cache; owns = e; in_cache = refl }, k _ refl n)

  primary-Yields : Yields (Leading h p c) (primary_vram_mib {D = D} h p c dirs)
  unfolding primary_vram_mib
  primary-Yields = Yields-bind _ _ (Yields-ask p.gpus) λ answer a.
      Yields-map (lift-Yields h (first_vram answer)) (λ vram e. first_leads h p c answer vram a e)

  allowed-Yields :
      (b : Bool)
      → Yields
          (λ _. b ≡ false)
          (if b then raise {S = World D h.Os} Fault.auth_required else pure tt)
  allowed-Yields true = Yields-raise _
  allowed-Yields false = Yields-pure _ refl

  resolve_model-Yields :
      (ref : Text)
      → Yields
          (λ spec. IsResolved dirs spec × IsGated h p c ref spec)
          (resolve_model {D = D} h p c dirs ref)
  unfolding resolve_model
  resolve_model-Yields ref = Yields-bind _ _ primary-Yields λ vram lead.
      Yields-bind _ _ (get_model-Yields h c ref) λ model m.
        Yields-bind _ _ (allowed-Yields (model.gated.is_gated && is_empty c.token)) λ v a.
          Yields-bind _ _ (lift-Yields h (validate_revision model.sha)) λ v r.
            Yields-bind _ _
              (attempt-get_config h c ref model.sha (hash_filled model.sha (validated _ v r)))
              λ found f. Yields-bind _ _ (lift-Yields h (unless_missing found)) λ cfg u.
                Yields-bind _ _ (lift-Yields h (estimate_model model cfg default_context_tokens))
                  λ est e.
                    Yields-if (is_too_big (assess est vram)) _ _ (λ t. Yields-raise _)
                      λ t. resolve_fitting-Yields ref model cfg est (validated _ v r) λ spec is n.
                        let (gpu, others, asked, same) = lead in
                        record {
                          gpu = gpu;
                          others = others;
                          asked = asked;
                          model = model;
                          found = m;
                          allowed = a;
                          cfg = cfg;
                          answer = found;
                          config = f;
                          taken = u;
                          estimate = est;
                          estimated = e;
                          admits =
                              small_enough h p c _ (ap (λ v. is_too_big (assess est v)) same ∙ t);
                          named = n;
                          is = is;
                        }

  by_entry-Yields :
      (ref : Text) (r : Result Entry)
      → get_entry ref ≡ r
      → Yields (Resolved h p c dirs ref) (by_entry {D = D} h p c dirs ref r)
  unfolding by_entry
  by_entry-Yields ref (ok entry) e =
      Yields-map (resolve_entry-Yields ref entry e) (λ spec k. (k.0, inl k.1))
  by_entry-Yields ref (err f) e =
      Yields-if (contains_text ref (codes "/")) _ _
        (λ t. Yields-map (resolve_model-Yields ref) (λ spec k. (k.0, inr k.1)))
        (λ t. Yields-raise _)

  pub resolve_spec-Yields :
      (ref : Text) → Yields (Resolved h p c dirs ref) (resolve_spec {D = D} h p c dirs ref)
  unfolding resolve_spec
  resolve_spec-Yields ref = by_entry-Yields ref (get_entry ref) refl

-- A specification that was resolved names a revision of 40 to 64 hexadecimal digits, and its cache is
-- the directory of its identifier, which is valid. Either the reference is in the catalog, and the
-- specification has the alias as its identifier, the artifact, the port and the requirements of that
-- entry and its revision, or where it has none the one that the hub answered for the artifact. Or the
-- specification is for the reference itself, under an identifier that deploymentID gives it, at the
-- revision of the model that the hub answered for it, which a token covers where it is gated: the
-- estimate of that model, with the config that the hub answered for that revision or the empty one
-- where it answered that there is none, is not too big for the first GPU, and the memory and the disk
-- that are asked for are those of the estimate.
pub resolve_spec-Resolved :
    {D : Type 0} (h : Host) (p : Probes h.Os) (c : Client) (dirs : Dirs) (ref : Text)
    (w : World D h.Os) (spec : DeploySpec)
    → (resolve_spec h p c dirs ref w).0 ≡ ok spec
    → Resolved h p c dirs ref spec
resolve_spec-Resolved h p c dirs ref w spec e =
    Yields_ok _ (resolve_spec-Yields h p c dirs ref) w spec e
