-- ===== src/Cli/Deploy/Run/Facts.antt =====
-- What `deploy` has checked before it changes anything.
use iold.Base.{
  ◌≡◌, refl, sym, Bool, false, List, [], ◌∷◌, All, false≢true, ◌∙◌, inl, inr, Bool-cases,
}
use iold.Fault.{Fault, Result, ok, err}
use iold.Action.Yields.{Yields, Yields-pure, Yields-bind, Yields-any}
use iold.Host.{Host}
use iold.Hub.{Client}
use iold.Doctor.System.{Probes}
use iold.Preflight.Facts.{IsAdmitted, run-Yields}
use iold.State.Machine.{destroyed, phase_eq}
use iold.State.Record.{Deployment}
use iold.State.Database.{Database}
use iold.State.Store.{list}
use iold.Cli.Args.{DeployArgs}
use iold.Cli.Paths.{Dirs}
use iold.Cli.Deploy.Spec.{DeploySpec, Deps}
use iold.Cli.Deploy.Resolve.Facts.{Resolved, resolve_spec-Yields, lift-Yields}
use iold.Cli.Deploy.Run.{also_active, find_active, preflight_spec, on_port, prepare}

abbrev IsActive : Deployment → Type 0
IsActive r = phase_eq r.phase destroyed ≡ false

also_active-ok :
    (r : Deployment) (x : Result (List Deployment)) (active : List Deployment)
    → also_active r x ≡ ok active
    → (rs : List Deployment) × (x ≡ ok rs) × (active ≡ r ∷ rs)
unfolding also_active
also_active-ok r (ok rs) active e = (rs, refl, sym cc)
also_active-ok r (err f) active e = absurd (cc)

-- What is replaced is active, and is nothing without --replace.
abbrev pub Replaces : Bool → List Deployment → Type 0
Replaces replace active = (replace ≡ false → active ≡ []) × All IsActive active

find_active-Replaces :
    (replace : Bool) (rs active : List Deployment)
    → find_active replace rs ≡ ok active
    → Replaces replace active
unfolding find_active
find_active-Replaces replace [] [] e = (λ t. refl, tt)
find_active-Replaces replace [] (x ∷ active) e = absurd (cc)
find_active-Replaces replace (old ∷ more) active e =
    elim (Bool-cases (phase_eq old.phase destroyed)) [
      | inl t ↦ find_active-Replaces replace more active (rw t at e)
      | inr t ↦ elim (Bool-cases replace) [
        | inl on ↦
            let (rs, is, joins) = also_active-ok old _ active (rw (t, on) at e) in
            rw joins (
              λ off. absurd (false≢true (sym off ∙ on)),
              (t, (find_active-Replaces replace more rs is).1),
            )
        | inr off ↦ absurd (failed (rw (t, off) at e))
      ]
    ]
  where
    failed : {f : Fault} → err f ≡ ok active → ⊥
    failed e = cc

module _ (h : Host) (dirs : Dirs) (deps : Deps) (p : Probes h.Os) (c : Client) where
  -- What was found before anything is changed: the specification that was resolved, the port that the
  -- preflight of it granted, and what is to be replaced.
  pub record IsPrepared (args : DeployArgs) (active : List Deployment) (spec : DeploySpec)
      : Type 0 where
    pub replaces : Replaces args.replace active
    pub given : DeploySpec
    pub resolved : Resolved h p c dirs args.ref given
    pub admitted : IsAdmitted h p (preflight_spec deps c given active) spec.port
    pub is : spec ≡ on_port given spec.port

  pub prepare-Yields :
      (d : Database) (args : DeployArgs)
      → Yields (λ x. IsPrepared args x.0 x.1) (prepare d h dirs deps p c args)
  unfolding prepare
  prepare-Yields d args = Yields-bind _ _ (Yields-any (list d h)) λ existing u.
      Yields-bind _ _ (lift-Yields h (find_active args.replace existing)) λ active e.
        Yields-bind _ _ (resolve_spec-Yields h p c dirs args.ref) λ spec r.
          Yields-bind _ _ (run-Yields h p (preflight_spec deps c spec active)) λ port a.
            Yields-pure _ (record {
              replaces = find_active-Replaces args.replace existing active e;
              given = spec;
              resolved = r;
              admitted = a;
              is = refl;
            })
