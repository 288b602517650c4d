-- ===== src/Cli/Deploy/Run/Alone.antt =====
-- What `deploy` may change beside its own row.
use iold.Base.{
  ℕ, length, arith, codes, ◌++◌, ◌≡◌, ◌≢◌, refl, sym, subst, ap, ◌∙◌, false, List, [], Text,
}
use iold.Fault.{Fault, Result, ok, err}
use iold.Action.Yields.{bind_of_ok, bind_of_err}
use iold.Action.{◌>>=◌}
use iold.Action.Keeps.{Keeps, Keeps-bind, Keeps-pure}
use iold.Action.Ensures.{
  Ensures, Anything, Ensures-bind, Ensures-weaken, Ensures-and, Ensures_of_pre, Ensures_of_Keeps,
  Ensures_of_Yields, Keeps_of_Ensures, Post, Post-same,
}
use iold.Host.{Host}
use iold.Hub.{Client}
use iold.Doctor.System.{Probes}
use iold.State.Record.{Deployment}
use iold.State.Database.{Database}
use iold.State.Store.{State}
use iold.State.Store.Effect.{Alone, Alone-refl, Alone-IsKept, Alone-IsIndifferent, list-Keeps}
use iold.State.Store.Creation.{create-Alone, create-Yields}
use iold.Cli.Args.{DeployArgs}
use iold.Cli.Paths.{Dirs}
use iold.Cli.Recover.{recover_interrupted_deployments}
use iold.Cli.Deploy.{execute_deploy}
use iold.Cli.Deploy.Keeps.{execute_deploy-Keeps}
use iold.Cli.Deploy.Spec.{DeploySpec, Deps}
use iold.Cli.Deploy.Run.{new_row, replace_each, prepare, carry_out, deploy_model}
use iold.Cli.Deploy.Run.Facts.{prepare-Yields}
use iold.Cli.Deploy.Run.Keeps.{prepare-Keeps, clear_tombstone-Keeps}

module _ (d : Database) (h : Host) (dirs : Dirs) (deps : Deps) (p : Probes h.Os) (c : Client)
    (w₀ : State d h) where
  -- No row has changed.
  abbrev Same : State d h → Type 0
  Same w = (id : Text) → Alone d h id w₀ w

  abbrev AtMostOne : State d h → Type 0
  AtMostOne w = (id : Text) × Alone d h id w₀ w

  prepare-Same : (args : DeployArgs) → Keeps Same (prepare d h dirs deps p c args)
  prepare-Same args = record {
    at = λ w k id.
        (prepare-Keeps d h dirs deps p c (Alone d h id w₀)
            (list-Keeps d h _ id (Alone-IsKept d h w₀ id)) (Alone-IsIndifferent d h w₀ id) args).at
          w (k id);
  }

  execute_created :
      (spec : DeploySpec) (row : Deployment)
      → row.id ≡ spec.id
      → Keeps (Alone d h spec.id w₀) (execute_deploy d h dirs deps row spec)
  execute_created spec row e =
      subst (λ i. Keeps (Alone d h i w₀) (execute_deploy d h dirs deps row spec)) e
        (execute_deploy-Keeps d h dirs deps row (Alone d h row.id w₀) (Alone-IsKept d h w₀ row.id)
          (Alone-IsIndifferent d h w₀ row.id) spec)

  fresh-Alone :
      (spec : DeploySpec) → Keeps (Alone d h spec.id w₀) (carry_out d h dirs deps p c ([], spec))
  unfolding carry_out replace_each
  fresh-Alone spec = Keeps-bind _ _ (Keeps-pure _) λ u.
      Keeps-bind _ _
        (clear_tombstone-Keeps d h dirs deps p c (Alone d h spec.id w₀) spec.id
          (Alone-IsKept d h w₀ spec.id))
        λ u.
          Keeps-bind _ _ ((Alone-IsIndifferent d h w₀ spec.id).asks Text (h.random_hex 16)) λ key.
            Keeps_of_Ensures _ (
              Ensures-bind _ _
                (Ensures-weaken _
                  (Ensures-and _ (Ensures_of_Keeps _ (create-Alone d h (new_row spec key) w₀))
                    (Ensures_of_Yields {P = Anything} _ (create-Yields d h (new_row spec key))))
                  (λ w a. (a, tt)) (λ r w k. k) (λ w k. k.0))
                (λ row. Ensures_of_pre _ (λ e. Ensures_of_Keeps _ (execute_created spec row e))))

  carried :
      (active : List Deployment) (spec : DeploySpec)
      → active ≡ []
      → Ensures Same (carry_out d h dirs deps p c (active, spec)) (λ _. AtMostOne) AtMostOne
  carried active spec e =
      subst (λ l. Ensures Same (carry_out d h dirs deps p c (l, spec)) (λ _. AtMostOne) AtMostOne)
        (sym e)
        (Ensures-weaken _ (Ensures_of_Keeps _ (fresh-Alone spec)) (λ w k. k spec.id)
          (λ u w a. (spec.id, a)) (λ w a. (spec.id, a)))

  deployed :
      (args : DeployArgs)
      → args.replace ≡ false
      → Ensures Same
          (prepare d h dirs deps p c args >>= carry_out d h dirs deps p c)
          (λ _. AtMostOne)
          AtMostOne
  deployed args off =
      Ensures-bind _ _
        (Ensures-weaken _
          (Ensures-and _ (Ensures_of_Keeps _ (prepare-Same args))
            (Ensures_of_Yields {P = Anything} _ (prepare-Yields h dirs deps p c d args)))
          (λ w k. (k, tt)) (λ x w k. (k.0, k.1.replaces.0 off)) (λ w k. ([], k.0 [])))
        (λ x. Ensures_of_pre _ (λ e. carried x.0 x.1 e))

prepare-rows :
    (d : Database) (h : Host) (dirs : Dirs) (deps : Deps) (p : Probes h.Os) (c : Client)
    (args : DeployArgs) (w : State d h) (j : Text)
    → d.view (prepare d h dirs deps p c args w).1.db j ≡ d.view w.db j
prepare-rows d h dirs deps p c args w j =
    let same = (prepare-Same d h dirs deps p c w args).at w (λ id. Alone-refl d h id w) in
    (same (codes "x" ++ j)).others j (longer j)
  where
    longer : (k : Text) → k ≢ codes "x" ++ k
    longer k e = omega (arith, ap (length {A = ℕ}) e)

module _ (d : Database) (h : Host) (dirs : Dirs) (deps : Deps) (p : Probes h.Os) (c : Client)
    (w : State d h) where
  abbrev recovered : State d h
  recovered = (recover_interrupted_deployments d h w).1

  recovery :
      Ensures
        (λ v. v ≡ w)
        (recover_interrupted_deployments d h)
        (λ _. Same d h dirs deps p c recovered)
        (AtMostOne d h dirs deps p c recovered)
  recovery =
      Ensures-weaken _
        (record {
          at = λ v e. Post-same (Same d h dirs deps p c recovered) _ _ (
              subst
                (λ x. Same d h dirs deps p c recovered (recover_interrupted_deployments d h x).1)
                (sym e) (λ id. Alone-refl d h id recovered));
        })
        (λ v e. e) (λ u v k. k) (λ v k. ([], k []))

  either_way :
      (x : Result (Unit {0})) (v : State d h)
      → Post
          (λ _. AtMostOne d h dirs deps p c recovered)
          (AtMostOne d h dirs deps p c recovered)
          x
          v
      → AtMostOne d h dirs deps p c recovered v
  either_way (ok u) v k = k
  either_way (err f) v k = k

-- Without --replace, `deploy` changes at most one row beside what recovery changed, wherever it fails.
pub deploy_model-Alone :
    (d : Database) (h : Host) (dirs : Dirs) (deps : Deps) (p : Probes h.Os) (c : Client)
    (args : DeployArgs) (w : State d h)
    → args.replace ≡ false
    → (id : Text) × Alone d h id
        (recover_interrupted_deployments d h w).1
        (deploy_model d h dirs deps p c args w).1
unfolding deploy_model
deploy_model-Alone d h dirs deps p c args w off = either_way d h dirs deps p c w _ _ (
    (Ensures-bind _ _ (recovery d h dirs deps p c w)
        (λ u. deployed d h dirs deps p c (recovered d h dirs deps p c w) args off)).at
      w refl)

-- Where recovery returns without an error and the preparation, which resolves the specification and runs
-- the preflight, then fails, `deploy` fails with that error and every row is as recovery left it: a deployment that
-- is to be replaced is not touched before the new one has passed.
pub deploy_model-unprepared :
    (d : Database) (h : Host) (dirs : Dirs) (deps : Deps) (p : Probes h.Os) (c : Client)
    (args : DeployArgs) (w : State d h) (f : Fault)
    → (recover_interrupted_deployments d h w).0 ≡ ok tt
    → (prepare d h dirs deps p c args (recover_interrupted_deployments d h w).1).0 ≡ err f
    → ((deploy_model d h dirs deps p c args w).0 ≡ err f)
      × ((j : Text)
          → d.view (deploy_model d h dirs deps p c args w).1.db j
            ≡ d.view (recover_interrupted_deployments d h w).1.db j)
unfolding deploy_model
deploy_model-unprepared d h dirs deps p c args w f e e' =
    let w' = (recover_interrupted_deployments d h w).1 in
    let run =
      bind_of_ok (recover_interrupted_deployments d h) _ w tt e
      ∙ bind_of_err (prepare d h dirs deps p c args) (carry_out d h dirs deps p c) w' f e' in
    (
      ap (λ x. x.0) run,
      λ j. ap (λ x. d.view x.1.db j) run ∙ prepare-rows d h dirs deps p c args w' j,
    )
