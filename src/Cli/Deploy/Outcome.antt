-- ===== src/Cli/Deploy/Outcome.antt =====
-- What a deployment has reached when `executeDeploy` returns, and what it leaves behind when it fails.
use iold.Base.{ℕ, ◌≡◌, refl, Option, none, some, Memᴰ}
use iold.Fault.{Fault}
use iold.Action.{Action}
use iold.Action.Keeps.{Keeps}
use iold.Action.Ensures.{
  Ensures, Ensures-pure, Ensures-raise, Ensures-bind, Ensures-catch, Ensures-weaken,
  Ensures_of_Keeps,
}
use iold.Host.{Host}
use iold.World.{Line, record_warning, ask, say}
use iold.State.Machine.{Phase, requested, validating, downloading, unregistered_healthy, failed}
use iold.State.Record.{Deployment, Reason, no_reason, cause}
use iold.State.Database.{Database}
use iold.State.Store.{State, kept_reason, transition}
use iold.State.Store.After.{
  At, At-map, At-IsIndifferent, Known, Ensures-Known, transition_after, transition_moves,
  transition_reaches,
}
use iold.State.Store.Runtime.{Runs, record_runtime_after}
use iold.Supervisor.Identity.Indifferent.{IsIndifferent}
use iold.Supervisor.Process.{Process}
use iold.Cli.Paths.{Dirs}
use iold.Cli.Deploy.{
  fail, or_fail, validate, launch, verify, register, execute_deploy, stop_started,
}
use iold.Cli.Deploy.Spec.{DeploySpec, Deps}
use iold.Cli.Deploy.Cache.Facts.{write_api_key-Keeps, prepare_model_cache-Keeps}
use iold.Cli.Deploy.Ready.Facts.{wait_healthy-Keeps, check_readiness-Keeps}

module _ (d : Database) (h : Host) (dirs : Dirs) (deps : Deps) (r : Deployment) where
  -- The row is FAILED, or a warning that it could not be marked so was printed.
  pub data IsBlamed (w : State d h) : Type 0 where
    marked : At d h r.id (λ row. row.phase ≡ failed) w → IsBlamed w
    warned : (g : Fault) → Memᴰ (record_warning g) w.output → IsBlamed w

  -- The row has the process that was launched on `port`.
  pub record IsServed (port : ℕ) (row : Deployment) : Type 0 where
    pub served : Process
    pub runs : Runs d h r.id served.pid port served.command served.started_at served.start_token row

  warn : (g : Fault) → Ensures (Known d h r.id) (say (record_warning g)) (λ _. IsBlamed) IsBlamed
  unfolding say
  warn g = record { at = λ w k. warned g (Memᴰ.head refl) }

  say-Known :
      {E : State d h → Type 0} (l : Line)
      → Ensures (Known d h r.id) (say {D = d.Db} l) (λ _. Known d h r.id) E
  unfolding say
  say-Known l = record { at = λ w k. record {} }

  stop_started_returns :
      {P E : State d h → Type 0} (o : Option Process)
      → Ensures P (stop_started d h dirs deps r o) (λ _. Known d h r.id) E
  unfolding stop_started
  stop_started_returns none = Ensures-pure _ (λ w p. record {})
  stop_started_returns (some p) = Ensures-catch _ _ (Ensures-Known d h r.id _) (λ f. say-Known _)

  fail_blames :
      {A : Type 0} {P : State d h → Type 0} {Q : A → State d h → Type 0} (o : Option Process)
      (from : Phase) (f : Fault)
      → Ensures P (fail d h dirs deps r o from f {A = A}) Q IsBlamed
  unfolding fail
  fail_blames o from f = Ensures-bind _ _ (stop_started_returns o) λ u.
      Ensures-bind _ _
        (Ensures-catch _ _
          (Ensures-weaken _ (transition_reaches d h r.id from failed (cause f)) (λ w k. k)
            (λ a w b. marked (At-map d h r.id w (λ row x. x.0) b)) (λ w k. k))
          (λ g. warn g))
        (λ u. Ensures-raise _ (λ w b. b))

  -- A step under `fail`: what it ensures when it returns, and blame when it does not.
  or_fail_blames :
      {A : Type 0} {P : State d h → Type 0} {Q : A → State d h → Type 0} {E : State d h → Type 0}
      (o : Option Process) (from : Phase) (m : Action (State d h) A)
      → Ensures P m Q E
      → Ensures P (or_fail d h dirs deps r o from m) Q IsBlamed
  unfolding or_fail
  or_fail_blames o from m k = Ensures-catch _ _ k (λ f. fail_blames o from f)

  module _ (φ : Deployment → Type 0) where
    held : IsIndifferent h (At d h r.id φ)
    held = At-IsIndifferent d h r.id φ

    keeps_blames :
        {A : Type 0} (o : Option Process) (from : Phase) (m : Action (State d h) A)
        → Keeps (At d h r.id φ) m
        → Ensures (At d h r.id φ) (or_fail d h dirs deps r o from m) (λ _. At d h r.id φ) IsBlamed
    keeps_blames o from m k = or_fail_blames o from m (Ensures_of_Keeps m k)

    validate_outcome :
        (spec : DeploySpec)
        → Ensures (At d h r.id φ) (validate d h dirs deps r spec) (λ _. At d h r.id φ) IsBlamed
    unfolding validate
    validate_outcome spec =
        Ensures-bind _ _ (keeps_blames _ _ _ (write_api_key-Keeps h _ held dirs r.id spec.api_key))
          (λ u.
            keeps_blames _ _ _
              (prepare_model_cache-Keeps h _ held spec.cache_dir r.id r.idempotency_key))

  Known-blames :
      {A : Type 0} {P : State d h → Type 0} (o : Option Process) (from : Phase)
      (m : Action (State d h) A)
      → Ensures P (or_fail d h dirs deps r o from m) (λ _. Known d h r.id) IsBlamed
  Known-blames o from m = or_fail_blames o from m (Ensures-Known d h r.id m)

  abbrev ServedBy : Process → ℕ → Deployment → Type 0
  ServedBy p port = Runs d h r.id p.pid port p.command p.started_at p.start_token

  Runs-stable :
      (p : Process) (port : ℕ) (row : Deployment) (to : Phase) (why : Reason) (time : ℕ)
      → ServedBy p port row
      → ServedBy p port (record row { phase = to; failure_reason = why; updated_at = time })
  Runs-stable p port row to why time x = record {
    pid_is = x.pid_is;
    port_is = x.port_is;
    command_is = x.command_is;
    started_is = x.started_is;
    token_is = x.token_is;
  }

  said :
      {E : State d h → Type 0} (φ : Deployment → Type 0) (l : Line)
      → Ensures (At d h r.id φ) (say {D = d.Db} l) (λ _. At d h r.id φ) E
  unfolding say
  said φ l = record { at = λ w a. record { row = a.row; is = a.is; holds = a.holds } }

  launch_outcome :
      {P : State d h → Type 0} (spec : DeploySpec)
      → Ensures P (launch d h dirs deps r spec) (λ p. At d h r.id (ServedBy p spec.port)) IsBlamed
  unfolding launch
  launch_outcome spec = Ensures-bind _ _ (Known-blames _ _ _) λ log_file.
      Ensures-bind _ _ (Known-blames _ _ _) λ u. Ensures-bind _ _ (Known-blames _ _ _) λ u.
        Ensures-bind _ _ (Known-blames _ _ _) λ p.
          Ensures-bind _ _
            (or_fail_blames _ _ _
              (record_runtime_after d h r.id p.pid spec.port p.command p.started_at p.start_token))
            λ u.
              Ensures-bind _ _ (said _ _)
                (λ u. Ensures-pure _ (λ w a. At-map d h r.id w (λ row x. x.0) a))

  -- A step that moves the phase and keeps the process.
  moved_on :
      (p : Process) (port : ℕ) {φ : Deployment → Type 0} (from to : Phase) (why : Reason)
      → ((row : Deployment) → φ row → ServedBy p port row)
      → Ensures
          (At d h r.id φ)
          (or_fail d h dirs deps r (some p) from (transition d h r.id from to why))
          (λ _. At d h r.id (λ row.
            ServedBy p port row × (row.phase ≡ to) × (row.failure_reason ≡ kept_reason to why)))
          IsBlamed
  moved_on p port from to why f = or_fail_blames _ _ _ (
      Ensures-weaken _
        (transition_after d h r.id (ServedBy p port) (Runs-stable p port) from to why)
        (λ w a. At-map d h r.id w f a) (λ u w a. a) (λ w a. a))

  verify_outcome :
      (spec : DeploySpec) (p : Process)
      → Ensures
          (At d h r.id (ServedBy p spec.port))
          (verify d h dirs deps r spec p)
          (λ _. At d h r.id (ServedBy p spec.port))
          IsBlamed
  unfolding verify
  verify_outcome spec p =
      Ensures-bind _ _ (keeps_blames _ _ _ _ (wait_healthy-Keeps h _ (held _) deps _ p)) λ u.
        Ensures-bind _ _ (moved_on p spec.port _ _ _ (λ row x. x)) λ u.
          Ensures-weaken _ (keeps_blames _ _ _ _ (check_readiness-Keeps h _ (held _) deps _ spec))
            (λ w a. a) (λ u w a. At-map d h r.id w (λ row x. x.0) a) (λ w b. b)

  register_outcome :
      (port : ℕ) (p : Process)
      → Ensures
          (At d h r.id (ServedBy p port))
          (register d h dirs deps r p)
          (λ _. At d h r.id (λ row.
            ServedBy p port row
            × (row.phase ≡ unregistered_healthy)
            × (row.failure_reason ≡ no_reason)))
          IsBlamed
  unfolding register
  register_outcome port p =
      Ensures-bind _ _ (moved_on p port _ _ _ (λ row x. x))
        λ u. moved_on p port _ _ _ (λ row x. x.0)

  -- Where a deployment can fail without marking the row: at the two transitions before DOWNLOADING.
  pub data IsLeft (w : State d h) : Type 0 where
    blamed : IsBlamed w → IsLeft w
    unmoved : At d h r.id (λ row. row.phase ≡ requested) w → IsLeft w
    unvalidated : At d h r.id (λ row. row.phase ≡ validating) w → IsLeft w

  -- The row carries the launched process, is UNREGISTERED_HEALTHY and has no reason.
  abbrev pub Reached : ℕ → State d h → Type 0
  Reached port = At d h r.id (λ row.
      IsServed port row × (row.phase ≡ unregistered_healthy) × (row.failure_reason ≡ no_reason))

  abbrev InPhase : Phase → Deployment → Type 0
  InPhase p row = row.phase ≡ p

  pub execute_deploy_outcome :
      (spec : DeploySpec)
      → Ensures
          (At d h r.id (InPhase requested))
          (execute_deploy d h dirs deps r spec)
          (λ _. Reached spec.port)
          IsLeft
  unfolding execute_deploy
  execute_deploy_outcome spec = Ensures-bind _ _ first λ u.
      Ensures-bind _ _ (asked (h.random_hex 32)) λ key.
        Ensures-bind _ _ (blames (validate_outcome (InPhase validating) _)) λ u.
          Ensures-bind _ _ second λ u. Ensures-bind _ _ (blames (launch_outcome _)) λ p.
            Ensures-bind _ _ (blames (verify_outcome _ p)) λ u.
              Ensures-bind _ _ (blames (register_outcome spec.port p)) λ u.
                Ensures-weaken _ (said _ _) (λ w a. a)
                  (λ u w a.
                    At-map d h r.id w (λ row x. (record { served = p; runs = x.0 }, x.1, x.2)) a)
                  (λ w b. b)
    where
      first :
          Ensures
            (At d h r.id (InPhase requested))
            (transition d h r.id requested validating no_reason)
            (λ _. At d h r.id (InPhase validating))
            IsLeft
      first =
          Ensures-weaken _ (transition_moves d h r.id (InPhase requested) _ _ _) (λ w a. a)
            (λ u w a. a) (λ w a. unmoved a)

      second :
          Ensures
            (At d h r.id (InPhase validating))
            (transition d h r.id validating downloading no_reason)
            (λ _. Known d h r.id)
            IsLeft
      second =
          Ensures-weaken _ (transition_moves d h r.id (InPhase validating) _ _ _) (λ w a. a)
            (λ u w a. record {}) (λ w a. unvalidated a)

      asked :
          {A : Type 0} (call : h.Os → A × h.Os)
          → Ensures
              (At d h r.id (InPhase validating))
              (ask {D = d.Db} call)
              (λ _. At d h r.id (InPhase validating))
              IsLeft
      asked call =
          Ensures-weaken _ (Ensures_of_Keeps _ ((held (InPhase validating)).asks _ call)) (λ w a. a)
            (λ x w a. a) (λ w a. unvalidated a)

      blames :
          {A : Type 0} {P : State d h → Type 0} {Q : A → State d h → Type 0}
          {m : Action (State d h) A}
          → Ensures P m Q IsBlamed
          → Ensures P m Q IsLeft
      blames {m = m} k = Ensures-weaken m k (λ w p. p) (λ a w q. q) (λ w b. blamed b)
