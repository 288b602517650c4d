-- ===== src/Cli/Destroy/Outcome.antt =====
-- What is left of a deployment when `destroyOne` returns.
use iold.Base.{◌≡◌, refl, Bool, true, false, ◌⊎◌, inl, inr, arith}
use iold.Fault.{Result, ok, err}
use iold.Action.{pure, ◌>>=◌}
use iold.Action.Ensures.{Ensures, Post, Ensures-pure, Ensures-bind, Ensures-weaken, Ensures-if}
use iold.Host.{Host}
use iold.World.{Line, say}
use iold.State.Machine.{
  Phase, ready, unregistered_healthy, failed, crashed, destroying, destroyed, phase_eq,
}
use iold.State.Record.{Deployment, no_reason}
use iold.State.Database.{Database}
use iold.State.Store.{State, transition}
use iold.State.Store.After.{At, At-map, Absent, Known, Ensures-Known, transition_reaches}
use iold.State.Store.Runtime.{delete_record_after}
use iold.Cli.Paths.{Dirs}
use iold.Cli.Destroy.{
  claim_mid_flight, claim_resting, claim_by, finish, tear_down, purge_record, destroy_one,
}

module _ (d : Database) (h : Host) (r : Deployment) where
  abbrev InPhase : Phase → Deployment → Type 0
  InPhase p row = row.phase ≡ p

  abbrev Claimed : Phase → State d h → Type 0
  Claimed p w = At d h r.id (InPhase p) w × ((p ≡ destroyed) ⊎ (p ≡ destroying))

  to_destroying :
      {P : State d h → Type 0} (from : Phase)
      → Ensures P
          (transition d h r.id from destroying no_reason >>= λ u. pure destroying)
          Claimed
          (Known d h r.id)
  to_destroying from =
      Ensures-bind _ _
        (Ensures-weaken _ (transition_reaches d h r.id from destroying no_reason) (λ w p. record {})
          (λ u w a. a) (λ w k. k))
        (λ u. Ensures-pure _ (λ w a. (At-map d h r.id w (λ row x. x.0) a, inr refl)))

  mid_flight :
      {P : State d h → Type 0} → Ensures P (claim_mid_flight d h r) Claimed (Known d h r.id)
  unfolding claim_mid_flight
  mid_flight = Ensures-bind _ _ (Ensures-Known d h r.id _) (λ u. to_destroying failed)

  resting : {P : State d h → Type 0} → Ensures P (claim_resting d h r) Claimed (Known d h r.id)
  unfolding claim_resting
  resting = to_destroying r.phase

  claim_outcome :
      (p : Phase) → Ensures (At d h r.id (InPhase p)) (claim_by d h p r) Claimed (Known d h r.id)
  unfolding claim_by
  claim_outcome destroyed = Ensures-pure _ (λ w a. (a, inl refl))
  claim_outcome destroying = Ensures-pure _ (λ w a. (a, inr refl))
  claim_outcome ready = resting
  claim_outcome failed = resting
  claim_outcome crashed = resting
  claim_outcome unregistered_healthy = resting
  claim_outcome _ = mid_flight

  said :
      {E : State d h → Type 0} {φ : Deployment → Type 0} (l : Line)
      → Ensures (At d h r.id φ) (say {D = d.Db} l) (λ _. At d h r.id φ) E
  unfolding say
  said l = record { at = λ w a. record { row = a.row; is = a.is; holds = a.holds } }

  said_gone :
      {E : State d h → Type 0} (l : Line)
      → Ensures (Absent d h r.id) (say {D = d.Db} l) (λ _. Absent d h r.id) E
  unfolding say
  said_gone l = record { at = λ w a. record { gone = a.gone } }

  finish_outcome :
      {P : State d h → Type 0} (dirs : Dirs)
      → Ensures P (finish d h dirs r) (λ _. At d h r.id (InPhase destroyed)) (Known d h r.id)
  unfolding finish
  finish_outcome dirs = Ensures-bind _ _ (Ensures-Known d h r.id _) λ u.
      Ensures-bind _ _ (transition_reaches d h r.id destroying destroyed no_reason) λ u.
        Ensures-weaken _ (said _) (λ w a. At-map d h r.id w (λ row x. x.0) a) (λ u w a. a)
          (λ w k. k)

  tear_down_outcome :
      (dirs : Dirs) (p : Phase)
      → Ensures
          (Claimed p)
          (tear_down d h dirs r p)
          (λ _. At d h r.id (InPhase destroyed))
          (Known d h r.id)
  unfolding tear_down
  tear_down_outcome dirs p =
      Ensures-if _ _ _ (λ e. Ensures-bind _ _ (Ensures-Known d h r.id _) (λ u. finish_outcome dirs))
        (λ e. Ensures-pure _ (λ w c. at_end e w c))
    where
      at_end :
          phase_eq p destroying ≡ false
          → (w : State d h) → Claimed p w
          → At d h r.id (InPhase destroyed) w
      at_end e w (a, inl q) = At-map d h r.id w (λ row x. cc) a
      at_end e w (a, inr q) = absurd (ground arith)

  abbrev pub Destroyed : Bool → State d h → Type 0
  Destroyed true w = Absent d h r.id w
  Destroyed false w = At d h r.id (InPhase destroyed) w

  purge_outcome :
      (purge : Bool)
      → Ensures
          (At d h r.id (InPhase destroyed))
          (purge_record d h r purge)
          (λ _. Destroyed purge)
          (Known d h r.id)
  unfolding purge_record
  purge_outcome false = Ensures-pure _ (λ w a. a)
  purge_outcome true =
      Ensures-bind _ _
        (Ensures-weaken _ (delete_record_after d h r.id) (λ w a. record {}) (λ u w a. a) (λ w k. k))
        (λ u. said_gone _)

  destroy_one_outcome :
      (dirs : Dirs) (purge : Bool)
      → Ensures
          (At d h r.id (InPhase r.phase))
          (destroy_one d h dirs r purge)
          (λ _. Destroyed purge)
          (Known d h r.id)
  unfolding destroy_one
  destroy_one_outcome dirs purge =
      Ensures-bind _ _ (claim_outcome r.phase)
        λ p. Ensures-bind _ _ (tear_down_outcome dirs p) (λ u. purge_outcome purge)

  of_ok :
      (Q : State d h → Type 0) (x : Result (Unit {0})) (w : State d h)
      → Post (λ _. Q) (Known d h r.id) x w
      → x ≡ ok tt
      → Q w
  of_ok Q (ok u) w p e = p
  of_ok Q (err f) w p e = cc

-- If the row is in the phase of the record that was read, then a `destroyOne` that returns without an
-- error has left the row in phase DESTROYED, or has deleted it when the records are to be purged.
pub destroy_one-outcome :
    (d : Database) (h : Host) (dirs : Dirs) (r : Deployment) (purge : Bool) (w : State d h)
    → At d h r.id (λ row. row.phase ≡ r.phase) w
    → (destroy_one d h dirs r purge w).0 ≡ ok tt
    → Destroyed d h r purge (destroy_one d h dirs r purge w).1
destroy_one-outcome d h dirs r purge w a e =
    of_ok d h r _ _ _ ((destroy_one_outcome d h r dirs purge).at w a) e
