-- ===== src/State/Machine/Graph.antt =====
-- The diagram of internal/state/machine.go as a relation, and what follows from its shape.
use iold.Base.{
  ◌≡◌, refl, subst, sym, none, some, List, arith, ◌↔◌, ◌⊎◌, inl, inr, Bool, true, false,
}
use iold.State.Machine.{
  Phase, requested, validating, downloading, starting, healthy, registering, ready,
  unregistered_healthy, failed, crashed, destroying, destroyed, other, transitions,
  check_transition,
}

-- The phases of a deployment that has not been given up.
abbrev pub is_active : Phase → Bool
is_active failed = false
is_active crashed = false
is_active destroying = false
is_active destroyed = false
is_active (other s) = false
is_active _ = true

infix 40 ◌⟶◌ ◌⟶*◌
pub data ◌⟶◌ : Phase → Phase → Type 0 where
  validate : requested ⟶ validating
  download : validating ⟶ downloading
  start : downloading ⟶ starting
  become_healthy : starting ⟶ healthy
  register : healthy ⟶ registering
  serve : registering ⟶ ready
  split : registering ⟶ unregistered_healthy
  retry : unregistered_healthy ⟶ registering
  retire_split : unregistered_healthy ⟶ destroying
  retire_ready : ready ⟶ destroying
  retire_failed : failed ⟶ destroying
  retire_crashed : crashed ⟶ destroying
  finish : destroying ⟶ destroyed
  fail : {p : Phase} → is_active p ≡ true → p ⟶ failed
  fail_destroying : destroying ⟶ failed
  crash : {p : Phase} → is_active p ≡ true → p ⟶ crashed

pub data ◌⟶*◌ : Phase → Phase → Type 0 where
  here : {p : Phase} → p ⟶* p
  onward : {p q r : Phase} → p ⟶ q → q ⟶* r → p ⟶* r

ruleset edges = (
  validate, download, start, become_healthy, register, serve, split, retry, retire_split,
  retire_ready, retire_failed, retire_crashed, finish, fail, fail_destroying, crash,
)

pub check_transition→⟶ : (p q : Phase) → check_transition p q ≡ none → p ⟶ q
unfolding check_transition
check_transition→⟶ p q h = grind (arith, edges)

fail-check_transition : (p : Phase) → is_active p ≡ true → check_transition p failed ≡ none
unfolding check_transition
fail-check_transition p h = ground arith

crash-check_transition : (p : Phase) → is_active p ≡ true → check_transition p crashed ≡ none
unfolding check_transition
crash-check_transition p h = ground arith

⟶→check_transition : {p q : Phase} → p ⟶ q → check_transition p q ≡ none
unfolding check_transition
⟶→check_transition (fail {p} h) = fail-check_transition p h
⟶→check_transition (crash {p} h) = crash-check_transition p h
⟶→check_transition validate = refl
⟶→check_transition _ = refl

-- The check lets a transition through exactly when the relation has it as an edge: the ones of the map of transitions, to
-- FAILED from every phase but FAILED, CRASHED and DESTROYED, and to CRASHED from every phase but these and
-- DESTROYING.
pub check_transition_iff : (p q : Phase) → (check_transition p q ≡ none) ↔ (p ⟶ q)
check_transition_iff p q = (check_transition→⟶ p q, ⟶→check_transition)

-- Phases after which a deployment does not serve again.
abbrev pub is_given_up : Phase → Bool
is_given_up failed = true
is_given_up crashed = true
is_given_up destroying = true
is_given_up destroyed = true
is_given_up _ = false

step-is_given_up : {p q : Phase} → p ⟶ q → is_given_up p ≡ true → is_given_up q ≡ true
step-is_given_up validate h = ground arith
step-is_given_up _ h = ground arith

-- A deployment that failed, crashed or is being destroyed is never active again.
pub given_up_absorbs : {p q : Phase} → p ⟶* q → is_given_up p ≡ true → is_given_up q ≡ true
given_up_absorbs here h = h
given_up_absorbs (onward e r) h = given_up_absorbs r (step-is_given_up e h)

destroyed_stuck : {p q : Phase} → p ⟶ q → p ≡ destroyed → ⊥
destroyed_stuck validate h = ground arith
destroyed_stuck (fail a) h = ground arith
destroyed_stuck (crash a) h = ground arith
destroyed_stuck _ h = ground arith

-- Nothing follows DESTROYED.
pub destroyed_final : {p q : Phase} → p ⟶* q → p ≡ destroyed → q ≡ destroyed
destroyed_final here h = h
destroyed_final (onward e r) h = absurd (destroyed_stuck e h)

abbrev pub is_serving : Phase → Bool
is_serving ready = true
is_serving unregistered_healthy = true
is_serving _ = false

abbrev pub before_healthy : Phase → Bool
before_healthy requested = true
before_healthy validating = true
before_healthy downloading = true
before_healthy starting = true
before_healthy _ = false

-- A route through the diagram that visits `m`.
pub data Visits (m : Phase) : Phase → Phase → Type 0 where
  now : {q : Phase} → m ⟶* q → Visits m m q
  later : {p q r : Phase} → p ⟶ q → Visits m q r → Visits m p r

step_before_healthy :
    {p q : Phase}
    → p ⟶ q
    → before_healthy p ≡ true
    → (before_healthy q ≡ true) ⊎ (q ≡ healthy) ⊎ (is_given_up q ≡ true)
step_before_healthy validate h = ground arith
step_before_healthy _ h = ground arith

-- A deployment serves only after it was found healthy: every route from a phase before HEALTHY to
-- READY or UNREGISTERED_HEALTHY goes through HEALTHY.
pub serving-Visits_healthy :
    {p q : Phase} → p ⟶* q → before_healthy p ≡ true → is_serving q ≡ true → Visits healthy p q
serving-Visits_healthy {p} here b s = absurd (ground arith)
serving-Visits_healthy {q} (onward {q = m} e r) b s = elim (step_before_healthy e b) [
  | inl again ↦ later e (serving-Visits_healthy r again s)
  | inr (inl there) ↦
      later e (subst (λ x. Visits healthy x q) (sym there) (now (subst (λ x. x ⟶* q) there r)))
  | inr (inr gone) ↦ absurd (apart q (given_up_absorbs r gone) s)
]
  where
    apart : (x : Phase) → is_given_up x ≡ true → is_serving x ≡ true → ⊥
    apart x g s = ground arith

give_up : (p : Phase) → is_active p ≡ true → p ⟶* destroyed
give_up p h = onward (fail h) (onward retire_failed (onward finish here))

-- Every phase that the transition map knows has a legal route to DESTROYED.
pub destroyed_reachable : (p : Phase) (ps : List Phase) → transitions p ≡ some ps → p ⟶* destroyed
destroyed_reachable (other s) ps h = cc
destroyed_reachable destroyed ps h = here
destroyed_reachable destroying ps h = onward finish here
destroyed_reachable failed ps h = onward retire_failed (onward finish here)
destroyed_reachable crashed ps h = onward retire_crashed (onward finish here)
destroyed_reachable p ps h = give_up p refl
