-- ===== src/State/Machine.antt =====
-- internal/state/machine.go: the phases and the legal transitions between them.
pub mod Graph
use iold.Base.{
  ℕ, ◌≡◌, ◌&&◌, not, Bool, true, false, Option, none, some, List, [], ◌∷◌, Text, text_eq,
  text_eq_iff, arith, if◌then◌else◌, ◌↔◌, ◌==◌,
}

-- `other s` is any text that is none of the twelve constants: the column is a plain string.
pub data Phase : Type 0 where
  requested validating downloading starting healthy registering ready : Phase
  unregistered_healthy failed crashed destroying destroyed : Phase
  other : Text → Phase

abbrev rank : Phase → ℕ
rank requested = 0
rank validating = 1
rank downloading = 2
rank starting = 3
rank healthy = 4
rank registering = 5
rank ready = 6
rank unregistered_healthy = 7
rank failed = 8
rank crashed = 9
rank destroying = 10
rank destroyed = 11
rank (other s) = 12

-- Go's `==` on two phases.
abbrev pub phase_eq : Phase → Phase → Bool
phase_eq (other s) (other t) = text_eq s t
phase_eq p q = rank p == rank q

pub phase_eq_iff : (p q : Phase) → (phase_eq p q ≡ true) ↔ (p ≡ q)
phase_eq_iff (other s) (other t) = ground (arith, text_eq_iff s t)
phase_eq_iff p q = ground arith

-- `transitions[from]`; `none` is a key that the map does not hold.
abbrev pub transitions : Phase → Option (List Phase)
transitions requested = some (validating ∷ [])
transitions validating = some (downloading ∷ [])
transitions downloading = some (starting ∷ [])
transitions starting = some (healthy ∷ [])
transitions healthy = some (registering ∷ [])
transitions registering = some (ready ∷ unregistered_healthy ∷ [])
transitions unregistered_healthy = some (registering ∷ destroying ∷ [])
transitions ready = some (destroying ∷ [])
transitions failed = some (destroying ∷ [])
transitions crashed = some (destroying ∷ [])
transitions destroying = some (destroyed ∷ [])
transitions destroyed = some []
transitions (other s) = none

abbrev contains : List Phase → Phase → Bool
contains [] p = false
contains (q ∷ qs) p = if phase_eq q p then true else contains qs p

-- A key that is missing reads as the empty slice.
abbrev targets : Option (List Phase) → List Phase
targets none = []
targets (some ps) = ps

unfoldable pub can_transition : Phase → Phase → Bool
can_transition from to =
    if phase_eq to failed
    then not (phase_eq from destroyed) && not (phase_eq from failed) && not (phase_eq from crashed)
    else if phase_eq to crashed
    then not (phase_eq from destroyed)
      && not (phase_eq from destroying)
      && not (phase_eq from failed)
      && not (phase_eq from crashed)
    else contains (targets (transitions from)) to

pub data Illegal : Type 0 where
  unknown_phase : Phase → Illegal
  forbidden : Phase → Phase → Illegal

abbrev is_known : Option (List Phase) → Bool
is_known none = false
is_known (some ps) = true

-- `none` is the nil error.
unfoldable pub check_transition : Phase → Phase → Option Illegal
unfolding can_transition
check_transition from to =
    if not (is_known (transitions from))
    then some (unknown_phase from)
    else if not (is_known (transitions to))
    then some (unknown_phase to)
    else if not (can_transition from to)
    then some (forbidden from to)
    else none
