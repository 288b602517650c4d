-- ===== src/State/Store/Life.antt =====
-- The abstract life of the row under one key, which every operation of the store has to follow.
use iold.Base.{
  ℕ, ◌≡◌, refl, Bool, true, false, Option, none, some, [], Text, text_eq, arith, Bool-cases, inl,
  inr, subst, sym,
}
use iold.State.Machine.{
  Phase, requested, validating, downloading, starting, failed, crashed, destroyed, phase_eq_iff,
}
use iold.State.Machine.Graph.{◌⟶◌, validate}
use iold.State.Record.{
  Deployment, Reason, no_reason, Statement, insert, set_phase, set_intent, set_runtime, delete, key,
  hits, changed, row_after,
}
use iold.State.Database.{Reply, done, constraint, broken, settled}

abbrev pub is_blamed : Phase → Bool
is_blamed failed = true
is_blamed crashed = true
is_blamed _ = false

-- One change of a row: it is inserted in phase REQUESTED with no process, moves along an edge of the
-- diagram, is given its launch in phase DOWNLOADING, is given its process once in phase STARTING, or
-- is dropped in phase DESTROYED.
pub data RowStep (a b : Option Deployment) : Type 0 where
  born :
      (r : Deployment)
      → a ≡ none
      → b ≡ some r
      → r.phase ≡ requested
      → r.pid ≡ 0
      → r.failure_reason ≡ no_reason
      → RowStep a b
  moved :
      (r : Deployment) (to : Phase) (why : Reason) (at : ℕ)
      → a ≡ some r
      → r.phase ⟶ to
      → (is_blamed to ≡ false → why ≡ no_reason)
      → b ≡ some (record r { phase = to; failure_reason = why; updated_at = at })
      → RowStep a b
  planned :
      (r : Deployment) (port : ℕ) (command : Text) (at : ℕ)
      → a ≡ some r
      → r.phase ≡ downloading
      → b
        ≡ some (record r {
          pid = 0;
          port = port;
          command = command;
          started_at = 0;
          start_token = [];
          updated_at = at;
        })
      → RowStep a b
  attached :
      (r : Deployment) (pid port : ℕ) (command : Text) (started_at : ℕ) (token : Text) (at : ℕ)
      → a ≡ some r
      → r.phase ≡ starting
      → r.pid ≡ 0
      → b
        ≡ some (record r {
          pid = pid;
          port = port;
          command = command;
          started_at = started_at;
          start_token = token;
          updated_at = at;
        })
      → RowStep a b
  purged : (r : Deployment) → a ≡ some r → r.phase ≡ destroyed → b ≡ none → RowStep a b

pub data Life (a : Option Deployment) : Option Deployment → Type 0 where
  same : Life a a
  next : {b c : Option Deployment} → Life a b → RowStep b c → Life a c

pub Life-trans : {a b c : Option Deployment} → Life a b → Life b c → Life a c
Life-trans l same = l
Life-trans l (next m s) = next (Life-trans l m) s

-- A statement is lawful if whatever its WHERE clause lets it change is a step of a life.
abbrev pub Lawful : Statement → Type 0
Lawful q = (row : Option Deployment) → hits q row ≡ true → RowStep row (changed q row)

pub insert-Lawful :
    (r : Deployment)
    → r.phase ≡ requested
    → r.pid ≡ 0
    → r.failure_reason ≡ no_reason
    → Lawful (insert r)
insert-Lawful r p n f none h = born r refl refl p n f
insert-Lawful r p n f (some x) h = cc

pub set_phase-Lawful :
    (to : Phase) (why : Reason) (at : ℕ) (id : Text) (from : Phase)
    → from ⟶ to
    → (is_blamed to ≡ false → why ≡ no_reason)
    → Lawful (set_phase to why at id from)
set_phase-Lawful to why at id from e w none h = cc
set_phase-Lawful to why at id from e w (some r) h =
    moved r to why at refl (subst (λ p. p ⟶ to) (sym ((phase_eq_iff r.phase from).0 h)) e) w refl

pub set_intent-Lawful :
    (port : ℕ) (command : Text) (at : ℕ) (id : Text)
    → Lawful (set_intent port command at id downloading)
set_intent-Lawful port command at id none h = cc
set_intent-Lawful port command at id (some r) h =
    planned r port command at refl ((phase_eq_iff r.phase downloading).0 h) refl

pub set_runtime-Lawful :
    (pid port : ℕ) (command : Text) (started_at : ℕ) (token : Text) (at : ℕ) (id : Text)
    → Lawful (set_runtime pid port command started_at token at id starting)
set_runtime-Lawful pid port command started_at token at id none h = cc
set_runtime-Lawful pid port command started_at token at id (some r) h =
    attached r pid port command started_at token at refl
      (ground (arith, phase_eq_iff r.phase starting)) (ground arith) refl

pub delete-Lawful : (id : Text) → Lawful (delete id destroyed)
delete-Lawful id none h = cc
delete-Lawful id (some r) h = purged r refl ((phase_eq_iff r.phase destroyed).0 h) refl

Life-row_after : (q : Statement) → Lawful q → (row : Option Deployment) → Life row (row_after q row)
Life-row_after q law row = elim (Bool-cases (hits q row)) [
  | inl h ↦ rw h (next same (law row h))
  | inr h ↦ rw h same
]

pub Life-settled :
    (q : Statement)
    → Lawful q
    → (r : Reply) (j : Text) (row : Option Deployment) → Life row (settled r q j row)
Life-settled q law constraint j row = same
Life-settled q law broken j row = same
Life-settled q law (done n) j row = elim (Bool-cases (text_eq j (key q))) [
  | inl h ↦ rw h (Life-row_after q law row)
  | inr h ↦ rw h same
]

abbrev pub is_early : Phase → Bool
is_early requested = true
is_early validating = true
is_early downloading = true
is_early _ = false

-- No process before STARTING, and a reason only in FAILED and CRASHED.
pub record IsSound (r : Deployment) : Type 0 where
  pub unlaunched : is_early r.phase ≡ true → r.pid ≡ 0
  pub unblamed : is_blamed r.phase ≡ false → r.failure_reason ≡ no_reason

abbrev pub Sound : Option Deployment → Type 0
Sound none = Unit
Sound (some r) = IsSound r

early_back : {p q : Phase} → p ⟶ q → is_early q ≡ true → is_early p ≡ true
early_back validate h = ground arith
early_back _ h = ground arith

moved-IsSound :
    (r : Deployment) (to : Phase) (why : Reason) (at : ℕ)
    → r.phase ⟶ to
    → (is_blamed to ≡ false → why ≡ no_reason)
    → IsSound r
    → IsSound (record r { phase = to; failure_reason = why; updated_at = at })
moved-IsSound r to why at e w s = record {
  unlaunched = λ h. s.unlaunched (early_back e h);
  unblamed = w;
}

RowStep-Sound : {a b : Option Deployment} → RowStep a b → Sound a → Sound b
RowStep-Sound (born r ea eb p n f) s = rw eb (record { unlaunched = λ _. n; unblamed = λ _. f })
RowStep-Sound (moved r to why at ea e w eb) s =
    rw eb (moved-IsSound r to why at e w (subst Sound ea s))
RowStep-Sound (planned r port command at ea p eb) s =
    let v : IsSound r = subst Sound ea s in
    rw eb (record { unlaunched = λ _. refl; unblamed = λ h. v.unblamed h })
RowStep-Sound (attached r pid port command st tk at ea p n eb) s =
    let v : IsSound r = subst Sound ea s in
    rw eb (record { unlaunched = λ h. absurd (ground arith); unblamed = λ h. v.unblamed h })
RowStep-Sound (purged r ea p eb) s = rw eb tt

-- Along a life a row stays sound: no process before STARTING, and a reason only in FAILED and CRASHED.
pub Life-Sound : {a b : Option Deployment} → Life a b → Sound a → Sound b
Life-Sound same s = s
Life-Sound (next l st) s = RowStep-Sound st (Life-Sound l s)
