-- ===== src/State/Store/Moves.antt =====
-- What a call of the store has done when it returns: the compare-and-set of `Transition` and of
-- `SetRuntime`, and the guard of `Delete`.
use iold.Base.{
  ℕ, zero, suc, ◌≡◌, refl, ◌≢◌, true, false, Option, none, some, Text, text_eq, arith, Bool-cases,
  inl, inr, subst, sym, ◌==◌, Option-cases, text_eq_refl, text_eq_iff, ◌⊎◌, ◌∙◌,
}
use iold.Fault.{Fault, ok, err, conflict, illegal_transition}
use iold.Action.{Action, pure, raise, ◌>>=◌}
use iold.Host.{Host}
use iold.World.{ask}
use iold.State.Machine.{Phase, phase_eq_iff, check_transition, Illegal}
use iold.State.Machine.Graph.{◌⟶◌, check_transition→⟶}
use iold.State.Record.{
  Deployment, Reason, Statement, insert, set_phase, set_intent, set_runtime, delete, seconds, hits,
  changed, key,
}
use iold.State.Database.{
  Database, Documented, Reply, done, constraint, broken, Rows, rows, unread, settled,
}
use iold.State.Store.{State, kept_reason, execute, select, get, scan, moved, transition}

-- What a statement that is no INSERT has done, by its reply.
abbrev pub Done : Statement → Option Deployment → Option Deployment → Reply → Type 0
Done q before after (done n) =
    ((hits q before ≡ true) × (n ≡ 1) × (after ≡ changed q before))
    ⊎ ((hits q before ≡ false) × (n ≡ 0) × (after ≡ before))
Done q before after _ = after ≡ before

Documented→Done :
    (q : Statement) (row after : Option Deployment) (r : Reply)
    → Documented q row r
    → after ≡ settled r q (key q) row
    → Done q row after r
Documented→Done (insert x) none after (done n) doc e = ground (arith, text_eq_refl x.id)
Documented→Done (insert x) (some y) after (done n) doc e = absurd doc
Documented→Done (set_phase to why at id from) row after (done n) doc e =
    ground (arith, text_eq_refl id)
Documented→Done (set_intent port c at id from) row after (done n) doc e =
    ground (arith, text_eq_refl id)
Documented→Done (set_runtime pid port c st tk at id from) row after (done n) doc e =
    ground (arith, text_eq_refl id)
Documented→Done (delete id from) row after (done n) doc e = ground (arith, text_eq_refl id)
Documented→Done q row after constraint doc e = e
Documented→Done q row after broken doc e = e

settled_ne :
    (r : Reply) (q : Statement) (j : Text) (row : Option Deployment)
    → j ≢ key q
    → settled r q j row ≡ row
settled_ne (done n) q j row h = ground (arith, text_eq_iff j (key q))
settled_ne constraint q j row h = refl
settled_ne broken q j row h = refl

set_phase_hit :
    (to : Phase) (why : Reason) (at : ℕ) (id : Text) (from : Phase) (row : Option Deployment)
    → hits (set_phase to why at id from) row ≡ true
    → (r : Deployment) × (row ≡ some r)
      × (r.phase ≡ from)
      × (changed (set_phase to why at id from) row
          ≡ some (record r { phase = to; failure_reason = why; updated_at = at }))
set_phase_hit to why at id from none h = cc
set_phase_hit to why at id from (some r) h = (r, refl, (phase_eq_iff r.phase from).0 h, refl)

module _ (d : Database) (h : Host) where
  pub exec-Done :
      (q : Statement) (db : d.Db)
      → Done q (d.view db (key q)) (d.view (d.exec q db).1 (key q)) (d.exec q db).0
  exec-Done q db =
      Documented→Done q (d.view db (key q)) (d.view (d.exec q db).1 (key q)) (d.exec q db).0
        (d.exec_reply q db) (d.exec_view q db (key q))

  pub exec_ne :
      (q : Statement) (db : d.Db) (j : Text) → j ≢ key q → d.view (d.exec q db).1 j ≡ d.view db j
  exec_ne q db j n = d.exec_view q db j ∙ settled_ne (d.exec q db).0 q j (d.view db j) n

  -- The row under `id` has made the transition, at some time.
  pub record Transitioned (id : Text) (from to : Phase) (why : Reason) (w w' : State d h)
      : Type 0 where
    pub row : Deployment
    pub was : d.view w.db id ≡ some row
    pub at_from : row.phase ≡ from
    pub edge : from ⟶ to
    pub time : ℕ
    pub becomes :
        d.view w'.db id
        ≡ some (record row { phase = to; failure_reason = kept_reason to why; updated_at = time })

  abbrev pub Unchanged : State d h → State d h → Type 0
  Unchanged w w' = (j : Text) → d.view w'.db j ≡ d.view w.db j

  view-scan : (found : Rows (Option Deployment)) (w : State d h) → (scan d h found w).1 ≡ w
  unfolding scan pure raise
  view-scan (rows (some r)) w = refl
  view-scan (rows none) w = refl
  view-scan unread w = refl

  pub view-get : (id : Text) (w : State d h) → Unchanged w (get d h id w).1
  unfolding get select ◌>>=◌
  view-get id w j =
      rw (view-scan (d.query id w.db).0 (record w { db = (d.query id w.db).1 }))
        (d.query_view id w.db j)

  -- The call that reads the row for an error message reads only, and the error is returned.
  module _ (id : Text) (blame : Deployment → Fault) where
    complain : Action (State d h) Unit
    complain = get d h id >>= λ r. raise (blame r)

    view-complain : (w : State d h) → Unchanged w (complain w).1
    unfolding complain ◌>>=◌ raise
    view-complain w j = ground (arith, view-get id w j)

    complain_fails : (w : State d h) → (complain w).0 ≢ ok tt
    unfolding complain ◌>>=◌ raise
    complain_fails w e = ground arith

  view-moved :
      (id : Text) (from : Phase) (reply : Reply) (w : State d h)
      → Unchanged w (moved d h id from reply w).1
  unfolding moved complain raise pure
  view-moved id from (done n) w j = elim (Bool-cases (n == 0)) [
    | inl z ↦ rw (z, moved) (view-complain id (λ r. conflict from r.phase) w j)
    | inr z ↦ rw (z, moved)
  ]
  view-moved id from constraint w j = refl
  view-moved id from broken w j = refl

  moved_ok :
      (id : Text) (from : Phase) (reply : Reply) (w : State d h)
      → (moved d h id from reply w).0 ≡ ok tt
      → (n : ℕ) × (reply ≡ done (suc n))
  unfolding moved complain raise pure
  moved_ok id from (done zero) w e = absurd (complain_fails id (λ r. conflict from r.phase) w e)
  moved_ok id from (done (suc n)) w e = (n, refl)
  moved_ok id from constraint w e = cc
  moved_ok id from broken w e = cc

  pub Done-hit :
      (q : Statement) (before after : Option Deployment) (n : ℕ)
      → Done q before after (done (suc n))
      → (hits q before ≡ true) × (after ≡ changed q before)
  Done-hit q before after n h = ground arith

  module _ (id : Text) (from to : Phase) (why : Reason) (w : State d h) where
    abbrev time_read : ℕ
    time_read = (h.now w.os).0

    abbrev update : Statement
    update = set_phase to (kept_reason to why) (seconds time_read) id from

    abbrev issued : State d h
    issued = record w { os = (h.now w.os).1; db = (d.exec update w.db).1 }

    transition_legal :
        check_transition from to ≡ none
        → transition d h id from to why w ≡ moved d h id from (d.exec update w.db).0 issued
    unfolding transition ◌>>=◌ ask execute
    transition_legal e = rw (e, transition)

    transition_illegal :
        {i : Illegal}
        → check_transition from to ≡ some i
        → transition d h id from to why w ≡ (err (illegal_transition i), w)
    unfolding transition raise
    transition_illegal e = rw (e, transition)

    moved-Transitioned :
        check_transition from to ≡ none
        → (moved d h id from (d.exec update w.db).0 issued).0 ≡ ok tt
        → Transitioned id from to why w (moved d h id from (d.exec update w.db).0 issued).1
    moved-Transitioned legal e =
        let reply = (d.exec update w.db).0 in
        let (n, replied) = moved_ok id from reply issued e in
        let (hit, after) = Done-hit update (d.view w.db id) _ n (
          subst (λ r. Done update (d.view w.db id) (d.view issued.db id) r) replied
            (exec-Done update w.db)) in
        let same = view-moved id from reply issued in
        let (row, was, at, new) =
          set_phase_hit to (kept_reason to why) (seconds time_read) id from (d.view w.db id) hit in
        record {
          row = row;
          was = was;
          at_from = at;
          edge = check_transition→⟶ from to legal;
          time = seconds time_read;
          becomes = same id ∙ after ∙ new;
        }

    -- `Transition` returns without an error only if it moved the row from the expected phase along an
    -- edge of the diagram, with a reason only for FAILED and CRASHED.
    pub transition_ok :
        (transition d h id from to why w).0 ≡ ok tt
        → Transitioned id from to why w (transition d h id from to why w).1
    transition_ok e = elim (Option-cases (check_transition from to)) [
      | inl legal ↦
          rw (transition_legal legal) (moved-Transitioned legal (rw (transition_legal legal) at e))
      | inr (i, bad) ↦ absurd (refusal bad e)
    ]
      where
        refusal :
            {i : Illegal}
            → check_transition from to ≡ some i
            → (transition d h id from to why w).0 ≡ ok tt
            → ⊥
        refusal bad e = cc (transition_illegal bad)

    moved_err :
        (reply : Reply) {f : Fault}
        → Done update (d.view w.db id) (d.view issued.db id) reply
        → (moved d h id from reply issued).0 ≡ err f
        → d.view issued.db id ≡ d.view w.db id
    unfolding moved pure
    moved_err (done zero) x e = ground arith
    moved_err (done (suc n)) x e = ground arith
    moved_err constraint x e = x
    moved_err broken x e = x

    issued_same :
        {f : Fault}
        → (moved d h id from (d.exec update w.db).0 issued).0 ≡ err f
        → Unchanged w issued
    issued_same e j = elim (Bool-cases (text_eq j id)) [
      | inl same ↦
          subst (λ k. d.view issued.db k ≡ d.view w.db k) (sym ((text_eq_iff j id).0 same))
            (moved_err _ (exec-Done update w.db) e)
      | inr other ↦ exec_ne update w.db j (λ p. absurd (ground (arith, text_eq_iff j id)))
    ]

    -- A `Transition` that returns an error has changed no row, whatever the error.
    pub transition_err :
        {f : Fault}
        → (transition d h id from to why w).0 ≡ err f
        → Unchanged w (transition d h id from to why w).1
    transition_err {f} e = elim (Option-cases (check_transition from to)) [
      | inl legal ↦
          rw (transition_legal legal)
            (λ j. view-moved id from _ issued j ∙ issued_same (rw (transition_legal legal) at e) j)
      | inr (i, bad) ↦ rw (transition_illegal bad) (λ j. refl)
    ]
