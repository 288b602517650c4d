-- ===== src/State/Store/After.antt =====
-- What is known of one row after a call of the store, as assertions about what follows.
use iold.Base.{ℕ, ◌≡◌, refl, none, some, List, Text, subst, sym, ◌∙◌}
use iold.Fault.{Result, ok, err}
use iold.Action.{Action, pure, raise, ◌>>=◌}
use iold.Action.Keeps.{Keeps}
use iold.Action.Ensures.{Ensures, Post}
use iold.Host.{Host}
use iold.World.{Event, Line, ask, note, say}
use iold.State.Machine.{Phase}
use iold.State.Record.{Deployment, Reason}
use iold.State.Database.{Database, Rows, rows, unread}
use iold.State.Store.{State, kept_reason, transition, list, scan_all, select_all}
use iold.State.Store.Moves.{Transitioned, transition_ok, transition_err, Unchanged}
use iold.Supervisor.Identity.Indifferent.{IsIndifferent}

module _ (d : Database) (h : Host) (id : Text) where
  -- There is a row under `id`, and it is as `φ` says.
  pub record At (φ : Deployment → Type 0) (w : State d h) : Type 0 where
    pub row : Deployment
    pub is : d.view w.db id ≡ some row
    pub holds : φ row

  -- There is none.
  pub record Absent (w : State d h) : Type 0 where
    pub gone : d.view w.db id ≡ none

  pub At-map :
      {φ ψ : Deployment → Type 0} (w : State d h) → ((r : Deployment) → φ r → ψ r) → At φ w → At ψ w
  At-map w f a = record { row = a.row; is = a.is; holds = f a.row a.holds }

  At-Unchanged :
      {φ : Deployment → Type 0} (w w' : State d h) → Unchanged d h w w' → At φ w → At φ w'
  At-Unchanged w w' u a = record { row = a.row; is = u id ∙ a.is; holds = a.holds }

  module _ (φ : Deployment → Type 0) where
    At-ask : {A : Type 0} (call : h.Os → A × h.Os) → Keeps (At φ) (ask {D = d.Db} call)
    unfolding ask
    At-ask call = record { at = λ w a. record { row = a.row; is = a.is; holds = a.holds } }

    At-note : (e : Event) → Keeps (At φ) (note {D = d.Db} e)
    unfolding note
    At-note e = record { at = λ w a. record { row = a.row; is = a.is; holds = a.holds } }

    At-say : (l : Line) → Keeps (At φ) (say {D = d.Db} l)
    unfolding say
    At-say l = record { at = λ w a. record { row = a.row; is = a.is; holds = a.holds } }

    pub At-IsIndifferent : IsIndifferent h (At φ)
    At-IsIndifferent = record { asks = λ A call. At-ask call; notes = At-note; says = At-say }

  Absent-say : (l : Line) → Keeps Absent (say {D = d.Db} l)
  unfolding say
  Absent-say l = record { at = λ w a. record { gone = a.gone } }

  -- What a change of the phase does not touch.
  abbrev pub IsPhaseless : (Deployment → Type 0) → Type 0
  IsPhaseless φ =
      (r : Deployment) (to : Phase) (why : Reason) (time : ℕ)
      → φ r
      → φ (record r { phase = to; failure_reason = why; updated_at = time })

  Transitioned-At :
      (φ : Deployment → Type 0)
      → IsPhaseless φ
      → (from to : Phase) (why : Reason) (w w' : State d h) → At φ w
      → Transitioned d h id from to why w w'
      → At (λ r. φ r × (r.phase ≡ to) × (r.failure_reason ≡ kept_reason to why)) w'
  Transitioned-At φ stable from to why w w' a t = record {
    row = record t.row { phase = to; failure_reason = kept_reason to why; updated_at = t.time };
    is = t.becomes;
    holds = (stable t.row to _ t.time (subst φ (same (sym a.is ∙ t.was)) a.holds), refl, refl);
  }
    where
      same : {x y : Deployment} → some x ≡ some y → x ≡ y
      same e = cc

  by_result :
      (φ : Deployment → Type 0) (stable : IsPhaseless φ) (from to : Phase) (why : Reason)
      (w : State d h)
      → At φ w
      → (x : Result (Unit {0})) → (transition d h id from to why w).0 ≡ x
      → Post
          (λ _. At (λ r. φ r × (r.phase ≡ to) × (r.failure_reason ≡ kept_reason to why)))
          (At φ)
          x
          (transition d h id from to why w).1
  by_result φ stable from to why w a (ok u) e =
      Transitioned-At φ stable from to why w _ a (transition_ok d h id from to why w e)
  by_result φ stable from to why w a (err f) e =
      At-Unchanged w _ (transition_err d h id from to why w e) a

  -- A transition that returns has moved the row and kept the rest of it; one that fails has not
  -- changed it.
  pub transition_after :
      (φ : Deployment → Type 0) (stable : IsPhaseless φ) (from to : Phase) (why : Reason)
      → Ensures
          (At φ)
          (transition d h id from to why)
          (λ _. At (λ r. φ r × (r.phase ≡ to) × (r.failure_reason ≡ kept_reason to why)))
          (At φ)
  transition_after φ stable from to why = record {
    at = λ w a. by_result φ stable from to why w a (transition d h id from to why w).0 refl;
  }

  -- A transition is a compare-and-set: it returns only if the row was in the phase it names.
  pub record Known (w : State d h) : Type 0 where

  reached :
      (from to : Phase) (why : Reason) (w : State d h) (x : Result (Unit {0}))
      → (transition d h id from to why w).0 ≡ x
      → Post
          (λ _. At (λ r. (r.phase ≡ to) × (r.failure_reason ≡ kept_reason to why)))
          Known
          x
          (transition d h id from to why w).1
  reached from to why w (ok u) e =
      let t = transition_ok d h id from to why w e in
      record {
        row = record t.row { phase = to; failure_reason = kept_reason to why; updated_at = t.time };
        is = t.becomes;
        holds = (refl, refl);
      }
  reached from to why w (err f) e = record {}

  pub transition_reaches :
      (from to : Phase) (why : Reason)
      → Ensures Known
          (transition d h id from to why)
          (λ _. At (λ r. (r.phase ≡ to) × (r.failure_reason ≡ kept_reason to why)))
          Known
  transition_reaches from to why = record {
    at = λ w k. reached from to why w (transition d h id from to why w).0 refl;
  }

  moves :
      (φ : Deployment → Type 0) (from to : Phase) (why : Reason) (w : State d h)
      → At φ w
      → (x : Result (Unit {0})) → (transition d h id from to why w).0 ≡ x
      → Post (λ _. At (λ r. r.phase ≡ to)) (At φ) x (transition d h id from to why w).1
  moves φ from to why w a (ok u) e = At-map _ (λ r x. x.0) (reached from to why w (ok u) e)
  moves φ from to why w a (err f) e = At-Unchanged w _ (transition_err d h id from to why w e) a

  -- The same, where what was known of the row holds on if the transition fails.
  pub transition_moves :
      (φ : Deployment → Type 0) (from to : Phase) (why : Reason)
      → Ensures (At φ) (transition d h id from to why) (λ _. At (λ r. r.phase ≡ to)) (At φ)
  transition_moves φ from to why = record {
    at = λ w a. moves φ from to why w a (transition d h id from to why w).0 refl;
  }

  Known-by : {A : Type 0} (x : Result A) (w : State d h) → Post (λ _. Known) Known x w
  Known-by (ok a) w = record {}
  Known-by (err f) w = record {}

  -- Nothing is claimed of such a call.
  pub Ensures-Known :
      {A : Type 0} {P : State d h → Type 0} (m : Action (State d h) A)
      → Ensures P m (λ _. Known) Known
  Ensures-Known m = record { at = λ w p. Known-by (m w).0 (m w).1 }

module _ (d : Database) (h : Host) where
  -- What `List` has read.
  abbrev pub Listed : State d h → List Deployment → State d h → Type 0
  Listed w rs w' = ((d.query_all w.db).0 ≡ rows rs) × ((j : Text) → d.view w'.db j ≡ d.view w.db j)

  list_scanned :
      (w w' : State d h) (found : Rows (List Deployment))
      → (d.query_all w.db).0 ≡ found
      → ((j : Text) → d.view w'.db j ≡ d.view w.db j)
      → Post (Listed w) (λ v. Unit) (scan_all d h found w').0 (scan_all d h found w').1
  unfolding scan_all pure raise
  list_scanned w w' (rows rs) e u = (e, u)
  list_scanned w w' unread e u = tt

  pub list_read : (w : State d h) → Post (Listed w) (λ v. Unit) (list d h w).0 (list d h w).1
  unfolding list ◌>>=◌ select_all
  list_read w = list_scanned w _ (d.query_all w.db).0 refl (d.query_all_view w.db)
