-- ===== src/State/Store/Effect.antt =====
-- What every operation of the store preserves, on every branch and with every failure of the database:
-- whatever its statements preserve.
use iold.Base.{
  ℕ, ◌≡◌, refl, ◌≢◌, ◌∙◌, Bool, true, false, Option, none, some, List, Text, arith, inl, inr, subst,
  sym, Option-cases,
}
use iold.Fault.{Result, err, not_found}
use iold.Action.Keeps.{Keeps, Keeps-bind, Keeps-raise, Keeps-pure, Keeps-if, Keeps-attempt}
use iold.Host.{Host}
use iold.World.{Event, Line, ask, note, say}
use iold.State.Machine.{Phase, downloading, starting, check_transition}
use iold.State.Machine.Graph.{check_transition→⟶}
use iold.State.Record.{Deployment, Reason, no_reason, Statement, insert, key}
use iold.State.Database.{Database, Reply, done, constraint, broken, Rows, rows, unread}
use iold.State.Store.{
  State, kept_reason, execute, select, select_all, created, create, scan, get, scan_all, list,
  moved, transition, expect_one_runtime_row, set_runtime_intent, record_runtime, refused, dropped,
  delete_record,
}
use iold.State.Store.Life.{
  is_blamed, Life, same, Life-trans, Lawful, Life-settled, insert-Lawful, set_phase-Lawful,
  set_intent-Lawful, set_runtime-Lawful, delete-Lawful,
}
use iold.State.Store.Moves.{exec_ne}
use iold.Supervisor.Identity.Indifferent.{IsIndifferent}
use iold.Supervisor.Identity.Facts.{IsQuiet}

kept_reason_blamed :
    (to : Phase) (why : Reason) → is_blamed to ≡ false → kept_reason to why ≡ no_reason
kept_reason_blamed to why h = ground arith

abbrev pub is_insert : Statement → Bool
is_insert (insert r) = true
is_insert _ = false

-- An assertion that no question to the system, no line and no query can break, and no lawful change of
-- the row under `id`.
pub record IsKept (d : Database) (h : Host) (P : State d h → Type 0) (id : Text) : Type 1 where
  pub quiet : IsQuiet h P
  pub says : (l : Line) → Keeps P (say {D = d.Db} l)
  pub selects : (j : Text) → Keeps P (select d h j)
  pub lists : Keeps P (select_all d h)
  pub executes :
      (q : Statement) → Lawful q → is_insert q ≡ false → key q ≡ id → Keeps P (execute d h q)

module _ (d : Database) (h : Host) (P : State d h → Type 0) (id : Text) (s : IsKept d h P id) where
  now-Keeps : Keeps P (ask {D = d.Db} h.now)
  now-Keeps = s.quiet.asks ℕ h.now

  scan-Keeps : (found : Rows (Option Deployment)) → Keeps P (scan d h found)
  unfolding scan
  scan-Keeps (rows (some r)) = Keeps-pure _
  scan-Keeps (rows none) = Keeps-raise _
  scan-Keeps unread = Keeps-raise _

  pub get-Keeps : (j : Text) → Keeps P (get d h j)
  unfolding get
  get-Keeps j = Keeps-bind _ _ (s.selects j) (λ found. scan-Keeps found)

  scan_all-Keeps : (found : Rows (List Deployment)) → Keeps P (scan_all d h found)
  unfolding scan_all
  scan_all-Keeps (rows rs) = Keeps-pure _
  scan_all-Keeps unread = Keeps-raise _

  pub list-Keeps : Keeps P (list d h)
  unfolding list
  list-Keeps = Keeps-bind _ _ s.lists (λ found. scan_all-Keeps found)

  moved-Keeps : (j : Text) (from : Phase) (reply : Reply) → Keeps P (moved d h j from reply)
  unfolding moved
  moved-Keeps j from (done n) =
      Keeps-if _ _ _ (Keeps-bind _ _ (get-Keeps j) (λ r. Keeps-raise _)) (Keeps-pure _)
  moved-Keeps j from constraint = Keeps-raise _
  moved-Keeps j from broken = Keeps-raise _

  expect_one-Keeps :
      (j : Text) (from : Phase) (reply : Reply) → Keeps P (expect_one_runtime_row d h j from reply)
  unfolding expect_one_runtime_row
  expect_one-Keeps j from (done n) =
      Keeps-if _ _ _ (Keeps-bind _ _ (get-Keeps j) (λ r. Keeps-raise _)) (Keeps-pure _)
  expect_one-Keeps j from constraint = Keeps-raise _
  expect_one-Keeps j from broken = Keeps-raise _

  refused-Keeps : (j : Text) (r : Result Deployment) → Keeps P (refused d h j r)
  unfolding refused
  refused-Keeps j (err not_found) = Keeps-raise _
  refused-Keeps j _ = Keeps-raise _

  dropped-Keeps : (j : Text) (reply : Reply) → Keeps P (dropped d h j reply)
  unfolding dropped
  dropped-Keeps j (done n) =
      Keeps-if _ _ _ (Keeps-bind _ _ (Keeps-attempt _ (get-Keeps j)) (λ r. refused-Keeps j r))
        (Keeps-pure _)
  dropped-Keeps j constraint = Keeps-raise _
  dropped-Keeps j broken = Keeps-raise _

  pub transition-Keeps : (from to : Phase) (why : Reason) → Keeps P (transition d h id from to why)
  unfolding transition
  transition-Keeps from to why = elim (Option-cases (check_transition from to)) [
    | inl e ↦
        rw (e, transition)
          (Keeps-bind _ _ now-Keeps λ now.
            Keeps-bind _ _
              (s.executes _
                (set_phase-Lawful to (kept_reason to why) _ id from (check_transition→⟶ from to e)
                  (kept_reason_blamed to why))
                refl refl)
              (λ reply. moved-Keeps id from reply))
    | inr (i, e) ↦ rw (e, transition) (Keeps-raise _)
  ]

  pub set_runtime_intent-Keeps :
      (port : ℕ) (command : Text) → Keeps P (set_runtime_intent d h id port command)
  unfolding set_runtime_intent
  set_runtime_intent-Keeps port command = Keeps-bind _ _ now-Keeps λ now.
      Keeps-bind _ _ (s.executes _ (set_intent-Lawful port command now id) refl refl)
        (λ reply. expect_one-Keeps id downloading reply)

  pub record_runtime-Keeps :
      (pid port : ℕ) (command : Text) (started_at : ℕ) (token : Text)
      → Keeps P (record_runtime d h id pid port command started_at token)
  unfolding record_runtime
  record_runtime-Keeps pid port command started_at token = Keeps-bind _ _ now-Keeps λ now.
      Keeps-bind _ _
        (s.executes _ (set_runtime-Lawful pid port command started_at token now id) refl refl)
        (λ reply. expect_one-Keeps id starting reply)

  pub delete_record-Keeps : Keeps P (delete_record d h id)
  unfolding delete_record
  delete_record-Keeps =
      Keeps-bind _ _ (s.executes _ (delete-Lawful id) refl refl) (λ reply. dropped-Keeps id reply)

module _ (d : Database) (h : Host) where
  -- Every row of `w` is where the row of `w₀` under the same key can have come to.
  pub record Lives (w₀ w : State d h) : Type 0 where
    pub life : (j : Text) → Life (d.view w₀.db j) (d.view w.db j)

  pub Lives-refl : (w : State d h) → Lives w w
  Lives-refl w = record { life = λ j. same }

  -- Every row of `w` but the one under `id` is as in `w₀`.
  pub record Alone (id : Text) (w₀ w : State d h) : Type 0 where
    pub others : (j : Text) → j ≢ id → d.view w.db j ≡ d.view w₀.db j

  pub Alone-refl : (id : Text) (w : State d h) → Alone id w w
  Alone-refl id w = record { others = λ j n. refl }

  module _ (w₀ : State d h) where
    Lives-ask : {A : Type 0} (call : h.Os → A × h.Os) → Keeps (Lives w₀) (ask {D = d.Db} call)
    unfolding ask
    Lives-ask call = record { at = λ w l. record { life = l.life } }

    Lives-note : (e : Event) → Keeps (Lives w₀) (note e)
    unfolding note
    Lives-note e = record { at = λ w l. record { life = l.life } }

    Lives-say : (l : Line) → Keeps (Lives w₀) (say l)
    unfolding say
    Lives-say x = record { at = λ w l. record { life = l.life } }

    Lives-execute : (q : Statement) → Lawful q → Keeps (Lives w₀) (execute d h q)
    unfolding execute
    Lives-execute q law = record {
      at = λ w l. record {
        life = λ j. Life-trans (l.life j) (
            subst (λ x. Life (d.view w.db j) x) (sym (d.exec_view q w.db j))
              (Life-settled q law (d.exec q w.db).0 j (d.view w.db j)));
      };
    }

    Lives-select : (id : Text) → Keeps (Lives w₀) (select d h id)
    unfolding select
    Lives-select id = record {
      at = λ w l. record { life = λ j. rw (d.query_view id w.db j) (l.life j) };
    }

    Lives-select_all : Keeps (Lives w₀) (select_all d h)
    unfolding select_all
    Lives-select_all = record {
      at = λ w l. record { life = λ j. rw (d.query_all_view w.db j) (l.life j) };
    }

    pub Lives-IsIndifferent : IsIndifferent h (Lives w₀)
    Lives-IsIndifferent = record {
      asks = λ A call. Lives-ask call;
      notes = Lives-note;
      says = Lives-say;
    }

    pub Lives-IsKept : (id : Text) → IsKept d h (Lives w₀) id
    Lives-IsKept id = record {
      quiet = record { asks = λ A call. Lives-ask call; notes = λ e q. Lives-note e };
      says = Lives-say;
      selects = Lives-select;
      lists = Lives-select_all;
      executes = λ q law u e. Lives-execute q law;
    }

    Lives-created : (r : Deployment) (reply : Reply) → Keeps (Lives w₀) (created d h r reply)
    unfolding created
    Lives-created r (done n) = Keeps-pure _
    Lives-created r constraint = Keeps-raise _
    Lives-created r broken = Keeps-raise _

    -- `Create` inserts a row in phase REQUESTED, or leaves the rows alone.
    pub Lives-create : (r : Deployment) → r.pid ≡ 0 → Keeps (Lives w₀) (create d h r)
    unfolding create
    Lives-create r n = Keeps-bind (ask h.now) _ (Lives-ask h.now) λ now.
        Keeps-bind _ _ (Lives-execute _ (insert-Lawful _ refl n refl))
          (λ reply. Lives-created _ reply)

    module _ (id : Text) where
      Alone-ask : {A : Type 0} (call : h.Os → A × h.Os) → Keeps (Alone id w₀) (ask {D = d.Db} call)
      unfolding ask
      Alone-ask call = record { at = λ w l. record { others = l.others } }

      Alone-note : (e : Event) → Keeps (Alone id w₀) (note e)
      unfolding note
      Alone-note e = record { at = λ w l. record { others = l.others } }

      Alone-say : (l : Line) → Keeps (Alone id w₀) (say l)
      unfolding say
      Alone-say x = record { at = λ w l. record { others = l.others } }

      pub Alone-execute : (q : Statement) → key q ≡ id → Keeps (Alone id w₀) (execute d h q)
      unfolding execute
      Alone-execute q e = record {
        at = λ w l. record { others = λ j n. exec_ne d h q w.db j (λ k. n (k ∙ e)) ∙ l.others j n };
      }

      Alone-select : (j : Text) → Keeps (Alone id w₀) (select d h j)
      unfolding select
      Alone-select j = record {
        at = λ w l. record { others = λ k n. d.query_view j w.db k ∙ l.others k n };
      }

      Alone-select_all : Keeps (Alone id w₀) (select_all d h)
      unfolding select_all
      Alone-select_all = record {
        at = λ w l. record { others = λ k n. d.query_all_view w.db k ∙ l.others k n };
      }

      pub Alone-IsIndifferent : IsIndifferent h (Alone id w₀)
      Alone-IsIndifferent = record {
        asks = λ A call. Alone-ask call;
        notes = Alone-note;
        says = Alone-say;
      }

      pub Alone-IsKept : IsKept d h (Alone id w₀) id
      Alone-IsKept = record {
        quiet = record { asks = λ A call. Alone-ask call; notes = λ e q. Alone-note e };
        says = Alone-say;
        selects = Alone-select;
        lists = Alone-select_all;
        executes = λ q law u e. Alone-execute q e;
      }
