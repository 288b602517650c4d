-- ===== src/State/Store/Runtime.antt =====
-- What is known of the row after `SetRuntime` and after `Delete`.
use iold.Base.{ℕ, zero, suc, ◌≡◌, ◌≢◌, refl, true, Option, none, some, Text, arith, subst, ◌∙◌}
use iold.Fault.{Result, ok, err, not_found}
use iold.Action.{pure, raise, attempt, ◌>>=◌}
use iold.Action.Ensures.{Ensures, Post}
use iold.Host.{Host}
use iold.World.{ask}
use iold.State.Machine.{Phase, starting, destroyed, phase_eq_iff}
use iold.State.Record.{Deployment, set_runtime, delete, hits, changed}
use iold.State.Database.{Database, Reply, done, constraint, broken}
use iold.State.Store.{
  State, execute, record_runtime, expect_one_runtime_row, delete_record, dropped, refused,
}
use iold.State.Store.Moves.{exec-Done, Done, Done-hit}
use iold.State.Store.After.{At, Absent, Known}

module _ (d : Database) (h : Host) (id : Text) where
  -- `r` has the process with this identity.
  pub record Runs (pid port : ℕ) (command : Text) (started_at : ℕ) (token : Text) (r : Deployment)
      : Type 0 where
    pub pid_is : r.pid ≡ pid
    pub port_is : r.port ≡ port
    pub command_is : r.command ≡ command
    pub started_is : r.started_at ≡ started_at
    pub token_is : r.start_token ≡ token

  expect_ok :
      (expected : Phase) (reply : Reply) (w : State d h)
      → (expect_one_runtime_row d h id expected reply w).0 ≡ ok tt
      → (n : ℕ) × (reply ≡ done (suc n)) × ((expect_one_runtime_row d h id expected reply w).1 ≡ w)
  unfolding expect_one_runtime_row pure raise ◌>>=◌
  expect_ok expected (done zero) w e = ground arith
  expect_ok expected (done (suc n)) w e = (n, refl, ground arith)
  expect_ok expected constraint w e = cc
  expect_ok expected broken w e = cc

  set_runtime_hit :
      (pid port : ℕ) (command : Text) (st : ℕ) (token : Text) (at : ℕ) (row : Option Deployment)
      → hits (set_runtime pid port command st token at id starting) row ≡ true
      → (r : Deployment) × (row ≡ some r)
        × (r.phase ≡ starting)
        × (r.pid ≡ 0)
        × (changed (set_runtime pid port command st token at id starting) row
            ≡ some (record r {
              pid = pid;
              port = port;
              command = command;
              started_at = st;
              start_token = token;
              updated_at = at;
            }))
  set_runtime_hit pid port command st token at none e = cc
  set_runtime_hit pid port command st token at (some r) e =
      (r, refl, ground (arith, phase_eq_iff r.phase starting), ground arith, refl)

  module _ (pid port : ℕ) (command : Text) (st : ℕ) (token : Text) where
    abbrev Attached : State d h → Type 0
    Attached = At d h id (λ r. Runs pid port command st token r × (r.phase ≡ starting))

    attached :
        (w : State d h) (x : Result (Unit {0}))
        → (record_runtime d h id pid port command st token w).0 ≡ x
        → Post
            (λ _. Attached)
            (Known d h id)
            x
            (record_runtime d h id pid port command st token w).1
    unfolding record_runtime ◌>>=◌ ask execute
    attached w (err f) e = record {}
    attached w (ok u) e =
        let q = set_runtime pid port command st token (h.now w.os).0 id starting in
        let w' : State d h = record w { os = (h.now w.os).1; db = (d.exec q w.db).1 } in
        let (n, replied, same) = expect_ok starting (d.exec q w.db).0 w' e in
        let (hit, after) = Done-hit d h q (d.view w.db id) _ n (
          subst (λ r. Done q (d.view w.db id) (d.view w'.db id) r) replied
            (exec-Done d h q w.db)) in
        let (r, was, at, free, new) =
          set_runtime_hit pid port command st token _ (d.view w.db id) hit in
        rw same (record {
          row = record r {
            pid = pid;
            port = port;
            command = command;
            started_at = st;
            start_token = token;
            updated_at = (h.now w.os).0;
          };
          is = after ∙ new;
          holds = (
            record {
              pid_is = refl;
              port_is = refl;
              command_is = refl;
              started_is = refl;
              token_is = refl;
            },
            at,
          );
        })

    -- `SetRuntime` returns only if the row was in phase STARTING with no process, and now has this one.
    pub record_runtime_after :
        Ensures
          (Known d h id)
          (record_runtime d h id pid port command st token)
          (λ _. Attached)
          (Known d h id)
    record_runtime_after = record { at = λ w k. attached w _ refl }

  refused_fails : (x : Result Deployment) (w : State d h) → (refused d h id x w).0 ≢ ok tt
  unfolding refused raise
  refused_fails (err not_found) w e = cc
  refused_fails (err f) w e = cc
  refused_fails (ok r) w e = cc

  dropped_ok :
      (reply : Reply) (w : State d h)
      → (dropped d h id reply w).0 ≡ ok tt
      → (n : ℕ) × (reply ≡ done (suc n)) × ((dropped d h id reply w).1 ≡ w)
  unfolding dropped pure raise ◌>>=◌ attempt
  dropped_ok (done zero) w e = absurd (refused_fails _ _ e)
  dropped_ok (done (suc n)) w e = (n, refl, ground arith)
  dropped_ok constraint w e = cc
  dropped_ok broken w e = cc

  delete_hit : (row : Option Deployment) → changed (delete id destroyed) row ≡ none
  delete_hit none = refl
  delete_hit (some r) = refl

  deleted :
      (w : State d h) (x : Result (Unit {0}))
      → (delete_record d h id w).0 ≡ x
      → Post (λ _. Absent d h id) (Known d h id) x (delete_record d h id w).1
  unfolding delete_record ◌>>=◌ execute
  deleted w (err f) e = record {}
  deleted w (ok u) e =
      let q = delete id destroyed in
      let w' : State d h = record w { db = (d.exec q w.db).1 } in
      let (n, replied, same) = dropped_ok (d.exec q w.db).0 w' e in
      let (hit, after) =
        Done-hit d h q (d.view w.db id) _ n (
          subst (λ r. Done q (d.view w.db id) (d.view w'.db id) r) replied
            (exec-Done d h q w.db)) in
      rw same (record { gone = after ∙ delete_hit (d.view w.db id) })

  -- `Delete` returns only if the row is gone.
  pub delete_record_after :
      Ensures (Known d h id) (delete_record d h id) (λ _. Absent d h id) (Known d h id)
  delete_record_after = record { at = λ w k. deleted w _ refl }
