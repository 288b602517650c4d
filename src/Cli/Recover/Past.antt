-- ===== src/Cli/Recover/Past.antt =====
-- Once a row is not in a launching phase, no operation but `Create` makes it launching again.
use iold.Base.{
  ◌≡◌, refl, subst, sym, Bool, true, false, Option, none, some, Text, text_eq, Bool-cases, inl, inr,
  arith, not,
}
use iold.Action.Keeps.{Keeps}
use iold.Host.{Host}
use iold.World.{Event, Line, ask, note, say}
use iold.State.Machine.{Phase}
use iold.State.Machine.Graph.{◌⟶◌, validate}
use iold.State.Record.{
  Deployment, Statement, insert, set_phase, set_intent, set_runtime, delete, key, hits, changed,
  row_after,
}
use iold.State.Database.{Database, Reply, done, constraint, broken, settled}
use iold.State.Store.{State, execute, select, select_all}
use iold.State.Store.Life.{RowStep, Lawful}
use iold.State.Store.Effect.{IsKept, is_insert}
use iold.Cli.Recover.{is_launching}

-- No row, or one in a phase that recovery need not settle.
abbrev pub is_past : Option Deployment → Bool
is_past none = true
is_past (some r) = not (is_launching r.phase)

past_edge : {p q : Phase} → p ⟶ q → is_launching p ≡ false → is_launching q ≡ false
past_edge validate l = ground arith
past_edge _ l = ground arith

changed-none : (q : Statement) → is_insert q ≡ false → changed q none ≡ none
changed-none (insert r) e = cc
changed-none (set_phase to why at id from) e = refl
changed-none (set_intent port c at id from) e = refl
changed-none (set_runtime pid port c st tk at id from) e = refl
changed-none (delete id from) e = refl

step_past :
    {a b : Option Deployment}
    → (a ≡ none → b ≡ none)
    → RowStep a b
    → is_past a ≡ true
    → is_past b ≡ true
step_past u (RowStep.born r ea eb p n f) l = cc (u ea)
step_past u (RowStep.moved r to why at ea e w eb) l =
    rw eb (flip (past_edge e (flop (subst (λ x. is_past x ≡ true) ea l))))
  where
    flip : {b : Bool} → b ≡ false → not b ≡ true
    flip e = ground arith

    flop : {b : Bool} → not b ≡ true → b ≡ false
    flop e = ground arith
step_past u (RowStep.planned r port c at ea p eb) l = rw eb (subst (λ x. is_past x ≡ true) ea l)
step_past u (RowStep.attached r pid port c st tk at ea p n eb) l =
    rw eb (subst (λ x. is_past x ≡ true) ea l)
step_past u (RowStep.purged r ea p eb) l = rw eb refl

row_after_past :
    (q : Statement)
    → Lawful q
    → is_insert q ≡ false
    → (row : Option Deployment) → is_past row ≡ true
    → is_past (row_after q row) ≡ true
row_after_past q law u row p = elim (Bool-cases (hits q row)) [
  | inl e ↦
      rw e
        (step_past (λ n. subst (λ x. changed q x ≡ none) (sym n) (changed-none q u)) (law row e) p)
  | inr e ↦ rw e p
]

settled_past :
    (q : Statement)
    → Lawful q
    → is_insert q ≡ false
    → (r : Reply) (j : Text) (row : Option Deployment) → is_past row ≡ true
    → is_past (settled r q j row) ≡ true
settled_past q law u constraint j row p = p
settled_past q law u broken j row p = p
settled_past q law u (done n) j row p = elim (Bool-cases (text_eq j (key q))) [
  | inl e ↦ rw e (row_after_past q law u row p)
  | inr e ↦ rw e p
]

module _ (d : Database) (h : Host) (j : Text) where
  -- Recovery has nothing to settle under the key.
  pub record Past (w : State d h) : Type 0 where
    pub past : is_past (d.view w.db j) ≡ true

  Past-ask : {A : Type 0} (call : h.Os → A × h.Os) → Keeps Past (ask {D = d.Db} call)
  unfolding ask
  Past-ask call = record { at = λ w p. record { past = p.past } }

  Past-note : (e : Event) → Keeps Past (note {D = d.Db} e)
  unfolding note
  Past-note e = record { at = λ w p. record { past = p.past } }

  Past-say : (l : Line) → Keeps Past (say {D = d.Db} l)
  unfolding say
  Past-say l = record { at = λ w p. record { past = p.past } }

  Past-select : (id : Text) → Keeps Past (select d h id)
  unfolding select
  Past-select id = record { at = λ w p. record { past = rw (d.query_view id w.db j) p.past } }

  Past-select_all : Keeps Past (select_all d h)
  unfolding select_all
  Past-select_all = record { at = λ w p. record { past = rw (d.query_all_view w.db j) p.past } }

  Past-execute : (q : Statement) → Lawful q → is_insert q ≡ false → Keeps Past (execute d h q)
  unfolding execute
  Past-execute q law u = record {
    at = λ w p. record {
      past =
          subst (λ x. is_past x ≡ true) (sym (d.exec_view q w.db j))
            (settled_past q law u (d.exec q w.db).0 j (d.view w.db j) p.past);
    };
  }

  pub Past-IsKept : (id : Text) → IsKept d h Past id
  Past-IsKept id = record {
    quiet = record { asks = λ A call. Past-ask call; notes = λ e q. Past-note e };
    says = Past-say;
    selects = Past-select;
    lists = Past-select_all;
    executes = λ q law u e. Past-execute q law u;
  }

  -- The same row as before.
  pub record Row (x : Deployment) (w : State d h) : Type 0 where
    pub row : d.view w.db j ≡ some x

  pub Row-Past : (x : Deployment) (w : State d h) → is_launching x.phase ≡ false → Row x w → Past w
  Row-Past x w l r = record { past = rw (r.row, l) refl }
