-- ===== src/Cli/Recover/Outcome.antt =====
-- What recovery has settled when it returns.
use iold.Base.{
  ◌≡◌, ◌≢◌, refl, subst, sym, ◌∙◌, true, false, some, List, [], ◌∷◌, Text, text_eq, text_eq_iff,
  Memᴰ, Bool-cases, Option-cases, inl, inr, arith, codes, ◌==◌,
}
use iold.Fault.{Result, ok, err}
use iold.Action.{◌>>=◌}
use iold.Action.Keeps.{Keeps}
use iold.Action.Ensures.{
  Ensures, Post, Ensures-raise, Ensures-bind, Ensures-if, Ensures-weaken, Ensures_of_Keeps,
}
use iold.Host.{Host}
use iold.State.Machine.{Phase, crashed}
use iold.State.Record.{Deployment, reason}
use iold.State.Database.{Database}
use iold.State.Store.{State, list}
use iold.State.Store.Effect.{Alone, Alone-refl, Alone-IsKept}
use iold.State.Store.After.{Known, Ensures-Known, transition_reaches, Listed, list_read}
use iold.Supervisor.Process.{Status, running, stale, reused, unknown, reconcile}
use iold.Cli.Recover.{
  deployment_process, is_settled, is_launching, crash, by_status, settle, recover_one, recover_each,
  recover_interrupted_deployments,
}
use iold.Cli.Recover.Past.{is_past, Past, Past-IsKept, Row, Row-Past}
use iold.Cli.Recover.Keeps.{adopt_intent-Same, recover_one-Keeps, recover_each-Keeps}

module _ (d : Database) (h : Host) where
  crash-Past :
      {P : State d h → Type 0} (q : Deployment) (why : Text)
      → Ensures P (crash d h q why) (λ _. Past d h q.id) (Known d h q.id)
  unfolding crash
  crash-Past q why =
      Ensures-weaken _ (transition_reaches d h q.id q.phase crashed (reason why)) (λ w p. record {})
        (λ u w a. record { past = rw (a.is, a.holds.0) refl }) (λ w k. k)

  by_status-Past :
      {P : State d h → Type 0} (q : Deployment) (x : Status)
      → is_launching q.phase ≡ true
      → Ensures P (by_status d h q x) (λ _. Past d h q.id) (Known d h q.id)
  unfolding by_status
  by_status-Past q running l = rw l (crash-Past q _)
  by_status-Past q stale l = crash-Past q _
  by_status-Past q reused l = crash-Past q _
  by_status-Past q unknown l = Ensures-raise _ (λ w p. record {})

  settle-Past :
      {P : State d h → Type 0} (q : Deployment)
      → is_launching q.phase ≡ true
      → Ensures P (settle d h q) (λ _. Past d h q.id) (Known d h q.id)
  unfolding settle
  settle-Past q l =
      Ensures-if (q.pid == 0) (crash d h q why)
        (reconcile h (deployment_process q) >>= λ x. by_status d h q x) (λ e. crash-Past q why)
        (λ e.
          Ensures-bind (reconcile h (deployment_process q)) _ (Ensures-Known d h q.id _)
            (λ x. by_status-Past q x l))
    where
      why : Text
      why = codes "lifecycle operation was interrupted before a runtime identity was recorded"

  launching_is_unsettled : (p : Phase) → is_launching p ≡ true → is_settled p ≡ false
  launching_is_unsettled p l = ground arith

  -- A launching row is crashed, whatever else is recorded.
  recover_launching :
      {P : State d h → Type 0} (r : Deployment)
      → is_launching r.phase ≡ true
      → Ensures P (recover_one d h r) (λ _. Past d h r.id) (Known d h r.id)
  unfolding recover_one
  recover_launching r l = rw (launching_is_unsettled r.phase l) (
      Ensures-bind _ _
        (Ensures-weaken _ (adopt_intent-Same d h (Past d h r.id) r (Past-IsKept d h r.id r.id))
          (λ w p. tt) (λ q w x. x) (λ w x. record {}))
        (λ q. by_same q))
    where
      by_same :
          (q : Deployment)
          → Ensures
              (λ w. (q.id ≡ r.id) × (q.phase ≡ r.phase))
              (settle d h q)
              (λ _. Past d h r.id)
              (Known d h r.id)
      by_same q = record {
        at = λ w e.
            (subst (λ j. Ensures (λ w. Unit) (settle d h q) (λ _. Past d h j) (Known d h j)) e.0
                (settle-Past q (subst (λ p. is_launching p ≡ true) (sym e.1) l))).at
              w tt;
      }

  -- The row that was read is settled afterwards.
  recover_one-Past :
      (r : Deployment)
      → Ensures (Row d h r.id r) (recover_one d h r) (λ _. Past d h r.id) (Known d h r.id)
  recover_one-Past r = elim (Bool-cases (is_launching r.phase)) [
    | inl l ↦ recover_launching r l
    | inr l ↦
        Ensures-weaken _
          (Ensures_of_Keeps _ (recover_one-Keeps d h (Past d h r.id) r (Past-IsKept d h r.id r.id)))
          (λ w x. Row-Past d h r.id r w l x) (λ u w p. p) (λ w p. record {})
  ]

  Row-Keeps : (j : Text) (x r : Deployment) → j ≢ r.id → Keeps (Row d h j x) (recover_one d h r)
  Row-Keeps j x r n = record {
    at = λ w p. record {
      row =
          ((recover_one-Keeps d h (Alone d h r.id w) r (Alone-IsKept d h w r.id)).at w
              (Alone-refl d h r.id w)).others
            j n
          ∙ p.row;
    };
  }

  recover_each-Past :
      (j : Text) (x : Deployment) (rs : List Deployment)
      → ((r : Deployment) → Memᴰ r rs → r.id ≡ j → r ≡ x)
      → Memᴰ x rs
      → x.id ≡ j
      → Ensures (Row d h j x) (recover_each d h rs) (λ _. Past d h j) (Known d h j)
  unfolding recover_each
  recover_each-Past j x [] only m i = elim m [ ]
  recover_each-Past j x (r ∷ rs) only m i = elim (Bool-cases (text_eq r.id j)) [
    | inl e ↦ Ensures-bind _ _ (this ((text_eq_iff r.id j).0 e)) (λ u.
        Ensures-weaken _
          (Ensures_of_Keeps _ (recover_each-Keeps d h (Past d h j) (Past-IsKept d h j) rs))
          (λ w p. p) (λ u w p. p) (λ w p. record {}))
    | inr e ↦
        Ensures-bind _ _
          (Ensures-weaken _ (Ensures_of_Keeps _ (Row-Keeps j x r (other e))) (λ w p. p) (λ u w p. p)
            (λ w p. record {}))
          (λ u. recover_each-Past j x rs (λ r q k. only r (Memᴰ.tail q) k) (later e m) i)
  ]
    where
      other : text_eq r.id j ≡ false → j ≢ r.id
      other e k = ground (arith, text_eq_iff r.id j)

      later : text_eq r.id j ≡ false → Memᴰ x (r ∷ rs) → Memᴰ x rs
      later e (Memᴰ.head k) = absurd (other e (sym (subst (λ y. y.id ≡ j) k i)))
      later e (Memᴰ.tail k) = k

      this : r.id ≡ j → Ensures (Row d h j x) (recover_one d h r) (λ _. Past d h j) (Known d h j)
      this e =
          subst (λ k. Ensures (Row d h k x) (recover_one d h r) (λ _. Past d h k) (Known d h k)) e
            (subst
              (λ y.
                Ensures (Row d h r.id y) (recover_one d h r) (λ _. Past d h r.id) (Known d h r.id))
              (only r (Memᴰ.head refl) e) (recover_one-Past r))

  settled_all :
      (w : State d h) (j : Text) (rs : List Deployment) (w' : State d h)
      → Listed d h w rs w'
      → (recover_each d h rs w').0 ≡ ok tt
      → is_past (d.view (recover_each d h rs w').1.db j) ≡ true
  settled_all w j rs w' (read, same) e = elim (Option-cases (d.view w.db j)) [
    | inl gone ↦
        ((recover_each-Keeps d h (Past d h j) (Past-IsKept d h j) rs).at w'
          (record { past = rw (same j, gone) refl })).past
    | inr (x, is) ↦
        let i : x.id ≡ j = d.view_id w.db j is in
        (of_ok j _ _
          ((recover_each-Past j x rs (λ r m k. only x is r m k) (d.query_all_complete w.db read is)
              i).at
            w' (record { row = same j ∙ is }))
          e).past
  ]
    where
      only :
          (x : Deployment)
          → d.view w.db j ≡ some x
          → (r : Deployment) → Memᴰ r rs
          → r.id ≡ j
          → r ≡ x
      only x is r m k =
          inside (sym (subst (λ i. d.view w.db i ≡ some r) k (d.query_all_sound w.db read m)) ∙ is)
        where
          inside : some r ≡ some x → r ≡ x
          inside e = cc

      of_ok :
          (j : Text) (y : Result (Unit {0})) (v : State d h)
          → Post (λ _. Past d h j) (Known d h j) y v
          → y ≡ ok tt
          → Past d h j v
      of_ok j (ok u) v p e = p
      of_ok j (err f) v p e = cc

  list_outcome : (w : State d h) → Ensures (λ v. v ≡ w) (list d h) (Listed d h w) (λ v. Unit)
  list_outcome w = record {
    at = λ v e.
        subst (λ x. Post (Listed d h w) (λ y. Unit) (list d h x).0 (list d h x).1) (sym e)
          (list_read d h w);
  }

  -- `j` is settled, if the call returned.
  abbrev Settled : (j : Text) → State d h → Type 0
  Settled j w = is_past (d.view w.db j) ≡ true

  each_outcome :
      (w : State d h) (j : Text) (rs : List Deployment)
      → Ensures (Listed d h w rs) (recover_each d h rs) (λ u. Settled j) (λ v. Unit)
  each_outcome w j rs = record { at = λ v l. by_result v l _ refl }
    where
      by_result :
          (v : State d h)
          → Listed d h w rs v
          → (y : Result (Unit {0})) → (recover_each d h rs v).0 ≡ y
          → Post (λ u. Settled j) (λ v. Unit) y (recover_each d h rs v).1
      by_result v l (ok u) e = settled_all w j rs v l e
      by_result v l (err f) e = tt

  recovered :
      (w : State d h) (j : Text)
      → Ensures (λ v. v ≡ w) (recover_interrupted_deployments d h) (λ u. Settled j) (λ v. Unit)
  unfolding recover_interrupted_deployments
  recovered w j = Ensures-bind _ _ (list_outcome w) (λ rs. each_outcome w j rs)

  returned :
      (j : Text) (y : Result (Unit {0})) (v : State d h)
      → Post (λ u. Settled j) (λ v. Unit) y v
      → y ≡ ok tt
      → Settled j v
  returned j (ok u) v p e = p
  returned j (err f) v p e = cc

-- A recovery that returns without an error has left no deployment in phase REQUESTED, VALIDATING,
-- DOWNLOADING or STARTING: every launch that was interrupted is given up as CRASHED, and no healthy one
-- is sent back.
pub recover_interrupted_deployments-settles :
    (d : Database) (h : Host) (w : State d h) (j : Text)
    → (recover_interrupted_deployments d h w).0 ≡ ok tt
    → is_past (d.view (recover_interrupted_deployments d h w).1.db j) ≡ true
recover_interrupted_deployments-settles d h w j e =
    returned d h j _ _ ((recovered d h w j).at w refl) e
