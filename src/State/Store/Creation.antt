-- ===== src/State/Store/Creation.antt =====
-- What is known after `Create` returned.
use iold.Base.{ℕ, ◌≡◌, refl, ap, subst, sym, arith, ◌∙◌, Option, none, some, Text, text_eq_refl}
use iold.Fault.{ok}
use iold.Action.{pure, raise, ◌>>=◌}
use iold.Action.Yields.{Yields, Yields-pure, Yields-raise, Yields-bind, Yields-any}
use iold.Action.Keeps.{Keeps, Keeps-pure, Keeps-raise, Keeps-bind}
use iold.Action.Ensures.{
  Ensures, Anything, Ensures-pure, Ensures-raise, Ensures-bind, Ensures_any, Post_ok,
}
use iold.Host.{Host}
use iold.World.{ask}
use iold.State.Machine.{requested}
use iold.State.Record.{Deployment, insert, no_reason, seconds}
use iold.State.Columns.{stored}
use iold.State.Database.{
  Database, Reply, done, constraint, broken, Documented, settled, Rows, rows, unread,
}
use iold.State.Store.{State, execute, created, create, get, scan, select}
use iold.State.Store.After.{At}
use iold.State.Store.Effect.{Alone, Alone-execute, Alone-IsIndifferent}

scanned :
    (d : Database) (h : Host) (x : Deployment) (found : Rows (Option Deployment)) (w : State d h)
    → (scan d h found w).0 ≡ ok x
    → found ≡ rows (some x)
unfolding scan pure raise
scanned d h x (rows (some y)) w e = cc
scanned d h x (rows none) w e = cc
scanned d h x unread w e = cc

got_is :
    (d : Database) (h : Host) (id : Text) (x r : Deployment) (w : State d h)
    → d.view w.db id ≡ some r
    → (get d h id w).0 ≡ ok x
    → x ≡ r
unfolding get ◌>>=◌ select
got_is d h id x r w v e =
    let q = d.query_rows id w.db (scanned d h x (d.query id w.db).0 _ e) in inside (q ∙ v)
  where
    inside : some x ≡ some r → x ≡ r
    inside e = cc

module _ (d : Database) (h : Host) where
  abbrev Made : Deployment → Reply → State d h → Type 0
  Made r (done n) w = At d h r.id (λ row. row ≡ r) w
  Made r _ w = Unit

  made :
      (r : Deployment) (w : State d h) (reply : Reply) (row : Option Deployment)
      → Documented (insert r) row reply
      → d.view w.db r.id ≡ settled reply (insert r) r.id row
      → Made r reply w
  made r w constraint row k e = tt
  made r w broken row k e = tt
  made r w (done n) (some x) k e = absurd k
  made r w (done n) none k e = record {
    row = r;
    is = e ∙ (rw (text_eq_refl r.id) refl);
    holds = refl;
  }

  execute_insert : (r : Deployment) → Ensures Anything (execute d h (insert r)) (Made r) Anything
  unfolding execute
  execute_insert r = record {
    at = λ w u.
        made r _ (d.exec (insert r) w.db).0 (d.view w.db r.id) (d.exec_reply (insert r) w.db)
          (d.exec_view (insert r) w.db r.id);
  }

  -- The row that was made, in phase REQUESTED and under the key that was given.
  abbrev pub Created : Deployment → Deployment → State d h → Type 0
  Created given r w = At d h r.id (λ row. row ≡ r) w × (r.id ≡ given.id) × (r.phase ≡ requested)

  created_outcome :
      (given r : Deployment) (reply : Reply)
      → r.id ≡ given.id
      → r.phase ≡ requested
      → Ensures (Made r reply) (created d h r reply) (Created given) Anything
  unfolding created
  created_outcome given r (done n) e p = Ensures-pure _ (λ w a. (a, e, p))
  created_outcome given r constraint e p = Ensures-raise _ (λ w a. tt)
  created_outcome given r broken e p = Ensures-raise _ (λ w a. tt)

  -- A row with whole seconds is stored as it is.
  execute-stored :
      (r : Deployment) (t : ℕ)
      → r.created_at ≡ seconds t
      → r.updated_at ≡ seconds t
      → Ensures Anything (execute d h (insert (stored r))) (Made r) Anything
  execute-stored r t c u =
      subst (λ x. Ensures Anything (execute d h (insert x)) (Made r) Anything) (sym same)
        (execute_insert r)
    where
      whole : (x : ℕ) → x ≡ seconds t → seconds x ≡ x
      whole x e = ground (arith, e)

      same : stored r ≡ r
      same = cc (whole r.created_at c, whole r.updated_at u)

  pub create_after :
      (given : Deployment) → Ensures Anything (create d h given) (Created given) Anything
  unfolding create
  create_after given = Ensures-bind _ _ (Ensures_any (ask h.now)) λ now.
      Ensures-bind _ _ (execute-stored _ now refl refl)
        (λ reply. created_outcome given _ reply refl refl)

  created-Keeps :
      {P : State d h → Type 0} (r : Deployment) (reply : Reply) → Keeps P (created d h r reply)
  unfolding created
  created-Keeps r (done n) = Keeps-pure _
  created-Keeps r constraint = Keeps-raise _
  created-Keeps r broken = Keeps-raise _

  -- `Create` changes no row but the one under the key it is given.
  pub create-Alone :
      (given : Deployment) (w₀ : State d h) → Keeps (Alone d h given.id w₀) (create d h given)
  unfolding create
  create-Alone given w₀ =
      Keeps-bind _ _ ((Alone-IsIndifferent d h w₀ given.id).asks ℕ h.now) λ now.
        Keeps-bind _ _ (Alone-execute d h w₀ given.id _ refl) (λ reply. created-Keeps _ reply)

  created-Yields :
      (r : Deployment) (reply : Reply) → Yields (λ x. x.id ≡ r.id) (created d h r reply)
  unfolding created
  created-Yields r (done n) = Yields-pure _ refl
  created-Yields r constraint = Yields-raise _
  created-Yields r broken = Yields-raise _

  pub create-Yields : (given : Deployment) → Yields (λ x. x.id ≡ given.id) (create d h given)
  unfolding create
  create-Yields given = Yields-bind _ _ (Yields-any (ask h.now)) λ now u.
      Yields-bind _ _
        (Yields-any (
          execute d h (
            insert (
              stored (record given {
                phase = requested;
                failure_reason = no_reason;
                created_at = seconds now;
                updated_at = seconds now;
              })))))
        (λ reply u. created-Yields _ reply)

-- What `Create` returned is what `Get` reads: a row that is read right behind it is the same.
pub create-get :
    (d : Database) (h : Host) (given r x : Deployment) (w : State d h)
    → (create d h given w).0 ≡ ok r
    → (get d h r.id (create d h given w).1).0 ≡ ok x
    → x ≡ r
create-get d h given r x w e g =
    let (a, k, q) =
      Post_ok (Created d h given) Anything _ _ r ((create_after d h given).at w tt) e in
    got_is d h r.id x r (create d h given w).1 (a.is ∙ ap some a.holds) g
