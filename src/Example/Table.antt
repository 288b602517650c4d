-- ===== src/Example/Table.antt =====
-- A database that can hold the row with one key; a statement on any other key fails.
use iold.Base.{
  false≢true, ℕ, ◌≡◌, refl, subst, sym, ◌∙◌, Bool, true, false, Option, none, some, List, [], ◌∷◌,
  Text, text_eq, text_eq_iff, Memᴰ, if◌then◌else◌, Bool-cases, inl, inr,
}
use iold.State.Schema.{migrations, built}
use iold.State.Record.{
  Deployment, Statement, insert, set_phase, set_intent, set_runtime, delete, key, hits, row_after,
  affected,
}
use iold.State.Database.{Reply, done, constraint, broken, rows, Documented, settled, Database}

module _ (k : Text) where
  -- The stored columns with the key.
  abbrev keyed : Option Deployment → Option Deployment
  keyed none = none
  keyed (some r) = some (record r { id = k })

  abbrev reply_of : Statement → Option Deployment → Reply
  reply_of (insert r) (some x) = constraint
  reply_of q row = done (affected q row)

  abbrev run : Statement → Option Deployment → Reply × Option Deployment
  run q row = (reply_of q (keyed row), settled (reply_of q (keyed row)) q k (keyed row))

  abbrev exec : Statement → Option Deployment → Reply × Option Deployment
  exec q row = if text_eq (key q) k then run q row else (broken, row)

  abbrev view : Option Deployment → Text → Option Deployment
  view row j = if text_eq j k then keyed row else none

  abbrev listed : Option Deployment → List Deployment
  listed none = []
  listed (some r) = r ∷ []

  reply-Documented : (q : Statement) (row : Option Deployment) → Documented q row (reply_of q row)
  reply-Documented (insert r) none = refl
  reply-Documented (insert r) (some x) = tt
  reply-Documented (set_phase to why at id from) row = refl
  reply-Documented (set_intent port c at id from) row = refl
  reply-Documented (set_runtime pid port c st tk at id from) row = refl
  reply-Documented (delete id from) row = refl

  failing : (q : Statement) (x : Option Deployment) → Documented q x broken
  failing (insert r) none = tt
  failing (insert r) (some x) = tt
  failing (set_phase to why at id from) x = tt
  failing (set_intent port c at id from) x = tt
  failing (set_runtime pid port c st tk at id from) x = tt
  failing (delete id from) x = tt

  pub exec_reply :
      (q : Statement) (row : Option Deployment) → Documented q (view row (key q)) (exec q row).0
  exec_reply q row = elim (Bool-cases (text_eq (key q) k)) [
    | inl e ↦ rw e (reply-Documented q (keyed row))
    | inr e ↦ rw e (failing q (view row (key q)))
  ]

  same_key : (r : Deployment) → r.id ≡ k → keyed (some r) ≡ some r
  same_key r e = subst (λ i. some (record r { id = i }) ≡ some r) e refl

  keyed-keyed : (row : Option Deployment) → keyed (keyed row) ≡ keyed row
  keyed-keyed none = refl
  keyed-keyed (some r) = refl

  keyed_if :
      (b : Bool) (x y : Option Deployment)
      → keyed x ≡ x
      → keyed y ≡ y
      → keyed (if b then x else y) ≡ (if b then x else y)
  keyed_if true x y hx hy = hx
  keyed_if false x y hx hy = hy

  keyed_after :
      (q : Statement)
      → key q ≡ k
      → (row : Option Deployment) → keyed (row_after q (keyed row)) ≡ row_after q (keyed row)
  keyed_after (insert r) e none = same_key r e
  keyed_after (insert r) e (some x) = refl
  keyed_after q e none = refl
  keyed_after q e (some r) = keyed_if (hits q (keyed (some r))) _ _ refl refl

  keyed-settled :
      (q : Statement)
      → key q ≡ k
      → (row : Option Deployment)
      → keyed (settled (reply_of q (keyed row)) q k (keyed row))
        ≡ settled (reply_of q (keyed row)) q k (keyed row)
  keyed-settled q e row = by_reply (reply_of q (keyed row))
    where
      by_reply : (r : Reply) → keyed (settled r q k (keyed row)) ≡ settled r q k (keyed row)
      by_reply constraint = keyed-keyed row
      by_reply broken = keyed-keyed row
      by_reply (done n) = elim (Bool-cases (text_eq k (key q))) [
        | inl e' ↦ rw e' (keyed_after q e row)
        | inr e' ↦ rw e' (keyed-keyed row)
      ]

  settled-none :
      (q : Statement) (r : Reply) (j : Text) → text_eq j (key q) ≡ false → settled r q j none ≡ none
  settled-none q (done n) j e = rw e refl
  settled-none q constraint j e = refl
  settled-none q broken j e = refl

  viewed :
      (q : Statement) (row : Option Deployment) (j : Text)
      → key q ≡ k
      → view (run q row).1 j ≡ settled (run q row).0 q j (view row j)
  viewed q row j e = elim (Bool-cases (text_eq j k)) [
    | inl same ↦ rw same (
        subst (λ i. keyed (run q row).1 ≡ settled (run q row).0 q i (keyed row))
          (sym ((text_eq_iff j k).0 same)) (keyed-settled q e row))
    | inr other ↦
        rw other
          (sym (settled-none q (run q row).0 j (subst (λ x. text_eq j x ≡ false) (sym e) other)))
  ]

  pub exec_view :
      (q : Statement) (row : Option Deployment) (j : Text)
      → view (exec q row).1 j ≡ settled (exec q row).0 q j (view row j)
  exec_view q row j = elim (Bool-cases (text_eq (key q) k)) [
    | inl e ↦ rw e (viewed q row j ((text_eq_iff (key q) k).0 e))
    | inr e ↦ rw e refl
  ]

  pub view_id :
      (row : Option Deployment) (j : Text) {r : Deployment} → view row j ≡ some r → r.id ≡ j
  view_id row j {r} e = elim (Bool-cases (text_eq j k)) [
    | inl same ↦ keyed_id row (rw same at e) ∙ sym ((text_eq_iff j k).0 same)
    | inr other ↦ absurd (none_is (rw other at e))
  ]
    where
      keyed_id : (row : Option Deployment) → keyed row ≡ some r → r.id ≡ k
      keyed_id none e = cc
      keyed_id (some x) e = sym (cc)

      none_is : {A : Type 0} {x : A} → none ≡ some x → ⊥
      none_is e = cc

  listed_sound : (o : Option Deployment) (r : Deployment) → Memᴰ r (listed o) → o ≡ some r
  listed_sound none r m = elim m [ ]
  listed_sound (some x) r (Memᴰ.head e) = subst (λ y. some x ≡ some y) (sym e) refl
  listed_sound (some x) r (Memᴰ.tail m) = elim m [ ]

  listed_complete : (o : Option Deployment) (r : Deployment) → o ≡ some r → Memᴰ r (listed o)
  listed_complete none r e = cc
  listed_complete (some x) r e = subst (λ y. Memᴰ y (x ∷ [])) (inside e) (Memᴰ.head refl)
    where
      inside : some x ≡ some r → x ≡ r
      inside e = cc

  rows_inside : {A : Type 0} {x y : A} → rows x ≡ rows y → x ≡ y
  rows_inside e = cc

  pub query_rows : {x y : Option Deployment} → rows x ≡ rows y → y ≡ x
  query_rows e = sym (rows_inside e)

  pub query_all_sound :
      (row : Option Deployment) {rs : List Deployment} {r : Deployment}
      → rows (listed (keyed row)) ≡ rows rs
      → Memᴰ r rs
      → view row r.id ≡ some r
  query_all_sound row {r = r} e m =
      let is = listed_sound (keyed row) r (subst (λ l. Memᴰ r l) (sym (rows_inside e)) m) in
      rw (under_key row is) is
    where
      under_key : (row : Option Deployment) → keyed row ≡ some r → text_eq r.id k ≡ true
      under_key none e = cc
      under_key (some x) e = (text_eq_iff r.id k).1 (sym cc)

  pub query_all_complete :
      (row : Option Deployment) (j : Text) {rs : List Deployment} {r : Deployment}
      → rows (listed (keyed row)) ≡ rows rs
      → view row j ≡ some r
      → Memᴰ r rs
  query_all_complete row j {r = r} e v =
      subst (λ l. Memᴰ r l) (rows_inside e)
        (elim (Bool-cases (text_eq j k)) [
          | inl same ↦ listed_complete (keyed row) r (rw same at v)
          | inr other ↦ absurd (none_is (rw other at v))
        ])
    where
      none_is : {A : Type 0} {x : A} → none ≡ some x → ⊥
      none_is e = cc

  pub some_inside : {x y : ℕ} → some x ≡ some y → x ≡ y
  some_inside e = cc

  abbrev pub table : Database
  table = record {
    Db = Option Deployment;
    view = view;
    exec = exec;
    query = λ id row. (rows (view row id), row);
    query_all = λ row. (rows (listed (keyed row)), row);
    exec_reply = exec_reply;
    exec_view = exec_view;
    query_view = λ id row j. refl;
    query_rows = λ id row e. query_rows e;
    view_id = view_id;
    query_all_view = λ row j. refl;
    query_all_sound = query_all_sound;
    query_all_complete = λ row {j = j} e v. query_all_complete row j e v;
    version = λ row. 5;
    columns = λ row. built migrations [];
    user_version = λ row. (some 5, row);
    migrate_one = λ m n row. (false, row);
    user_version_is = λ row e. sym (some_inside e);
    user_version_version = λ row. refl;
    user_version_columns = λ row. refl;
    user_version_view = λ row j. refl;
    migrate_version = λ m n row. refl;
    migrate_columns = λ m n row. refl;
    migrate_view = λ m n row j. refl;
    creates_new = λ cs n row j e. absurd (false≢true e);
  }
