-- ===== src/State/Open/Facts.antt =====
-- What opening the store does to the schema and to the rows.
use iold.Base.{
  ℕ, zero, suc, ◌+◌, ◌≤◌, ◌≡◌, refl, sym, ◌∙◌, ap, subst, ltb, Bool, true, false, Option, none,
  some, List, [], ◌∷◌, Text, length, take, drop, arith, if◌then◌else◌,
}
use iold.Action.{Action, raise}
use iold.Fault.{database_failed}
use iold.Action.Keeps.{Keeps, Keeps-pure, Keeps-raise, Keeps-bind, Keeps-if}
use iold.Action.Ensures.{
  Ensures, Post, Ensures-pure, Ensures-raise, Ensures-bind, Ensures-if, Ensures-weaken,
  Ensures_of_Keeps, Ensures_of_pre,
}
use iold.Host.{Host}
use iold.World.{ask, note, say}
use iold.State.Schema.{
  Column, Migration, create_table, add_column, columns_after, built, migrations,
}
use iold.State.Database.{Database}
use iold.State.Store.{State}
use iold.Supervisor.Identity.Indifferent.{IsIndifferent}
use iold.Files.Facts.{close-Keeps, open_secured-Keeps}
use iold.State.Open.{read_version, apply, migrate_from, by_version, migrate, open_store}

-- A migration changes no row: where the table is new there was none, and a new column has its default.
pub migrate_one-view :
    (d : Database) (m : Migration) (n : ℕ) (db : d.Db) (j : Text)
    → d.view (d.migrate_one m n db).1 j ≡ d.view db j
migrate_one-view d (add_column c) n db j =
    d.migrate_view (add_column c) n db j ∙ same (d.migrate_one (add_column c) n db).0
  where
    same : (b : Bool) → (if b then d.view db j else d.view db j) ≡ d.view db j
    same true = refl
    same false = refl
migrate_one-view d (create_table cs) n db j =
    d.migrate_view (create_table cs) n db j
    ∙ by_reply (d.migrate_one (create_table cs) n db).0 (d.creates_new cs n db j)
  where
    by_reply :
        (b : Bool)
        → (b ≡ true → d.view db j ≡ none)
        → (if b then none else d.view db j) ≡ d.view db j
    by_reply true k = sym (k refl)
    by_reply false k = refl

-- The migrations up to the next one leave what it makes of what those before leave.
take-next :
    (l : List Migration) (n : ℕ) (m : Migration) (ms : List Migration) (cs : List Column)
    → drop n l ≡ m ∷ ms
    → (built (take (suc n) l) cs ≡ columns_after m (built (take n l) cs)) × (drop (suc n) l ≡ ms)
take-next [] zero m ms cs e = absurd (cc)
take-next [] (suc n) m ms cs e = absurd (cc)
take-next (x ∷ l) zero m ms cs e =
    (ap (λ (y : Migration). columns_after y cs) {x = x} {y = m} cc, cc)
take-next (x ∷ l) (suc n) m ms cs e = take-next l n m ms (columns_after x cs) e

length-drop : (l : List Migration) (n : ℕ) → n ≤ length l → n + length (drop n l) ≡ length l
length-drop l zero le = omega arith
length-drop [] (suc n) le = omega (arith, le)
length-drop (x ∷ l) (suc n) le = omega (arith, length-drop l n (omega (arith, le)))

module _ (d : Database) (h : Host) where
  -- Opening the store leaves alone what neither reading the version nor one migration breaks.
  module _ (P : State d h → Type 0) (i : IsIndifferent h P) (reads : Keeps P (read_version d h))
      (applies : (m : Migration) (n : ℕ) → Keeps P (apply d h m n)) where
    migrate_from-Keeps : (ms : List Migration) (n : ℕ) → Keeps P (migrate_from d h ms n)
    unfolding migrate_from
    migrate_from-Keeps [] n = Keeps-pure _
    migrate_from-Keeps (m ∷ ms) n =
        Keeps-bind _ _ (applies m (suc n))
          λ done. Keeps-if done _ _ (migrate_from-Keeps ms (suc n)) (Keeps-raise _)

    by_version-Keeps : (o : Option ℕ) → Keeps P (by_version d h o)
    unfolding by_version
    by_version-Keeps none = Keeps-raise _
    by_version-Keeps (some version) =
        Keeps-if (ltb (length migrations) version) _ _ (Keeps-raise _) (migrate_from-Keeps _ _)

    pub open_store-Keeps : (dir path : Text) → Keeps P (open_store d h dir path)
    unfolding open_store migrate
    open_store-Keeps dir path = Keeps-bind _ _ (open_secured-Keeps h P i dir path) λ u.
        Keeps-bind _ _ (close-Keeps h P i path) λ u. Keeps-bind _ _ reads (λ o. by_version-Keeps o)

  -- The version counts the migrations that have run, and the table has the columns that they leave.
  pub record Built (n : ℕ) (db : d.Db) : Type 0 where
    pub counted : d.version db ≡ n
    pub columns : d.columns db ≡ built (take n migrations) []

  -- So it is for some number that is no less than `v`.
  abbrev pub BuiltFrom : ℕ → d.Db → Type 0
  BuiltFrom v db = (n : ℕ) × (v ≤ n) × Built n db

  Has-IsIndifferent : (v : ℕ) → IsIndifferent h (λ (w : State d h). Built v w.db)
  unfolding ask note say
  Has-IsIndifferent v = record {
    asks = λ A call. record { at = λ w k. k };
    notes = λ e. record { at = λ w k. k };
    says = λ l. record { at = λ w k. k };
  }

  read_version_outcome :
      (v : ℕ)
      → Ensures
          (λ w. Built v w.db)
          (read_version d h)
          (λ o w. Built v w.db × ((x : ℕ) → o ≡ some x → x ≡ v))
          (λ w. BuiltFrom v w.db)
  unfolding read_version
  read_version_outcome v = record {
    at = λ w k. (
      record {
        counted = d.user_version_version w.db ∙ k.counted;
        columns = d.user_version_columns w.db ∙ k.columns;
      },
      λ x e. d.user_version_is w.db e ∙ k.counted,
    );
  }

  -- After the migration with index `n`, or without it.
  Applied : ℕ → Bool → d.Db → Type 0
  Applied n true db = Built (suc n) db
  Applied n false db = Built n db

  applied :
      (n : ℕ) (m : Migration) (ms : List Migration) (b : Bool) (db db' : d.Db)
      → drop n migrations ≡ m ∷ ms
      → Built n db
      → d.version db' ≡ (if b then suc n else d.version db)
      → d.columns db' ≡ (if b then columns_after m (d.columns db) else d.columns db)
      → Applied n b db'
  unfolding Applied
  applied n m ms true db db' e k v c = record {
    counted = v;
    columns = c ∙ ap (columns_after m) k.columns ∙ sym (take-next migrations n m ms [] e).0;
  }
  applied n m ms false db db' e k v c = record { counted = v ∙ k.counted; columns = c ∙ k.columns }

  apply_outcome :
      (n : ℕ) (m : Migration) (ms : List Migration)
      → drop n migrations ≡ m ∷ ms
      → Ensures
          (λ w. Built n w.db)
          (apply d h m (suc n))
          (λ done w. Applied n done w.db)
          (λ w. BuiltFrom n w.db)
  unfolding apply
  apply_outcome n m ms e = record {
    at = λ w k.
        applied n m ms (d.migrate_one m (suc n) w.db).0 w.db (d.migrate_one m (suc n) w.db).1 e k
          (d.migrate_version m (suc n) w.db) (d.migrate_columns m (suc n) w.db);
  }

  migrate_from_outcome :
      (ms : List Migration) (n v : ℕ)
      → v ≤ n
      → drop n migrations ≡ ms
      → Ensures
          (λ w. Built n w.db)
          (migrate_from d h ms n)
          (λ _ w. Built (n + length ms) w.db)
          (λ w. BuiltFrom v w.db)
  unfolding migrate_from Applied
  migrate_from_outcome [] n v le e =
      Ensures-pure _ (λ w k. subst (λ x. Built x w.db) (omega arith) k)
  migrate_from_outcome (m ∷ ms) n v le e =
      Ensures-bind _ _
        (Ensures-weaken _ (apply_outcome n m ms e) (λ w k. k) (λ a w k. k)
          (λ w (x, y, k). (x, omega (arith, le, y), k)))
        (λ done.
          by_done
            (migrate_from_outcome ms (suc n) v (omega (arith, le))
              (take-next migrations n m ms [] e).1)
            done)
    where
      by_done :
          Ensures
            (λ w. Built (suc n) w.db)
            (migrate_from d h ms (suc n))
            (λ _ w. Built (suc n + length ms) w.db)
            (λ w. BuiltFrom v w.db)
          → (done : Bool)
          → Ensures
              (λ w. Applied n done w.db)
              (if done then migrate_from d h ms (suc n) else raise database_failed)
              (λ _ w. Built (n + length (m ∷ ms)) w.db)
              (λ w. BuiltFrom v w.db)
      by_done rest true =
          Ensures-weaken _ rest (λ w k. k) (λ a w k. subst (λ x. Built x w.db) (omega arith) k)
            (λ w k. k)
      by_done rest false = Ensures-raise _ (λ w k. (n, le, k))

  -- All migrations have run, and no more had run before than the program knows.
  abbrev pub Migrated : ℕ → d.Db → Type 0
  Migrated v db = (v ≤ 5) × (d.version db ≡ 5) × (d.columns db ≡ built migrations [])

  by_version_outcome :
      (v : ℕ) (o : Option ℕ)
      → Ensures
          (λ w. Built v w.db × ((x : ℕ) → o ≡ some x → x ≡ v))
          (by_version d h o)
          (λ _ w. Migrated v w.db)
          (λ w. BuiltFrom v w.db)
  unfolding by_version
  by_version_outcome v none = Ensures-raise _ (λ w k. (v, omega arith, k.0))
  by_version_outcome v (some x) =
      Ensures-if (ltb (length migrations) x) _ _
        (λ t. Ensures-raise _ (λ w k. (v, omega arith, k.0)))
        (λ t. Ensures_of_pre _ (λ same.
          Ensures-weaken _
            (migrate_from_outcome (drop x migrations) x v (omega (arith, same x refl)) refl)
            (λ w k. subst (λ y. Built y w.db) (sym (same x refl)) k)
            (λ a w k.
              let le : x ≤ 5 = ground arith in
              let all : Built 5 w.db = subst (λ y. Built y w.db) (length-drop migrations x le) k in
              (omega (arith, same x refl, le), all.counted, all.columns))
            (λ w k. k)))

  open_store_outcome :
      (v : ℕ) (dir path : Text)
      → Ensures
          (λ w. Built v w.db)
          (open_store d h dir path)
          (λ _ w. Migrated v w.db)
          (λ w. BuiltFrom v w.db)
  unfolding open_store migrate
  open_store_outcome v dir path =
      Ensures-bind _ _ (keeps (open_secured-Keeps h (λ w. Built v w.db) i dir path)) λ u.
        Ensures-bind _ _ (keeps (close-Keeps h (λ w. Built v w.db) i path))
          λ u. Ensures-bind _ _ (read_version_outcome v) (λ o. by_version_outcome v o)
    where
      i : IsIndifferent h (λ (w : State d h). Built v w.db)
      i = Has-IsIndifferent v

      keeps :
          {A : Type 0} {m : Action (State d h) A}
          → Keeps (λ w. Built v w.db) m
          → Ensures (λ w. Built v w.db) m (λ _ w. Built v w.db) (λ w. BuiltFrom v w.db)
      keeps {m = m} k =
          Ensures-weaken m (Ensures_of_Keeps m k) (λ w p. p) (λ a w p. p)
            (λ w p. (v, omega arith, p))

  -- The rows are those of `w₀`.
  pub record SameRows (w₀ w : State d h) : Type 0 where
    pub rows : (j : Text) → d.view w.db j ≡ d.view w₀.db j

  SameRows-IsIndifferent : (w₀ : State d h) → IsIndifferent h (SameRows w₀)
  unfolding ask note say
  SameRows-IsIndifferent w₀ = record {
    asks = λ A call. record { at = λ w k. record { rows = k.rows } };
    notes = λ e. record { at = λ w k. record { rows = k.rows } };
    says = λ l. record { at = λ w k. record { rows = k.rows } };
  }

  open_store_rows :
      (w₀ : State d h) (dir path : Text) → Keeps (SameRows w₀) (open_store d h dir path)
  unfolding read_version apply
  open_store_rows w₀ dir path =
      open_store-Keeps (SameRows w₀) (SameRows-IsIndifferent w₀)
        (record { at = λ w k. record { rows = λ j. d.user_version_view w.db j ∙ k.rows j } })
        (λ m n. record {
          at = λ w k. record { rows = λ j. migrate_one-view d m n w.db j ∙ k.rows j };
        })
        dir path

-- Opening a store of which `v` migrations have run changes no row. Where it succeeds all five have run, each on the
-- columns that those before it left, and `v` is at most five: a database of a newer version is refused. Where
-- it fails the first migrations have run up to some number that is no less than `v`.
pub open_store-Migrated :
    (d : Database) (h : Host) (dir path : Text) (w : State d h) (v : ℕ)
    → Built d h v w.db
    → SameRows d h w (open_store d h dir path w).1
      × Post
          (λ _ w'. Migrated d h v w'.db)
          (λ w'. BuiltFrom d h v w'.db)
          (open_store d h dir path w).0
          (open_store d h dir path w).1
open_store-Migrated d h dir path w v k = (
  (open_store_rows d h w dir path).at w (record { rows = λ j. refl }),
  (open_store_outcome d h v dir path).at w k,
)
