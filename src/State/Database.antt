-- ===== src/State/Database.antt =====
-- What the store relies on of its database, which the program does not implement: the documented
-- effect of one statement, executed alone (the store has one connection), on the rows by their
-- primary key. A call may fail at any time; it then changes no row. Only the statement may fail and not
-- the count of its rows, which the driver has at hand once the statement is done.
use iold.Base.{ℕ, Bool, true, ◌≡◌, Option, none, some, List, Text, text_eq, if◌then◌else◌, Memᴰ}
use iold.State.Schema.{Column, Migration, create_table, columns_after, migrated}
use iold.State.Record.{Deployment, Statement, insert, key, row_after, affected}

-- `sql.Result` with its count, or the error. `constraint` is the text "constraint failed".
pub data Reply : Type 0 where
  done : ℕ → Reply
  constraint : Reply
  broken : Reply

-- The rows that a SELECT returns, or an error of the query or of the scan.
pub data Rows {ℓ} (A : Type ℓ) : Type ℓ where
  rows : A → Rows A
  unread : Rows A

-- The replies that a statement may have on the row with its key.
abbrev pub Documented : Statement → Option Deployment → Reply → Type 0
Documented (insert d) (some r) (done n) = ⊥
Documented (insert d) none constraint = ⊥
Documented (insert d) (some r) constraint = Unit
Documented q row (done n) = n ≡ affected q row
Documented q row constraint = ⊥
Documented q row broken = Unit

-- The row with key `j` after the reply.
abbrev pub settled : Reply → Statement → Text → Option Deployment → Option Deployment
settled (done n) q j row = if text_eq j (key q) then row_after q row else row
settled constraint q j row = row
settled broken q j row = row

pub record Database : Type 1 where
  pub Db : Type 0
  -- The committed row with a primary key, where a column that the table lacks has the default of its
  -- migration. The program does not call it.
  pub view : Db → Text → Option Deployment
  pub exec : Statement → Db → Reply × Db
  -- SELECT … WHERE id = ?
  pub query : Text → Db → Rows (Option Deployment) × Db
  -- SELECT … ORDER BY created_at, id
  pub query_all : Db → Rows (List Deployment) × Db
  pub exec_reply : (q : Statement) (db : Db) → Documented q (view db (key q)) (exec q db).0
  pub exec_view :
      (q : Statement) (db : Db) (j : Text)
      → view (exec q db).1 j ≡ settled (exec q db).0 q j (view db j)
  pub query_view : (id : Text) (db : Db) (j : Text) → view (query id db).1 j ≡ view db j
  pub query_rows :
      (id : Text) (db : Db) {row : Option Deployment}
      → (query id db).0 ≡ rows row
      → row ≡ view db id
  pub view_id : (db : Db) (j : Text) {r : Deployment} → view db j ≡ some r → r.id ≡ j
  pub query_all_view : (db : Db) (j : Text) → view (query_all db).1 j ≡ view db j
  pub query_all_sound :
      (db : Db) {rs : List Deployment} {r : Deployment}
      → (query_all db).0 ≡ rows rs
      → Memᴰ r rs
      → view db r.id ≡ some r
  pub query_all_complete :
      (db : Db) {rs : List Deployment} {j : Text} {r : Deployment}
      → (query_all db).0 ≡ rows rs
      → view db j ≡ some r
      → Memᴰ r rs
  -- The number in user_version, and the columns of the table, none where there is no table. The program
  -- calls neither.
  pub version : Db → ℕ
  pub columns : Db → List Column
  -- PRAGMA user_version
  pub user_version : Db → Option ℕ × Db
  -- One transaction: the migration and the new user_version, which either commit or are rolled back.
  pub migrate_one : Migration → ℕ → Db → Bool × Db
  pub user_version_is : (db : Db) {v : ℕ} → (user_version db).0 ≡ some v → v ≡ version db
  pub user_version_version : (db : Db) → version (user_version db).1 ≡ version db
  pub user_version_columns : (db : Db) → columns (user_version db).1 ≡ columns db
  pub user_version_view : (db : Db) (j : Text) → view (user_version db).1 j ≡ view db j
  pub migrate_version :
      (m : Migration) (n : ℕ) (db : Db)
      → version (migrate_one m n db).1 ≡ (if (migrate_one m n db).0 then n else version db)
  pub migrate_columns :
      (m : Migration) (n : ℕ) (db : Db)
      → columns (migrate_one m n db).1
        ≡ (if (migrate_one m n db).0 then columns_after m (columns db) else columns db)
  pub migrate_view :
      (m : Migration) (n : ℕ) (db : Db) (j : Text)
      → view (migrate_one m n db).1 j
        ≡ (if (migrate_one m n db).0 then migrated m (view db j) else view db j)
  -- CREATE TABLE fails where there is the table, and without a table there is no row.
  pub creates_new :
      (cs : List Column) (n : ℕ) (db : Db) (j : Text)
      → (migrate_one (create_table cs) n db).0 ≡ true
      → view db j ≡ none
