-- ===== src/State/Schema.antt =====
-- `migrations` of internal/state/store.go: the tables and columns that they make. A migration is the
-- statement with the columns that it names, each with the rest of its definition.
use iold.Base.{List, [], ◌∷◌, ◌++◌, Text, codes, Option, none}
use iold.State.Record.{Deployment}

pub record Column : Type 0 where
  pub name : Text
  pub definition : Text

pub data Migration : Type 0 where
  -- CREATE TABLE deployments (…)
  create_table : List Column → Migration
  -- ALTER TABLE deployments ADD COLUMN …
  add_column : Column → Migration

abbrev pub column : Text → Text → Column
column name definition = record { name = name; definition = definition }

abbrev pub late : Text → Migration
late name = add_column (column name (codes "TEXT NOT NULL DEFAULT ''"))

abbrev pub migrations : List Migration
migrations =
    create_table (
      column (codes "id") (codes "TEXT PRIMARY KEY")
      ∷ column (codes "alias") (codes "TEXT NOT NULL")
      ∷ column (codes "artifact") (codes "TEXT NOT NULL")
      ∷ column (codes "artifact_revision") (codes "TEXT NOT NULL")
      ∷ column (codes "port") (codes "INTEGER NOT NULL")
      ∷ column (codes "pid") (codes "INTEGER NOT NULL DEFAULT 0")
      ∷ column (codes "phase") (codes "TEXT NOT NULL")
      ∷ column (codes "failure_reason") (codes "TEXT NOT NULL DEFAULT ''")
      ∷ column (codes "idempotency_key") (codes "TEXT NOT NULL")
      ∷ column (codes "created_at") (codes "TEXT NOT NULL")
      ∷ column (codes "updated_at") (codes "TEXT NOT NULL")
      ∷ [])
    ∷ late (codes "command")
    ∷ late (codes "started_at")
    ∷ late (codes "start_token")
    ∷ late (codes "model_cache_dir")
    ∷ []

-- The columns of the table once a migration has run on one with these.
abbrev pub columns_after : Migration → List Column → List Column
columns_after (create_table columns) before = columns
columns_after (add_column c) before = before ++ c ∷ []

-- The row under a key once a migration has run: a new table has no rows, and a row with a new column
-- has its default there.
abbrev pub migrated : Migration → Option Deployment → Option Deployment
migrated (create_table columns) row = none
migrated (add_column c) row = row

-- The columns that several migrations leave, one after the other.
abbrev pub built : List Migration → List Column → List Column
built [] columns = columns
built (m ∷ ms) columns = built ms (columns_after m columns)
