-- ===== src/State/Open.antt =====
-- `Open` and `migrate` of internal/state/store.go. `sql.Open` connects to nothing.
pub mod Facts
use iold.Base.{
  ℕ, suc, length, drop, List, [], ◌∷◌, ltb, Bool, true, false, Option, none, some, Text,
  if◌then◌else◌,
}
use iold.Fault.{Fault, ok, database_failed}
use iold.Action.{Action, pure, raise, ◌>>=◌, ◌>>◌}
use iold.Host.{Host}
use iold.World.{World}
use iold.State.Schema.{Migration, migrations}
use iold.State.Database.{Database}
use iold.State.Store.{State}
use iold.Files.{close, open_secured}

module _ (d : Database) (h : Host) where
  unfoldable pub read_version : Action (State d h) (Option ℕ)
  read_version w = let (v, db) = d.user_version w.db in (ok v, record w { db = db })

  -- The migration, with the version that it leaves.
  unfoldable pub apply : Migration → ℕ → Action (State d h) Bool
  apply m n w = let (done, db) = d.migrate_one m n w.db in (ok done, record w { db = db })

  -- The migrations that are left, of which the first has index `i`.
  unfoldable pub migrate_from : List Migration → (i : ℕ) → Action (State d h) Unit
  unfolding apply
  migrate_from [] i = pure tt
  migrate_from (m ∷ ms) i = do
    done ← apply m (suc i)
    if done then migrate_from ms (suc i) else raise database_failed

  by_version : Option ℕ → Action (State d h) Unit
  unfolding migrate_from
  by_version none = raise database_failed
  by_version (some version) =
      if ltb (length migrations) version
      then raise database_failed
      else migrate_from (drop version migrations) version

  unfoldable pub migrate : Action (State d h) Unit
  unfolding read_version by_version
  migrate = do version ← read_version; by_version version

  unfoldable pub open_store : (dir path : Text) → Action (State d h) Unit
  open_store dir path = do open_secured h dir path; close h path; migrate
