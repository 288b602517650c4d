-- ===== src/Cli/Session.antt =====
-- What the commands share: the lifecycle lock and the store, in the directory of the state.
pub mod Facts
use iold.Base.{false, ◌∷◌, [], ◌++◌, Text, codes}
use iold.Action.{Action, ◌>>=◌, ◌>>◌}
use iold.Host.{Host}
use iold.State.Database.{Database}
use iold.State.Store.{State}
use iold.State.Open.{open_store}
use iold.OperationLock.{acquire, holding}
use iold.Cli.Paths.{Dirs, render}

-- `stateDBPath()` and `operationLockPath()`
abbrev pub state_db_path : Dirs → Text
state_db_path dirs = render (dirs.state_dir ++ codes "iold.db" ∷ [])

abbrev pub operation_lock_path : Dirs → Text
operation_lock_path dirs = render (dirs.state_dir ++ codes "operation.lock" ∷ [])

module _ (d : Database) (h : Host) (dirs : Dirs) where
  -- `state.Open(stateDBPath())`, then `m`; closing the store has no effect on the rows.
  unfoldable pub with_store : {A : Type 0} → Action (State d h) A → Action (State d h) A
  with_store m = do open_store d h (render dirs.state_dir) (state_db_path dirs); m

  -- The same behind the lifecycle lock.
  unfoldable pub locked : {A : Type 0} → Action (State d h) A → Action (State d h) A
  unfolding with_store
  locked m = do
    acquire h (render dirs.state_dir) (operation_lock_path dirs) false
    holding h (operation_lock_path dirs) (with_store m)
