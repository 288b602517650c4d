-- ===== src/Cli/Session/Facts.antt =====
-- A command leaves alone whatever its body, the lock and opening the store leave alone.
use iold.Base.{ℕ, false}
use iold.Action.{Action}
use iold.Action.Keeps.{Keeps, Keeps-bind}
use iold.Action.Ensures.{Ensures, Anything, Ensures-bind, Ensures_any}
use iold.Host.{Host}
use iold.State.Database.{Database}
use iold.State.Store.{State}
use iold.State.Store.Effect.{Lives, Lives-IsIndifferent}
use iold.State.Open.{read_version, apply, open_store}
use iold.State.Schema.{Migration}
use iold.State.Open.Facts.{open_store-Keeps, migrate_one-view}
use iold.Supervisor.Identity.Indifferent.{IsIndifferent}
use iold.OperationLock.Facts.{acquire-Keeps, holding-Keeps, holding_returns}
use iold.OperationLock.{acquire}
use iold.Cli.Paths.{Dirs, render}
use iold.Cli.Session.{with_store, locked, operation_lock_path, state_db_path}

-- An assertion that no call of a command can break but those that change rows.
pub record IsOpened (d : Database) (h : Host) (P : State d h → Type 0) : Type 1 where
  pub indifferent : IsIndifferent h P
  pub reads : Keeps P (read_version d h)
  pub applies : (m : Migration) (n : ℕ) → Keeps P (apply d h m n)

module _ (d : Database) (h : Host) (P : State d h → Type 0) (o : IsOpened d h P) (dirs : Dirs)
    {A : Type 0} (m : Action (State d h) A) (k : Keeps P m) where
  pub with_store-Keeps : Keeps P (with_store d h dirs m)
  unfolding with_store
  with_store-Keeps =
      Keeps-bind _ _ (open_store-Keeps d h P o.indifferent o.reads o.applies _ _) (λ u. k)

  pub locked-Keeps : Keeps P (locked d h dirs m)
  unfolding locked
  locked-Keeps =
      Keeps-bind _ _ (acquire-Keeps h P o.indifferent _ _ false)
        (λ u. holding-Keeps h P o.indifferent _ _ with_store-Keeps)

pub Lives-IsOpened : (d : Database) (h : Host) (w₀ : State d h) → IsOpened d h (Lives d h w₀)
unfolding read_version apply
Lives-IsOpened d h w₀ = record {
  indifferent = Lives-IsIndifferent d h w₀;
  reads = record { at = λ w l. record { life = λ j. rw (d.user_version_view w.db j) (l.life j) } };
  applies = λ m n. record {
    at = λ w l. record { life = λ j. rw (migrate_one-view d m n w.db j) (l.life j) };
  };
}

-- A command returns what its body returned, and releasing the lock breaks no assertion about the rows.
pub locked_returns :
    (d : Database) (h : Host) (dirs : Dirs) {A : Type 0} {P : State d h → Type 0}
    (Q : A → State d h → Type 0) (m : Action (State d h) A)
    → ((a : A) → IsIndifferent h (Q a))
    → Ensures Anything m Q Anything
    → Ensures P (locked d h dirs m) Q Anything
unfolding locked with_store
locked_returns d h dirs Q m i k =
    Ensures-bind _ _
      (Ensures_any (acquire h (render dirs.state_dir) (operation_lock_path dirs) false))
      λ u. holding_returns h (operation_lock_path dirs) Q i _ (
        Ensures-bind _ _ (Ensures_any (open_store d h (render dirs.state_dir) (state_db_path dirs)))
          (λ u. k))
