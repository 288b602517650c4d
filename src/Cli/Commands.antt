-- ===== src/Cli/Commands.antt =====
-- `runDestroy`, `runStatus`, `resolveTarget`, `runLogs` and `runDoctor` of internal/cli/cli.go. What is
-- printed of rows, logs and reports is left out: `run_status` returns the rows that are shown.
pub mod Facts
pub mod Requested
use iold.Base.{
  ℕ, true, false, Bool, List, [], ◌∷◌, Text, codes, is_empty, ltb, Option, none, some,
  if◌then◌else◌,
}
use iold.Fault.{
  Fault, Result, ok, err, usage, not_found, ambiguous_target, checks_failed, system_failed,
}
use iold.Fault.ExitCode.{is, err_busy}
use iold.Action.{Action, pure, raise, attempt, ◌>>=◌, ◌>>◌}
use iold.Host.{Host, Read, content, absent, unreadable, path}
use iold.World.{World, ask}
use iold.Catalog.{Entry, entries}
use iold.Doctor.{Requirements, Check, default_requirements, report_ok}
use iold.Doctor as Doctor
use iold.Doctor.System.{Probes}
use iold.State.Record.{Deployment}
use iold.State.Database.{Database}
use iold.State.Store.{State, get, list}
use iold.OperationLock.{acquire, holding}
use iold.Cli.Args.{DestroyArgs, destroy_args, StatusArgs, status_args}
use iold.Cli.Paths.{Dirs, render, log_path}
use iold.Cli.Session.{locked, with_store, operation_lock_path}
use iold.Cli.Recover.{recover_interrupted_deployments}
use iold.Cli.Destroy.{destroy_targets}
use iold.Cli.Deploy.Cache.{lift}

-- The most memory that an entry of the catalog needs, and no less than is required.
unfoldable pub most_vram : ℕ → List Entry → ℕ
most_vram least [] = least
most_vram least (entry ∷ more) =
    most_vram (if ltb least entry.minimum_vram_gib then entry.minimum_vram_gib else least) more

unfoldable pub doctor_requirements : Text → Requirements
unfolding most_vram
doctor_requirements cache_dir =
    let req = default_requirements cache_dir in
    record req { min_vram_gib = most_vram req.min_vram_gib entries }

unfoldable pub run_doctor : {D O : Type 0} → Probes O → Text → Action (World D O) (List Check)
run_doctor p cache_dir = do
  report ← Doctor.run p (doctor_requirements cache_dir)
  if report_ok report then pure report else raise checks_failed

module _ (d : Database) (h : Host) (dirs : Dirs) where
  by_destroy_args : Option DestroyArgs → Action (State d h) Unit
  by_destroy_args none = raise usage
  by_destroy_args (some a) = locked d h dirs (destroy_targets d h dirs a.all a.purge a.id)

  unfoldable pub run_destroy : List Text → Action (State d h) Unit
  unfolding by_destroy_args
  run_destroy args = by_destroy_args (destroy_args false false [] args)

  -- The deployment that is named, or the only one.
  only_one : List Deployment → Action (State d h) Deployment
  only_one [] = raise not_found
  only_one (r ∷ []) = pure r
  only_one (r ∷ q ∷ rs) = raise ambiguous_target

  unfoldable pub resolve_target : List Text → Action (State d h) Deployment
  unfolding only_one
  resolve_target (id ∷ []) = get d h id
  resolve_target _ = do rs ← list d h; only_one rs

  read_log : Read → Action (State d h) Text
  read_log (content log) = pure log
  read_log absent = raise system_failed
  read_log unreadable = raise system_failed

  -- The log before it is redacted.
  show_log : List Text → Action (State d h) Text
  unfolding read_log
  show_log args = do
    r ← resolve_target args
    file ← lift h (log_path dirs r.id)
    found ← ask (h.read_file (path (render file)))
    read_log found

  unfoldable pub run_logs : List Text → Action (State d h) Text
  unfolding show_log
  run_logs (a ∷ b ∷ more) = raise usage
  run_logs args = with_store d h dirs (show_log args)

  -- `TryAcquire`: whether the lock is held; that it is busy is no error.
  by_lock : Result (Unit {0}) → Action (State d h) Bool
  by_lock (ok u) = pure true
  by_lock (err f) = if is f err_busy then pure false else raise f

  one : Text → Action (State d h) (List Deployment)
  one id = do r ← get d h id; pure (r ∷ [])

  shown : Bool → Text → Action (State d h) (List Deployment)
  unfolding one
  shown held id = do
    if held then recover_interrupted_deployments d h else pure tt
    if is_empty id then list d h else one id

  by_status_args : Option StatusArgs → Action (State d h) (List Deployment)
  unfolding by_lock shown
  by_status_args none = raise usage
  by_status_args (some a) = do
    tried ← attempt (acquire h (render dirs.state_dir) (operation_lock_path dirs) true)
    held ← by_lock tried
    let body = with_store d h dirs (shown held a.id)
    if held then holding h (operation_lock_path dirs) body else body

  unfoldable pub run_status : List Text → Action (State d h) (List Deployment)
  unfolding by_status_args
  run_status args = by_status_args (status_args false [] args)
