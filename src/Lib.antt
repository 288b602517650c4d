-- ===== src/Lib.antt =====
-- A verification of iold: the command line that plans, deploys, shows and destroys model runtimes, with the
-- deployment store, the process supervisor and the checks it goes through.
--
-- The program keeps one row for each deployment in a SQLite database (internal/state), launches and
-- signals the runtime process (internal/supervisor), asks Hugging Face about a model (internal/hf),
-- estimates whether it fits (internal/planner), checks the host (internal/doctor, internal/preflight), and
-- drives all of it from the command line (internal/cli). A command that changes rows runs under a global
-- lock (internal/operationlock), so it is one sequence of calls; between any two of them the database, the
-- system, the hub and the server may answer anything, and every call may fail.
--
-- Which file models what:
--   State/Machine: internal/state/machine.go, CanTransition and checkTransition; State/Machine/Graph has
--     the diagram as a relation.
--   State/Record, State/Columns, State/Schema, State/Database, State/Store, State/Open:
--     internal/state/store.go. A statement is a value
--     with the columns it sets and its WHERE clause; the database is a parameter with the documented effect
--     of one statement on the row under its key and of one migration on the columns, the rows and the
--     version, and may fail at any time. State/Columns has what the columns of an INSERT keep for a SELECT,
--     State/Schema the migrations with their columns. Create, Get, List, Transition, SetRuntimeIntent, SetRuntime (record_runtime) and
--     Delete (delete_record) are actions, and Open with its migrations is State/Open.
--     State/Store/Life is the abstract life of a row, State/Store/Moves, After, Runtime and Creation say
--     what a call has done, State/Store/Effect what all of them preserve.
--   Supervisor/Identity: internal/supervisor/identity_linux.go and cmdline. Supervisor/Process: Alive,
--     verifyOwned, Owned, Reconcile. Supervisor/Intent: FindByCommand. Supervisor/Start: Start.
--     Supervisor/Stop: Stop. Supervisor/Ports: ports.go.
--   Hub, Hub/Requests: internal/hf/hf.go. Planner/Quantization, Planner/Estimate, Planner/Suggest:
--     internal/planner. Catalog: internal/catalog/catalog.go.
--   Doctor, Doctor/System: internal/doctor, the checks over any probes and the probes of the system.
--     Preflight: internal/preflight/preflight.go.
--   Files, OperationLock: internal/operationlock/lock.go, and the files that Open shares with it.
--   Retry: internal/retry/retry.go.
--   Cli/Names, Cli/Paths, Cli/Data: identifiers, owned paths and their removal in internal/cli/cli.go,
--     and deploymentID of internal/cli/deploy.go. Cli/Recover: recoverInterruptedDeployments.
--     Cli/Destroy: destroyOne and the body of runDestroy. Cli/Args: the arguments of deploy, destroy and
--     status. Cli/Session: a command with the store open and the lock held. Cli/Commands: runDestroy,
--     runStatus, runLogs, runDoctor. Cli/Plan: internal/cli/plan.go. Cli/Main: Run.
--     Cli/Deploy/Resolve: resolveSpec and vllmCommand. Cli/Deploy/Run: runDeploy. Cli/Deploy:
--     executeDeploy, with writeAPIKey and prepareModelCache in Cli/Deploy/Cache and waitHealthy and
--     checkReadiness in Cli/Deploy/Ready.
--   Fault: the errors of these packages; Fault/ExitCode: internal/cli/exitcode.go.
--   Action, World, Host: an action takes the state of the database, the system, the trace of events and
--     the printed lines to a result or an error with the state after it. The system is a parameter whose
--     answers are arbitrary; only its clock has laws: it never runs backwards and a sleep lasts.
--     Action/Keeps, Action/Ensures and Action/Yields reason about what an action preserves, leaves and
--     returns.
--   Example: databases and hosts on which the theorems are run; Example/Live is a host on which a
--     deployment from the catalog succeeds.
--
-- How it is modelled:
--   Texts are lists of bytes. Times are nanoseconds since Go's zero time, and 0 is IsZero; the store's
--   RFC 3339 texts keep whole seconds, its RFC3339Nano texts all. A row whose columns do not decode is a
--   failed query. An absolute path is the list of its segments. Texts of errors and of printed lines are
--   values that keep their arguments. Process identifiers are natural numbers; a negative one is not
--   represented, nor is a negative boot time.
--   The numbers of the planner, of the doctor and of a hub's answer are int64 as bit patterns below
--   2 ^ 64: sums and products wrap, and the tests read the sign. Counts of a parameter census are not
--   negative. A weight or a budget, which the program has as float64, is rounded as float64 rounds, to 53
--   significant bits and ties to even; such a number is a natural number of a unit that is a power of
--   two (Planner/Float). A weight that no int64 holds becomes the least int64, as on amd64. A map is the
--   list of its entries, in the order of the walk.
--   A poll loop runs on fuel. Stop waits at most the grace period over the pause, and two rounds more;
--   the other two loops have as many rounds as the timeout over the pause, and three more. A loop that ran
--   out of fuel answers `starved`, an outcome of its own.
--   Parameters are what the decoder of JSON makes of an answer, the function that sorts candidates, the
--   pause that a retry policy draws for an attempt, the command and the address of the runtime, and the
--   directories of the environment.
--
-- Not modelled: what is printed of rows, logs, estimates and reports, and the details of a check; the
-- arithmetic of retry delays and their jitter, which is floating point and random; redaction and the log
-- proxy (internal/redact, internal/supervisor/log_proxy.go), regular expressions and a helper process;
-- identities on other systems; and the fake servers of the tests (internal/fakes).
pub mod Base
pub mod State
pub mod Supervisor
pub mod Cli
pub mod Fault
pub mod Action
pub mod Host
pub mod World
pub mod Hub
pub mod Retry
pub mod Planner
pub mod Files
pub mod OperationLock
pub mod Doctor
pub mod Preflight
pub mod Catalog
pub mod Example
