-- ===== src/World.antt =====
-- The state that a command works on: the database, the operating system, what the program did to
-- processes and files or learnt about them, newest first, and the lines it printed, newest first.
use iold.Base.{ℕ, List, ◌∷◌, Text}
use iold.Fault.{Fault, ok}
use iold.Action.{Action}
use iold.Host.{Signal, Launch}

pub data Event : Type 0 where
  -- a signal that is not the probe, sent to a process group
  signalled : (pgid : ℕ) (signal : Signal) → Event
  -- the start identity and the command line that were read for a process
  identified : (pid started_at : ℕ) (token : Text) → Event
  command_line : (pid : ℕ) (command : Text) → Event
  started : (pid : ℕ) (launch : Launch) → Event
  removed : (path : Text) → Event

pub data Line : Type 0 where
  replacing : (id : Text) → Line
  stop_warning : (pid : ℕ) (why : Fault) → Line
  record_warning : (why : Fault) → Line
  runtime_started : (id : Text) (pid port : ℕ) → Line
  summary : (id key : Text) (port : ℕ) → Line
  runtime_stopped : (id : Text) (pid : ℕ) → Line
  destroyed_line : (id : Text) → Line
  purged_line : (id : Text) → Line
  destroy_failed : (id : Text) (why : Fault) → Line
  billing_note : Line

pub record World (D O : Type 0) : Type 0 where
  pub db : D
  pub os : O
  pub trace : List Event
  pub output : List Line

module _ {D O : Type 0} where
  -- A call of the operating system, which cannot fail as an action: its errors are answers.
  unfoldable pub ask : {A : Type 0} → (O → A × O) → Action (World D O) A
  ask call w = let (a, s) = call w.os in (ok a, record w { os = s })

  unfoldable pub note : Event → Action (World D O) Unit
  note e w = (ok tt, record w { trace = e ∷ w.trace })

  unfoldable pub say : Line → Action (World D O) Unit
  say l w = (ok tt, record w { output = l ∷ w.output })
