-- ===== src/Supervisor/Start/Facts.antt =====
-- Launching a process leaves alone what does not depend on the system and the trace.
use iold.Base.{ℕ, zero, suc, Bool, Option, none, some, Text}
use iold.Fault.{Result, ok, err}
use iold.Action.{Action, pure}
use iold.Action.Keeps.{Keeps, Keeps-bind, Keeps-raise, Keeps-pure, Keeps-if, Keeps-attempt}
use iold.Host.{Host, Errno, group, kill_now, Launch}
use iold.World.{World, signalled, started}
use iold.Supervisor.Identity.Facts.{
  IsQuiet-IsReading, IsQuiet, cmdline-Keeps, process_start_info-Keeps, exited-Keeps,
}
use iold.Supervisor.Identity.Indifferent.{IsIndifferent, IsIndifferent-IsQuiet}
use iold.Supervisor.Process.{Process}
use iold.Supervisor.Start.{
  captured, ran_out, attempt_capture, capture_round, capture, abandon, keep_identified, launched,
  must, start, capture_pause,
}

module _ {D : Type 0} (h : Host) (P : World D h.Os → Type 0) (i : IsIndifferent h P) where
  quiet : IsQuiet h P
  quiet = IsIndifferent-IsQuiet h P i

  ran_out-Keeps : (p : Process) (r : Result (ℕ × Text)) → Keeps P (ran_out h p r)
  unfolding ran_out
  ran_out-Keeps p (err f) = Keeps-pure _
  ran_out-Keeps p (ok a) =
      Keeps-bind _ _ (exited-Keeps h P (IsQuiet-IsReading h P quiet) p.pid) (λ gone. Keeps-pure _)

  attempt_capture-Keeps : (p : Process) → Keeps P (attempt_capture h p)
  unfolding attempt_capture
  attempt_capture-Keeps p =
      Keeps-bind _ _ (Keeps-attempt _ (cmdline-Keeps h P (IsQuiet-IsReading h P quiet) p.pid))
        λ current.
          Keeps-bind _ _
            (Keeps-attempt _ (process_start_info-Keeps h P (IsQuiet-IsReading h P quiet) p.pid))
            λ info. by_capture (captured p current info) info
    where
      by_capture :
          (c : Option Process) (info : Result (ℕ × Text))
          → Keeps P (elim c as (λ x. Action (World D h.Os) (Option Process)) [
            | some q ↦ pure (some q)
            | none ↦ ran_out h p info
          ])
      by_capture (some q) info = Keeps-pure _
      by_capture none info = ran_out-Keeps p info

  capture_round-Keeps :
      (o : Option Process) (rest : Action (World D h.Os) (Option Process))
      → Keeps P rest
      → Keeps P (capture_round h o rest)
  unfolding capture_round
  capture_round-Keeps (some q) rest k = Keeps-pure _
  capture_round-Keeps none rest k =
      Keeps-bind _ _ (i.asks Unit (λ s. (tt {0}, h.sleep capture_pause s))) (λ u. k)

  capture-Keeps : (rounds : ℕ) (p : Process) → Keeps P (capture h rounds p)
  unfolding capture
  capture-Keeps zero p = Keeps-pure _
  capture-Keeps (suc rounds) p =
      Keeps-bind _ _ (attempt_capture-Keeps p)
        (λ o. capture_round-Keeps o _ (capture-Keeps rounds p))

  abandon-Keeps : (pid : ℕ) → Keeps P (abandon h pid)
  unfolding abandon
  abandon-Keeps pid = Keeps-bind _ _ (i.notes (signalled pid kill_now)) λ u.
      Keeps-bind _ _ (i.asks Errno (h.kill (group pid) kill_now))
        λ e. Keeps-bind _ _ (i.asks Unit (λ s. (tt {0}, h.kill_child pid s))) (λ u. Keeps-raise _)

  keep_identified-Keeps : (pid : ℕ) (o : Option Process) → Keeps P (keep_identified h pid o)
  unfolding keep_identified
  keep_identified-Keeps pid none = abandon-Keeps pid
  keep_identified-Keeps pid (some q) = Keeps-if _ _ _ (abandon-Keeps pid) (Keeps-pure _)

  launched-Keeps : (spec : Launch) (o : Option ℕ) → Keeps P (launched h spec o)
  unfolding launched
  launched-Keeps spec none = Keeps-raise _
  launched-Keeps spec (some pid) =
      Keeps-bind _ _ (i.notes (started pid spec))
        λ u. Keeps-bind _ _ (capture-Keeps 20 _) (λ o. keep_identified-Keeps pid o)

  pub must-Keeps : (call : h.Os → Bool × h.Os) → Keeps P (must {D = D} h call)
  unfolding must
  must-Keeps call =
      Keeps-bind _ _ (i.asks Bool call) (λ b. Keeps-if _ _ _ (Keeps-pure _) (Keeps-raise _))

  pub start-Keeps : (spec : Launch) → Keeps P (start h spec)
  unfolding start
  start-Keeps spec = Keeps-bind _ _ (must-Keeps _) λ u. Keeps-bind _ _ (must-Keeps _) λ u.
      Keeps-bind _ _ (must-Keeps _)
        λ u. Keeps-bind _ _ (i.asks (Option ℕ) (h.start_command spec)) (λ o. launched-Keeps spec o)
