-- ===== src/Supervisor/Stop/Guard.antt =====
-- No signal reaches a process group whose leader was not checked against the recorded identity.
use iold.Base.{
  ℕ, zero, suc, ◌≡◌, refl, Bool, true, false, List, [], ◌∷◌, Text, text_eq, text_eq_iff, arith,
  Memᴰ, ◌||◌, false≢true, if◌then◌else◌, not,
}
use iold.Fault.{Result, ok, err}
use iold.Action.{Action, pure, ◌>>=◌}
use iold.Action.Keeps.{Keeps, keeps_rules, Keeps-bind, Keeps-raise, Keeps-attempt}
use iold.Action.Ensures.{
  Ensures, Post, Ensures-pure, Ensures-raise, Ensures-if, Ensures-bind, Ensures-attempt,
  Ensures-weaken, Ensures-and, Ensures_of_Keeps, Keeps_of_Ensures,
}
use iold.Host.{Host, Signal, Errno, delivered, no_such_process}
use iold.World.{World, Event, signalled, identified, command_line, ask, note}
use iold.Supervisor.Identity.{process_start_info, cmdline}
use iold.Supervisor.Identity.Facts.{
  IsQuiet-IsReading, IsQuiet, is_harmless, process_start_info-Keeps, cmdline-Keeps,
  process_start_info_read, cmdline_read,
}
use iold.Supervisor.Process.{
  Process, alive, process_group_alive, verify_owned, normalize, same_start_time, is_incomplete,
}
use iold.Supervisor.Stop.{
  Waited, emptied, timed_out, starved, signal_result, signal_group, wait_round, wait_empty,
  poll_round, poll_empty, after_kill, after_wait, terminate_group, stop_owned, stop_verified, stop,
}

-- A start identity and a command line of the process were read that agree with what was recorded,
-- and the record was complete.
pub record Seen (p : Process) (t : List Event) : Type 0 where
  pub complete : is_incomplete p ≡ false
  pub at : ℕ
  pub token : Text
  pub read : Memᴰ (identified p.pid at token) t
  pub same_token : token ≡ p.start_token
  pub same_time : same_start_time at p.started_at ≡ true
  pub current : Text
  pub shown : Memᴰ (command_line p.pid current) t
  pub same_command : normalize current ≡ normalize p.command

-- Every signal of the trace went to the group of `p`, after `p` was seen.
abbrev pub Guarded : Process → List Event → Type 0
Guarded p [] = Unit
Guarded p (signalled pgid s ∷ t) = (pgid ≡ p.pid) × Seen p t × Guarded p t
Guarded p (e ∷ t) = Guarded p t

pub Guarded-cons :
    (p : Process) (e : Event) (t : List Event)
    → is_harmless e ≡ true
    → Guarded p t
    → Guarded p (e ∷ t)
Guarded-cons p (signalled pgid s) t q g = cc
Guarded-cons p _ t q g = g

pub Seen-cons : (p : Process) (e : Event) (t : List Event) → Seen p t → Seen p (e ∷ t)
Seen-cons p e t s = record {
  complete = s.complete;
  at = s.at;
  token = s.token;
  read = Memᴰ.tail s.read;
  same_token = s.same_token;
  same_time = s.same_time;
  current = s.current;
  shown = Memᴰ.tail s.shown;
  same_command = s.same_command;
}

module _ {D : Type 0} (h : Host) (p : Process) where
  pub record Calm (w : World D h.Os) : Type 0 where
    pub guarded : Guarded p w.trace

  pub record Cleared (w : World D h.Os) : Type 0 where
    pub guarded : Guarded p w.trace
    pub seen : Seen p w.trace

  Calm-ask : {A : Type 0} (call : h.Os → A × h.Os) → Keeps Calm (ask {D = D} call)
  unfolding ask
  Calm-ask call = record { at = λ w c. record { guarded = c.guarded } }

  Cleared-ask : {A : Type 0} (call : h.Os → A × h.Os) → Keeps Cleared (ask {D = D} call)
  unfolding ask
  Cleared-ask call = record { at = λ w c. record { guarded = c.guarded; seen = c.seen } }

  Calm-note : (e : Event) → is_harmless e ≡ true → Keeps Calm (note {D = D} e)
  unfolding note
  Calm-note e q = record { at = λ w c. record { guarded = Guarded-cons p e w.trace q c.guarded } }

  Calm-alive : (pid : ℕ) → Keeps Calm (alive h pid)
  unfolding alive
  Calm-alive pid = search (keeps_rules, Calm-ask)

  Calm-process_group_alive : (pid : ℕ) → Keeps Calm (process_group_alive h pid)
  unfolding process_group_alive
  Calm-process_group_alive pid = search (keeps_rules, Calm-ask)

  Cleared-process_group_alive : (pid : ℕ) → Keeps Cleared (process_group_alive h pid)
  unfolding process_group_alive
  Cleared-process_group_alive pid = search (keeps_rules, Cleared-ask)

  -- A signal to the group of a process that was seen.
  Cleared-signal : (s : Signal) → Keeps Cleared (note {D = D} (signalled p.pid s))
  unfolding note
  Cleared-signal s = record {
    at = λ w c. record {
      guarded = (refl, c.seen, c.guarded);
      seen = Seen-cons p (signalled p.pid s) w.trace c.seen;
    };
  }

  Cleared-signal_result : (pgid : ℕ) (e : Errno) → Keeps Cleared (signal_result h pgid e)
  unfolding signal_result
  Cleared-signal_result pgid delivered = search keeps_rules
  Cleared-signal_result pgid no_such_process = search keeps_rules
  Cleared-signal_result pgid _ = search keeps_rules

  Cleared-signal_group : (s : Signal) → Keeps Cleared (signal_group h p.pid s)
  unfolding signal_group
  Cleared-signal_group s = search (keeps_rules, Cleared-signal, Cleared-ask, Cleared-signal_result)

  Cleared-wait_round :
      (pgid deadline : ℕ) (rest : Action (World D h.Os) Waited)
      → Keeps Cleared rest
      → Keeps Cleared (wait_round h pgid deadline rest)
  unfolding wait_round
  Cleared-wait_round pgid deadline rest k =
      search (keeps_rules, Cleared-ask, Cleared-process_group_alive) depth 12

  Cleared-wait_empty : (fuel pgid deadline : ℕ) → Keeps Cleared (wait_empty h fuel pgid deadline)
  unfolding wait_empty
  Cleared-wait_empty zero pgid deadline = search keeps_rules
  Cleared-wait_empty (suc fuel) pgid deadline =
      Cleared-wait_round pgid deadline _ (Cleared-wait_empty fuel pgid deadline)

  Cleared-poll_round :
      (pgid : ℕ) (rest : Action (World D h.Os) Waited)
      → Keeps Cleared rest
      → Keeps Cleared (poll_round h pgid rest)
  unfolding poll_round
  Cleared-poll_round pgid rest k =
      search (keeps_rules, Cleared-ask, Cleared-process_group_alive) depth 12

  Cleared-poll_empty : (rounds pgid : ℕ) → Keeps Cleared (poll_empty h rounds pgid)
  unfolding poll_empty
  Cleared-poll_empty zero pgid = search keeps_rules
  Cleared-poll_empty (suc rounds) pgid = Cleared-poll_round pgid _ (Cleared-poll_empty rounds pgid)

  Cleared-after_kill : (pid : ℕ) (r : Waited) → Keeps Cleared (after_kill h pid r)
  unfolding after_kill
  Cleared-after_kill pid emptied = search keeps_rules
  Cleared-after_kill pid _ = search keeps_rules

  Cleared-after_wait : (r : Waited) → Keeps Cleared (after_wait h p.pid r)
  unfolding after_wait
  Cleared-after_wait emptied = search keeps_rules
  Cleared-after_wait timed_out =
      search (keeps_rules, Cleared-signal_group, Cleared-poll_empty, Cleared-after_kill)
  Cleared-after_wait starved = search keeps_rules

  Cleared-stop_owned : (grace : ℕ) → Keeps Cleared (stop_owned h p.pid grace)
  unfolding stop_owned terminate_group
  Cleared-stop_owned grace =
      search
        (keeps_rules, Cleared-ask, Cleared-signal_group, Cleared-wait_empty, Cleared-after_wait)
        depth 12

  pub Calm-quiet : IsQuiet h Calm
  Calm-quiet = record { asks = λ A call. Calm-ask call; notes = Calm-note }

  -- What was read stays in the trace.
  module _ (e : Event) where
    abbrev Kept : World D h.Os → Type 0
    Kept w = Memᴰ e w.trace

    Kept-ask : {A : Type 0} (call : h.Os → A × h.Os) → Keeps Kept (ask {D = D} call)
    unfolding ask
    Kept-ask call = record { at = λ w m. m }

    Kept-note : (f : Event) → Keeps Kept (note {D = D} f)
    unfolding note
    Kept-note f = record { at = λ w m. Memᴰ.tail m }

    Kept-quiet : IsQuiet h Kept
    Kept-quiet = record { asks = λ A call. Kept-ask call; notes = λ f q. Kept-note f }

  read_identity :
      Ensures Calm
        (process_start_info h p.pid)
        (λ a w. Calm w × Memᴰ (identified p.pid a.0 a.1) w.trace)
        Calm
  read_identity =
      Ensures-weaken _
        (Ensures-and _
          (Ensures_of_Keeps _
            (process_start_info-Keeps h Calm (IsQuiet-IsReading h Calm Calm-quiet) p.pid))
          (process_start_info_read h p.pid))
        (λ w c. (c, tt)) (λ a w r. r) (λ w r. r.0)

  read_command :
      (e : Event)
      → Ensures
          (λ w. Calm w × Memᴰ e w.trace)
          (cmdline h p.pid)
          (λ c w. Calm w × Memᴰ e w.trace × Memᴰ (command_line p.pid c) w.trace)
          Calm
  read_command e =
      Ensures-weaken _
        (Ensures-and _
          (Ensures_of_Keeps _ (cmdline-Keeps h Calm (IsQuiet-IsReading h Calm Calm-quiet) p.pid))
          (Ensures-and _
            (Ensures_of_Keeps _
              (cmdline-Keeps h (Kept e) (IsQuiet-IsReading h (Kept e) (Kept-quiet e)) p.pid))
            (cmdline_read h p.pid)))
        (λ w c. (c.0, (c.1, tt))) (λ a w r. (r.0, r.1.0, r.1.1)) (λ w r. r.0)

  -- `verifyOwned` says yes only after what was read agreed with the record.
  abbrev Verdict : Bool → World D h.Os → Type 0
  Verdict b w = Calm w × (b ≡ true → Seen p w.trace)

  no-Verdict : Ensures Calm (pure false) Verdict Calm
  no-Verdict = Ensures-pure false (λ w c. (c, λ e. absurd (false≢true e)))

  Seen-now :
      (at : ℕ) (token current : Text) (w : World D h.Os)
      → is_incomplete p ≡ false
      → (not (text_eq token p.start_token) || not (same_start_time at p.started_at)) ≡ false
      → Memᴰ (identified p.pid at token) w.trace
      → Memᴰ (command_line p.pid current) w.trace
      → text_eq (normalize current) (normalize p.command) ≡ true
      → Seen p w.trace
  Seen-now at token current w c agree read shown same = record {
    complete = c;
    at = at;
    token = token;
    read = read;
    same_token = ground (arith, text_eq_iff token p.start_token);
    same_time = ground arith;
    current = current;
    shown = shown;
    same_command = (text_eq_iff (normalize current) (normalize p.command)).0 same;
  }

  pub verify_owned_sound : Ensures Calm (verify_owned h p) Verdict Calm
  unfolding verify_owned
  verify_owned_sound = Ensures-bind _ _ (Ensures_of_Keeps _ (Calm-alive p.pid)) λ live.
      Ensures-if (not live) _ _ (λ dead. no-Verdict)
        λ alive.
          Ensures-if (is_incomplete p) _ _ (λ bad. Ensures-raise _ (λ w c. c))
            λ complete. Ensures-bind _ _ read_identity λ a. by_identity complete a.0 a.1
    where
      by_identity :
          (complete : is_incomplete p ≡ false) (at : ℕ) (token : Text)
          → Ensures
              (λ w. Calm w × Memᴰ (identified p.pid at token) w.trace)
              (if not (text_eq token p.start_token) || not (same_start_time at p.started_at)
                then pure false
                else (cmdline h p.pid >>= λ current.
                    pure (text_eq (normalize current) (normalize p.command))))
              Verdict
              Calm
      by_identity complete at token =
          Ensures-if _ _ _
            (λ differ. Ensures-weaken _ no-Verdict (λ w c. c.0) (λ b w v. v) (λ w c. c))
            λ agree. Ensures-bind _ _ (read_command (identified p.pid at token)) λ current.
              Ensures-pure _ λ w c. (c.0, Seen-now at token current w complete agree c.1 c.2)

  Cleared→Calm : (w : World D h.Os) → Cleared w → Calm w
  Cleared→Calm w c = record { guarded = c.guarded }

  Calm-cmdline : Keeps Calm (cmdline h p.pid)
  Calm-cmdline = cmdline-Keeps h Calm (IsQuiet-IsReading h Calm Calm-quiet) p.pid

  stop_verified_sound :
      (grace : ℕ) (verdict : Result Bool)
      → Ensures (Post Verdict Calm verdict) (stop_verified h p grace verdict) (λ _. Calm) Calm
  unfolding stop_verified
  stop_verified_sound grace (err f) = Ensures-raise _ (λ w c. c)
  stop_verified_sound grace (ok false) =
      Ensures-weaken _
        (Ensures_of_Keeps _ (Keeps-bind _ _ (Keeps-attempt _ Calm-cmdline) (λ _. Keeps-raise _)))
        (λ w v. v.0) (λ a w c. c) (λ w c. c)
  stop_verified_sound grace (ok true) =
      Ensures-weaken _ (Ensures_of_Keeps _ (Cleared-stop_owned grace))
        (λ w v. record { guarded = v.0.guarded; seen = v.1 refl }) (λ a w c. Cleared→Calm w c)
        Cleared→Calm

  pub Calm-stop : (grace : ℕ) → Keeps Calm (stop h p grace)
  unfolding stop
  Calm-stop grace = Keeps_of_Ensures _ run
    where
      run : Ensures Calm (stop h p grace) (λ _. Calm) Calm
      run = Ensures-bind _ _ (Ensures_of_Keeps _ (Calm-alive p.pid)) λ live.
          Ensures-if (not live) _ _
            (λ dead. Ensures_of_Keeps _ (search (keeps_rules, Calm-process_group_alive)))
            λ alive.
              Ensures-bind _ _ (Ensures-attempt _ verify_owned_sound) (stop_verified_sound grace)

-- Whatever the system answers, `Stop` sends signals only to the group of the recorded process, and
-- only after the start token, the start time and the command line of its leader were read and agreed
-- with a complete record: a recycled PID is never signalled.
pub stop-Guarded :
    {D : Type 0} (h : Host) (p : Process) (grace : ℕ) (w : World D h.Os)
    → Guarded p w.trace
    → Guarded p (stop h p grace w).1.trace
stop-Guarded h p grace w g = ((Calm-stop h p grace).at w (record { guarded = g })).guarded
