-- ===== src/Supervisor/Identity/Facts.antt =====
-- What reading a process leaves in the trace.
use iold.Base.{
  ℕ, ◌≡◌, refl, Bool, true, false, Option, none, some, ◌∷◌, Text, Memᴰ, Option-cases, inl, inr,
}
use iold.Action.{pure, ◌>>=◌}
use iold.Action.Keeps.{Keeps, keeps_rules, Keeps-bind, Keeps-raise, Keeps-pure}
use iold.Action.Ensures.{Ensures, Ensures-raise, Ensures-bind}
use iold.Host.{
  Host, Read, content, absent, unreadable, proc_stat, proc_cmdline, boot_stat, File, Target, Signal,
  Errno,
}
use iold.World.{World, Event, signalled, started, identified, command_line, ask, note}
use iold.Supervisor.Identity.{
  process_start_info, with_stat, identity_by, exited, exited_by, cmdline, cmdline_by, ps_line,
  start_ticks, boot_time,
}

abbrev pub is_harmless : Event → Bool
is_harmless (signalled pgid s) = false
is_harmless (started pid l) = false
is_harmless _ = true

-- An assertion that neither a question to the system nor the note of what was read or removed can break.
pub record IsQuiet {D : Type 0} (h : Host) (P : World D h.Os → Type 0) : Type 1 where
  pub asks : (A : Type 0) (call : h.Os → A × h.Os) → Keeps P (ask {D = D} call)
  pub notes : (e : Event) → is_harmless e ≡ true → Keeps P (note {D = D} e)

-- An assertion that the questions about a process and the notes of the answers cannot break.
pub record IsReading {D : Type 0} (h : Host) (P : World D h.Os → Type 0) : Type 1 where
  pub reads : (f : File) → Keeps P (ask {D = D} (h.read_file f))
  pub shows : (pid : ℕ) → Keeps P (ask {D = D} (h.ps_command pid))
  pub probes : (t : Target) (g : Signal) → Keeps P (ask {D = D} (h.kill t g))
  pub notes : (e : Event) → is_harmless e ≡ true → Keeps P (note {D = D} e)

pub IsQuiet-IsReading :
    {D : Type 0} (h : Host) (P : World D h.Os → Type 0) → IsQuiet h P → IsReading h P
IsQuiet-IsReading h P q = record {
  reads = λ f. q.asks Read (h.read_file f);
  shows = λ pid. q.asks (Option Text) (h.ps_command pid);
  probes = λ t g. q.asks Errno (h.kill t g);
  notes = q.notes;
}

module _ {D : Type 0} (h : Host) (P : World D h.Os → Type 0) (q : IsReading h P) where
  identity_by-Keeps :
      (pid : ℕ) (field : Text) (ticks : ℕ) (boot : Read)
      → Keeps P (identity_by h pid field ticks boot)
  unfolding identity_by
  identity_by-Keeps pid field ticks absent = search keeps_rules
  identity_by-Keeps pid field ticks unreadable = search keeps_rules
  identity_by-Keeps pid field ticks (content raw) = elim (Option-cases (boot_time raw)) [
    | inl e ↦ rw (e, identity_by) (Keeps-raise _)
    | inr (b, e) ↦ rw (e, identity_by) (Keeps-bind _ _ (q.notes _ refl) (λ _. Keeps-pure _))
  ]

  with_stat-Keeps : (pid : ℕ) (r : Read) → Keeps P (with_stat h pid r)
  unfolding with_stat
  with_stat-Keeps pid absent = search keeps_rules
  with_stat-Keeps pid unreadable = search keeps_rules
  with_stat-Keeps pid (content line) = elim (Option-cases (start_ticks line)) [
    | inl e ↦ rw (e, with_stat) (Keeps-raise _)
    | inr (b, e) ↦
        rw (e, with_stat)
          (Keeps-bind _ _ (q.reads boot_stat) (λ boot. identity_by-Keeps pid b.0 b.1 boot))
  ]

  pub process_start_info-Keeps : (pid : ℕ) → Keeps P (process_start_info h pid)
  unfolding process_start_info
  process_start_info-Keeps pid =
      Keeps-bind _ _ (q.reads (proc_stat pid)) (λ r. with_stat-Keeps pid r)

  ps_line-Keeps : (pid : ℕ) (out : Option Text) → Keeps P (ps_line h pid out)
  unfolding ps_line
  ps_line-Keeps pid none = search keeps_rules
  ps_line-Keeps pid (some out) = Keeps-bind _ _ (q.notes _ refl) (λ _. Keeps-pure _)

  cmdline_by-Keeps : (pid : ℕ) (r : Read) → Keeps P (cmdline_by h pid r)
  unfolding cmdline_by
  cmdline_by-Keeps pid (content raw) = Keeps-bind _ _ (q.notes _ refl) (λ _. Keeps-pure _)
  cmdline_by-Keeps pid absent = Keeps-bind _ _ (q.shows pid) (λ out. ps_line-Keeps pid out)
  cmdline_by-Keeps pid unreadable = Keeps-bind _ _ (q.shows pid) (λ out. ps_line-Keeps pid out)

  pub cmdline-Keeps : (pid : ℕ) → Keeps P (cmdline h pid)
  unfolding cmdline
  cmdline-Keeps pid = Keeps-bind _ _ (q.reads (proc_cmdline pid)) (λ r. cmdline_by-Keeps pid r)

  exited_by-Keeps : (r : Read) → Keeps P (exited_by {D = D} h r)
  unfolding exited_by
  exited_by-Keeps absent = search keeps_rules
  exited_by-Keeps unreadable = search keeps_rules
  exited_by-Keeps (content line) = search keeps_rules

  pub exited-Keeps : (pid : ℕ) → Keeps P (exited h pid)
  unfolding exited
  exited-Keeps pid = Keeps-bind _ _ (q.reads (proc_stat pid)) (λ r. exited_by-Keeps r)

-- The newest event of a note is at the head of the trace.
module _ {D : Type 0} (h : Host) where
  abbrev pub Any : World D h.Os → Type 0
  Any w = Unit

  Any-ask : {A : Type 0} (call : h.Os → A × h.Os) → Ensures Any (ask {D = D} call) (λ _. Any) Any
  unfolding ask
  Any-ask call = record { at = λ w u. tt }

  noted :
      {A : Type 0} (e : Event) (a : A) (Q : A → World D h.Os → Type 0)
      → ((w : World D h.Os) → Memᴰ e w.trace → Q a w)
      → Ensures Any (note {D = D} e >>= λ _. pure a) Q Any
  unfolding note pure ◌>>=◌
  noted e a Q f = record { at = λ w u. f (record w { trace = e ∷ w.trace }) (Memᴰ.head refl) }

  module _ (pid : ℕ) where
    abbrev Identified : ℕ × Text → World D h.Os → Type 0
    Identified a w = Memᴰ (identified pid a.0 a.1) w.trace

    identity_by_read :
        (field : Text) (ticks : ℕ) (r : Read)
        → Ensures Any (identity_by h pid field ticks r) Identified Any
    unfolding identity_by
    identity_by_read field ticks absent = Ensures-raise _ (λ w u. tt)
    identity_by_read field ticks unreadable = Ensures-raise _ (λ w u. tt)
    identity_by_read field ticks (content raw) = elim (Option-cases (boot_time raw)) [
      | inl e ↦ rw (e, identity_by) (Ensures-raise _ (λ w u. tt))
      | inr (b, e) ↦ rw (e, identity_by) (noted _ _ _ (λ w m. m))
    ]

    with_stat_read : (r : Read) → Ensures Any (with_stat h pid r) Identified Any
    unfolding with_stat
    with_stat_read absent = Ensures-raise _ (λ w u. tt)
    with_stat_read unreadable = Ensures-raise _ (λ w u. tt)
    with_stat_read (content line) = elim (Option-cases (start_ticks line)) [
      | inl e ↦ rw (e, with_stat) (Ensures-raise _ (λ w u. tt))
      | inr (b, e) ↦
          rw (e, with_stat) (Ensures-bind _ _ (Any-ask _) (λ boot. identity_by_read b.0 b.1 boot))
    ]

    -- A result of `processStartInfo` was read for this process.
    pub process_start_info_read : Ensures Any (process_start_info h pid) Identified Any
    unfolding process_start_info
    process_start_info_read = Ensures-bind _ _ (Any-ask _) (λ r. with_stat_read r)

    abbrev Shown : Text → World D h.Os → Type 0
    Shown c w = Memᴰ (command_line pid c) w.trace

    ps_line_read : (out : Option Text) → Ensures Any (ps_line h pid out) Shown Any
    unfolding ps_line
    ps_line_read none = Ensures-raise _ (λ w u. tt)
    ps_line_read (some out) = noted _ _ _ (λ w m. m)

    cmdline_by_read : (r : Read) → Ensures Any (cmdline_by h pid r) Shown Any
    unfolding cmdline_by
    cmdline_by_read (content raw) = noted _ _ _ (λ w m. m)
    cmdline_by_read absent = Ensures-bind _ _ (Any-ask _) (λ out. ps_line_read out)
    cmdline_by_read unreadable = Ensures-bind _ _ (Any-ask _) (λ out. ps_line_read out)

    -- So was a result of `cmdline`.
    pub cmdline_read : Ensures Any (cmdline h pid) Shown Any
    unfolding cmdline
    cmdline_read = Ensures-bind _ _ (Any-ask _) (λ r. cmdline_by_read r)
