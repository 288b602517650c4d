-- ===== src/Supervisor/Identity.antt =====
-- internal/supervisor/identity_linux.go and `cmdline` of supervisor.go: what is read of a process.
pub mod Facts
pub mod Indifferent
use iold.Base.{
  ℕ, zero, suc, ◌+◌, ◌*◌, ◌/◌, ◌%◌, ◌&&◌, ◌||◌, not, ◌==◌, ltb, Bool, true, false, Option, none,
  some, List, [], ◌∷◌, ◌++◌, Text, codes, text_eq, fields, join_words, split, trim_space,
  trim_right, replace_byte, after_last, parse_nat, if◌then◌else◌,
}
use iold.Fault.{Fault, Result, ok, err, system_failed}
use iold.Action.{Action, pure, raise, attempt, ◌>>=◌, ◌>>◌}
use iold.Host.{Host, Read, content, absent, unreadable, proc_stat, proc_cmdline, boot_stat}
use iold.World.{World, identified, command_line, ask, note}

-- Seconds from the zero time of Go to the Unix epoch, and the nanoseconds of a second.
abbrev epoch : ℕ
epoch = 62135596800

abbrev second : ℕ
second = 1000000000

-- `fields[i]`, when `i < len(fields)`.
abbrev nth : List Text → ℕ → Option Text
nth [] i = none
nth (x ∷ xs) zero = some x
nth (x ∷ xs) (suc i) = nth xs i

-- The fields of /proc/PID/stat behind the command's closing parenthesis.
unfoldable pub stat_fields : Text → Option (List Text)
stat_fields line = elim (after_last b')' line) [ none ↦ none | some rest ↦ some (fields rest) ]

-- Field 22, the start time in clock ticks, and its text.
unfoldable pub start_ticks : Text → Option (Text × ℕ)
unfolding stat_fields
start_ticks line = elim (stat_fields line) [
  | none ↦ none
  | some fs ↦ elim (nth fs 19) [
    | none ↦ none
    | some f ↦ elim (parse_nat f) [ none ↦ none | some n ↦ some (f, n) ]
  ]
]

-- A line of two fields, the first `btime`; a second field that is no number ends the search.
unfoldable pub btime_of : List Text → Option Text
btime_of (k ∷ v ∷ []) = if text_eq k (codes "btime") then some v else none
btime_of _ = none

unfoldable pub find_btime : List Text → Option Text
unfolding btime_of
find_btime [] = none
find_btime (l ∷ ls) =
    let rest = find_btime ls in elim (btime_of (fields l)) [ none ↦ rest | some v ↦ some v ]

unfoldable pub boot_time : Text → Option ℕ
unfolding find_btime
boot_time raw = elim (find_btime (split 10 raw)) [ none ↦ none | some v ↦ parse_nat v ]

-- `getconf CLK_TCK` runs once; 100 unless it prints a positive number.
unfoldable pub clock_ticks : Option Text → ℕ
clock_ticks none = 100
clock_ticks (some out) = elim (parse_nat (trim_space out)) [
  | none ↦ 100
  | some n ↦ if n == 0 then 100 else n
]

unfoldable pub start_time : (ticks boot hz : ℕ) → ℕ
start_time ticks boot hz = (epoch + boot + ticks / hz) * second + ticks % hz * second / hz

unfoldable pub token_of : Text → Text
token_of field = codes "linux:" ++ field

unfoldable pub is_dead_state : List Text → Bool
is_dead_state [] = false
is_dead_state (f ∷ fs) = text_eq f (codes "Z") || text_eq f (codes "X") || text_eq f (codes "x")

unfoldable pub dead_by : Option (List Text) → Bool
unfolding is_dead_state
dead_by none = false
dead_by (some fs) = is_dead_state fs

unfoldable pub plain_cmdline : Text → Text
plain_cmdline raw = replace_byte 0 32 (trim_right 0 raw)

module _ {D : Type 0} (h : Host) where
  identity_by : ℕ → Text → ℕ → Read → Action (World D h.Os) (ℕ × Text)
  identity_by pid field ticks absent = raise system_failed
  identity_by pid field ticks unreadable = raise system_failed
  identity_by pid field ticks (content raw) = elim (boot_time raw) [
    | none ↦ raise system_failed
    | some boot ↦ do
      let at = start_time ticks boot (clock_ticks h.getconf_clk_tck)
      note (identified pid at (token_of field))
      pure (at, token_of field)
  ]

  with_stat : ℕ → Read → Action (World D h.Os) (ℕ × Text)
  unfolding identity_by
  with_stat pid absent = raise system_failed
  with_stat pid unreadable = raise system_failed
  with_stat pid (content line) = elim (start_ticks line) [
    | none ↦ raise system_failed
    | some (field, ticks) ↦ do boot ← ask (h.read_file boot_stat); identity_by pid field ticks boot
  ]

  -- The start time and the token of a process.
  unfoldable pub process_start_info : ℕ → Action (World D h.Os) (ℕ × Text)
  unfolding with_stat
  process_start_info pid = do stat ← ask (h.read_file (proc_stat pid)); with_stat pid stat

  exited_by : Read → Action (World D h.Os) Bool
  exited_by (content line) = pure (dead_by (stat_fields line))
  exited_by absent = pure true
  exited_by unreadable = pure true

  -- Whether the process is gone or a zombie.
  unfoldable pub exited : ℕ → Action (World D h.Os) Bool
  unfolding exited_by
  exited pid = do stat ← ask (h.read_file (proc_stat pid)); exited_by stat

  ps_line : ℕ → Option Text → Action (World D h.Os) Text
  ps_line pid none = raise system_failed
  ps_line pid (some out) = do note (command_line pid (trim_space out)); pure (trim_space out)

  cmdline_by : ℕ → Read → Action (World D h.Os) Text
  unfolding ps_line
  cmdline_by pid (content raw) = do
    note (command_line pid (plain_cmdline raw))
    pure (plain_cmdline raw)
  cmdline_by pid absent = do out ← ask (h.ps_command pid); ps_line pid out
  cmdline_by pid unreadable = do out ← ask (h.ps_command pid); ps_line pid out

  -- The command line of a process, from /proc or else from ps.
  unfoldable pub cmdline : ℕ → Action (World D h.Os) Text
  unfolding cmdline_by
  cmdline pid = do raw ← ask (h.read_file (proc_cmdline pid)); cmdline_by pid raw
