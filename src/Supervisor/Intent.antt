-- ===== src/Supervisor/Intent.antt =====
-- `FindByCommand` and `matchesCommandIntent` of internal/supervisor/supervisor.go: which process may
-- be adopted for a launch whose process was never recorded.
pub mod Facts
use iold.Base.{
  ℕ, zero, suc, ◌+◌, ◌-◌, ◌<◌, ◌≡◌, refl, ◌&&◌, ◌||◌, ◌==◌, ltb, Bool, true, false, List, [], ◌∷◌,
  ◌++◌, Text, codes, text_eq, text_eq_iff, is_empty, has_prefix, fields, join_words, split,
  trim_space, trim_right, parse_nat, not, Option, none, some, length, arith, if◌then◌else◌, ◌↔◌,
  ◌⊎◌, inl, inr, Memᴰ,
}
use iold.Fault.{Fault, Result, ok, err, system_failed}
use iold.Action.{Action, pure, raise, attempt, catch, ◌>>=◌, ◌>>◌}
use iold.Host.{Host}
use iold.World.{World, ask}
use iold.Supervisor.Identity.{process_start_info}
use iold.Supervisor.Process.{Process, normalize}

-- `slices.Equal`.
unfoldable pub same_args : List Text → List Text → Bool
same_args [] [] = true
same_args (x ∷ xs) (y ∷ ys) = text_eq x y && same_args xs ys
same_args _ _ = false

-- What stands behind the last slash.
unfoldable pub base_from : Text → Text → Text
base_from seen [] = seen
base_from seen (c ∷ s) = base_from (if c == b'/' then s else seen) s

-- `filepath.Base`: "." for "", and "/" for slashes alone.
unfoldable pub base_name : Text → Text
unfolding base_from
base_name s =
    let t = trim_right b'/' s in
    if is_empty s then codes "." else if is_empty t then codes "/" else base_from t t

unfoldable pub is_python_interpreter : Text → Bool
is_python_interpreter command =
    let base = base_name command in
    text_eq base (codes "python")
    || text_eq base (codes "python3")
    || has_prefix base (codes "python3.")

-- `python /path/to/ENTRY args` for `ENTRY args`, behind the interpreter `c`.
by_interpreter : Text → List Text → Text → List Text → Bool
by_interpreter c [] i is = false
by_interpreter c (entry ∷ cs) i is =
    length cs == length is
    && is_python_interpreter c
    && text_eq (base_name entry) (base_name i)
    && same_args cs is

unfoldable pub matches_args : List Text → List Text → Bool
unfolding by_interpreter
matches_args [] is = false
matches_args (c ∷ cs) [] = false
matches_args (c ∷ cs) (i ∷ is) =
    same_args (c ∷ cs) (i ∷ is)
    || (text_eq (base_name c) (base_name i) && same_args cs is)
    || by_interpreter c cs i is

unfoldable pub matches_command_intent : Text → Text → Bool
matches_command_intent current intent = matches_args (fields current) (fields intent)

-- `strings.TrimPrefix(line, prefix)` for a prefix that the line has.
abbrev strip : Text → Text → Text
strip s [] = s
strip [] (p ∷ ps) = []
strip (c ∷ s) (p ∷ ps) = strip s ps

abbrev is_none : List Text → Bool
is_none [] = true
is_none (x ∷ xs) = false

-- A line of `ps`, with its process: the PID is the first field, and the command what follows.
process_line : ℕ → Text → Option (ℕ × Text)
process_line self raw =
    let line = trim_space raw in
    elim (fields line) [
      | [] ↦ none
      | first ∷ more ↦ if is_none more then none else elim (parse_nat first) [
        | none ↦ none
        | some pid ↦ if pid == self then none else some (pid, trim_space (strip line first))
      ]
    ]

-- The process of a line whose command agrees, if it started no more than 2s before the bound.
adopted : ℕ → Text → ℕ → Result (ℕ × Text) → List Process
adopted pid current not_before (err f) = []
adopted pid current not_before (ok (at, token)) =
    if ltb at (not_before - 2000000000)
    then []
    else record {
      pid = pid;
      command = normalize current;
      log_path = [];
      started_at = at;
      start_token = token;
    }
      ∷ []

module _ {D : Type 0} (h : Host) where
  candidate : Text → ℕ → Option (ℕ × Text) → Action (World D h.Os) (List Process)
  unfolding adopted
  candidate want not_before none = pure []
  candidate want not_before (some (pid, current)) =
      if not (matches_command_intent (normalize current) want)
      then pure []
      else do info ← attempt (process_start_info h pid); pure (adopted pid current not_before info)

  unfoldable pub scan_lines : Text → ℕ → List Text → Action (World D h.Os) (List Process)
  unfolding candidate process_line
  scan_lines want not_before [] = pure []
  scan_lines want not_before (line ∷ lines) = do
    here ← candidate want not_before (process_line h.getpid line)
    rest ← scan_lines want not_before lines
    pure (here ++ rest)

  by_listing : Text → ℕ → Option Text → Action (World D h.Os) (List Process)
  unfolding scan_lines
  by_listing command not_before none = raise system_failed
  by_listing command not_before (some out) =
      scan_lines (normalize command) not_before (split 10 out)

  unfoldable pub find_by_command : Text → ℕ → Action (World D h.Os) (List Process)
  unfolding by_listing
  find_by_command command not_before = do out ← ask h.ps_all; by_listing command not_before out
