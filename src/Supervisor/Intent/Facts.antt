-- ===== src/Supervisor/Intent/Facts.antt =====
-- Looking for a process by its command only reads.
use iold.Base.{ℕ, Option, none, some, List, [], ◌∷◌, Text}
use iold.Action.Keeps.{Keeps, Keeps-bind, Keeps-raise, Keeps-pure, Keeps-if, Keeps-attempt}
use iold.Host.{Host}
use iold.World.{World}
use iold.Supervisor.Identity.Facts.{IsQuiet-IsReading, IsQuiet, process_start_info-Keeps}
use iold.Supervisor.Intent.{candidate, scan_lines, by_listing, find_by_command}

module _ {D : Type 0} (h : Host) (P : World D h.Os → Type 0) (q : IsQuiet h P) where
  candidate-Keeps :
      (want : Text) (not_before : ℕ) (o : Option (ℕ × Text))
      → Keeps P (candidate h want not_before o)
  unfolding candidate
  candidate-Keeps want not_before none = Keeps-pure _
  candidate-Keeps want not_before (some (pid, current)) = Keeps-if _ _ _ (Keeps-pure _) (
      Keeps-bind _ _ (Keeps-attempt _ (process_start_info-Keeps h P (IsQuiet-IsReading h P q) pid))
        (λ info. Keeps-pure _))

  scan_lines-Keeps :
      (want : Text) (not_before : ℕ) (ls : List Text) → Keeps P (scan_lines h want not_before ls)
  unfolding scan_lines
  scan_lines-Keeps want not_before [] = Keeps-pure _
  scan_lines-Keeps want not_before (l ∷ ls) =
      Keeps-bind _ _ (candidate-Keeps want not_before _)
        λ here. Keeps-bind _ _ (scan_lines-Keeps want not_before ls) (λ rest. Keeps-pure _)

  by_listing-Keeps :
      (c : Text) (not_before : ℕ) (o : Option Text) → Keeps P (by_listing h c not_before o)
  unfolding by_listing
  by_listing-Keeps c not_before none = Keeps-raise _
  by_listing-Keeps c not_before (some out) = scan_lines-Keeps _ not_before _

  pub find_by_command-Keeps : (c : Text) (not_before : ℕ) → Keeps P (find_by_command h c not_before)
  unfolding find_by_command
  find_by_command-Keeps c not_before =
      Keeps-bind _ _ (q.asks (Option Text) h.ps_all) (λ o. by_listing-Keeps c not_before o)
