-- ===== src/Supervisor/Process/Facts.antt =====
-- Checking, finding, stopping and starting processes asks the system and leaves events in the trace:
-- an assertion that does not depend on those is kept.
use iold.Base.{ℕ}
use iold.Action.Keeps.{Keeps, keeps_rules, Keeps-bind, Keeps-raise, Keeps-pure, Keeps-if}
use iold.Host.{Host, process, group, probe}
use iold.World.{World}
use iold.Supervisor.Identity.Facts.{IsReading, process_start_info-Keeps, cmdline-Keeps}
use iold.Supervisor.Process.{Process, alive, process_group_alive, verify_owned, reconcile}

module _ {D : Type 0} (h : Host) (P : World D h.Os → Type 0) (q : IsReading h P) where
  pub alive-Keeps : (pid : ℕ) → Keeps P (alive h pid)
  unfolding alive
  alive-Keeps pid =
      Keeps-if _ _ _ (Keeps-pure _)
        (Keeps-bind _ _ (q.probes (process pid) probe) (λ e. Keeps-pure _))

  pub process_group_alive-Keeps : (pid : ℕ) → Keeps P (process_group_alive h pid)
  unfolding process_group_alive
  process_group_alive-Keeps pid =
      Keeps-if _ _ _ (Keeps-pure _)
        (Keeps-bind _ _ (q.probes (group pid) probe) (λ e. Keeps-pure _))

  pub verify_owned-Keeps : (p : Process) → Keeps P (verify_owned h p)
  unfolding verify_owned
  verify_owned-Keeps p = Keeps-bind _ _ (alive-Keeps p.pid) λ live. Keeps-if _ _ _ (Keeps-pure _) (
      Keeps-if _ _ _ (Keeps-raise _) (
        Keeps-bind _ _ (process_start_info-Keeps h P q p.pid) λ a.
          Keeps-if _ _ _ (Keeps-pure _)
            (Keeps-bind _ _ (cmdline-Keeps h P q p.pid) (λ c. Keeps-pure _))))

  pub reconcile-Keeps : (p : Process) → Keeps P (reconcile h p)
  unfolding reconcile
  reconcile-Keeps p = search (keeps_rules, alive-Keeps, verify_owned-Keeps)
