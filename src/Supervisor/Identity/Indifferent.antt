-- ===== src/Supervisor/Identity/Indifferent.antt =====
-- Assertions that no call of the system, no event and no printed line can break, such as those about
-- the database alone.
use iold.Action.Keeps.{Keeps}
use iold.Host.{Host}
use iold.World.{World, Event, Line, ask, note, say}
use iold.Supervisor.Identity.Facts.{IsQuiet}

pub record IsIndifferent {D : Type 0} (h : Host) (P : World D h.Os → Type 0) : Type 1 where
  pub asks : (A : Type 0) (call : h.Os → A × h.Os) → Keeps P (ask {D = D} call)
  pub notes : (e : Event) → Keeps P (note {D = D} e)
  pub says : (l : Line) → Keeps P (say {D = D} l)

pub IsIndifferent-IsQuiet :
    {D : Type 0} (h : Host) (P : World D h.Os → Type 0) → IsIndifferent h P → IsQuiet h P
IsIndifferent-IsQuiet h P i = record { asks = i.asks; notes = λ e r. i.notes e }
