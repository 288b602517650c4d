-- ===== src/Supervisor.antt =====
-- The package internal/supervisor: identity of processes, their start and stop, and free ports.
pub mod Identity
pub mod Process
pub mod Intent
pub mod Stop
pub mod Ports
pub mod Start
