-- ===== src/Example.antt =====
-- A database of one row and a quiet host, on which the operations run, and runs of the theorems there.
pub mod Table
pub mod Values
pub mod Machine
pub mod Runs
pub mod Live
pub mod Planning
pub mod Sessions
