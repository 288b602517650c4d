-- ===== src/State.antt =====
-- The package internal/state: the phases of a deployment and the table that keeps them.
pub mod Machine
pub mod Record
pub mod Columns
pub mod Schema
pub mod Database
pub mod Store
pub mod Open
