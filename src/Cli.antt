-- ===== src/Cli.antt =====
-- The package internal/cli: deployment names and paths, recovery, destruction and deployment.
pub mod Names
pub mod Args
pub mod Session
pub mod Paths
pub mod Data
pub mod Recover
pub mod Destroy
pub mod Deploy
pub mod Commands
pub mod Plan
pub mod Main
pub mod Lives
pub mod Signals
