-- ===== src/Examples.antt =====
-- Runs of the modelled program on concrete inputs.
mod Data
pub mod Tasks
pub mod Runs
pub mod Verdicts
pub mod Commits
pub mod Approvals
pub mod Leases
pub mod Waits
pub mod Recoveries
pub mod Orchestrations
pub mod Capabilities
pub mod Ticks
