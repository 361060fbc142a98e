-- ===== src/Builder.antt =====
-- Builder Core: the trusted authority over software work (src/builder).
pub mod Contracts
pub mod State
pub mod Store
pub mod Lock
pub mod Leases
pub mod Patch
pub mod Runs
pub mod Provider
pub mod Tools
pub mod Workers
pub mod Retry
pub mod Frame
pub mod Authority
pub mod Candidates
pub mod Review
pub mod Checks
pub mod Landing
pub mod CiWait
pub mod Recovery
pub mod Landed
pub mod Orchestrator
pub mod Tick
pub mod Verifier
pub mod FinishLine
pub mod Acceptance
pub mod Calls
