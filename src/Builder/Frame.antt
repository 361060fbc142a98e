-- ===== src/Builder/Frame.antt =====
-- Which tables an operation leaves alone: rules by which an invariant of one table is kept by every
-- operation that does not write to it.
pub mod Tasks
pub mod TaskRuns
pub mod TaskRows
pub mod TaskStatuses
pub mod TaskWaits
pub mod TaskLeases
pub mod TaskReviews
pub mod TaskOrchestrations
pub mod TaskCandidates
pub mod Runs
pub mod Candidates
pub mod CandidateRows
pub mod CandidateTargets
