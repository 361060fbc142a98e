-- ===== src/Builder/State.antt =====
-- Builder Core's durable rows (src/builder/store-mappers.js, src/builder/schema.sql) and the fields
-- of the `BuilderCore` object. Not kept: evidence, error texts and JSON copies of other columns,
-- which no modelled operation reads.
use jarvis_agencyos.Base.{ℕ, ℤ, Option, none, List, [], Text}
use jarvis_agencyos.Exec.{Exec}
use jarvis_agencyos.Builder.Contracts.{
  TaskStatus, RunStatus, ApprovalStatus, CandidateStatus, FailureClass, EventType,
  VerificationResult, ReviewStatus, ProviderStatus, Terms,
}

-- The fields that `IMMUTABLE_WHEN_LOCKED` names (src/builder/task-lock.js).
pub record FinishLine : Type 0 where
  pub terms : Terms
  pub open terms use *
  pub max_attempts : ℕ
  pub max_runtime_ms : ℕ
  pub cost_budget_status : Text
  pub proposal_id : Option ℕ
  pub content_hash : Option ℕ

pub record Task : Type 0 where
  pub task_id : ℕ
  pub logical_work_id : Option ℕ
  pub line : FinishLine
  pub open line use *
  pub status : TaskStatus
  pub priority : ℤ
  pub locked_at : Option ℕ
  pub created_at : ℕ
  pub updated_at : ℕ

pub record Run : Type 0 where
  pub factory_run_id : ℕ
  pub task_id : ℕ
  pub provider : Text
  pub provider_run_id : Option ℕ
  pub provider_agent_id : Option ℕ
  pub attempt : ℕ
  pub status : RunStatus
  pub started_at : Option ℕ
  pub ended_at : Option ℕ
  pub failure_class : Option FailureClass
  pub created_at : ℕ

pub record Candidate : Type 0 where
  pub candidate_id : ℕ
  pub task_id : ℕ
  pub factory_run_id : ℕ
  pub provider_run_id : Option ℕ
  pub branch : Option Text
  pub commit_sha : Option Text
  pub pr_number : Option ℕ
  pub pr_url : Option Text
  pub verification_ref : Option ℕ
  pub review_ref : Option ℕ
  pub ci_status : Option Text
  pub ci_conclusion : Option Text
  pub evidence_at : Option ℕ
  pub status : CandidateStatus
  pub created_at : ℕ

-- The `landing_evidence_snapshot` among a verification's checks.
pub record Snapshot : Type 0 where
  pub commit_sha : Text
  pub branch : Text
  pub pr_number : ℕ
  pub ci_status : Text
  pub ci_conclusion : Option Text

pub record Verification : Type 0 where
  pub verification_id : ℕ
  pub candidate_id : ℕ
  pub commit_sha : Text
  pub result : VerificationResult
  pub snapshot : Option Snapshot
  pub failure_class : Option FailureClass
  pub created_at : ℕ
  pub invalidated_at : Option ℕ

-- `verification_ref` is the verification in the review's evidence.
pub record Review : Type 0 where
  pub review_id : ℕ
  pub candidate_id : ℕ
  pub commit_sha : Text
  pub review_status : ReviewStatus
  pub verification_ref : Option ℕ
  pub reviewed_at : ℕ
  pub invalidated_at : Option ℕ

pub record Approval : Type 0 where
  pub approval_id : ℕ
  pub task_id : ℕ
  pub proposal_id : ℕ
  pub content_hash : ℕ
  pub candidate_id : Option ℕ
  pub commit_sha : Option Text
  pub approved_by : Text
  pub approved_at : ℕ
  pub status : ApprovalStatus

pub record Lease : Type 0 where
  pub lease_key : Text
  pub owner : Text
  pub task_id : Option ℕ
  pub factory_run_id : Option ℕ
  pub acquired_at : ℕ

-- What an event's payload says, as far as it is made of values of the model.
pub data Payload : Type 0 where
  no_payload : Payload
  task_change : TaskStatus → TaskStatus → Payload
  run_change : RunStatus → Option FailureClass → Payload
  lock_record : ℕ → ℕ → Payload
  run_record : ℕ → Text → Payload
  superseded_by : Option ℕ → Payload
  provider_record : ProviderStatus → RunStatus → Payload
  retry_record : ℕ → ℕ → FailureClass → Payload
  row_record : ℕ → Payload
  ci_record : ℕ → Text → ℕ → Payload
  recovery_record : Option ℕ → List ℕ → Payload
  tool_record : Option Text → Option Text → FailureClass → Payload

pub record Event : Type 0 where
  pub task_id : Option ℕ
  pub factory_run_id : Option ℕ
  pub event_type : EventType
  pub payload : Payload
  pub timestamp : ℕ

-- Why a task, or the whole recovery, is blocked after a restart.
pub data BlockReason : Type 0 where
  more_active_runs task_recovery_ambiguous : BlockReason
  content_hash_mismatch multiple_active_runs_for_task multiple_verified_candidates
        ambiguous_candidate missing_verification_ref missing_review_ref multiple_approvals :
      BlockReason

-- What the object keeps of its last recovery: the current run, or the reason of a block.
pub data RecoveryNote : Type 0 where
  recovered : Option ℕ → RecoveryNote
  blocked : BlockReason → RecoveryNote

-- The store's tables, oldest row first, and the object's own fields: `current` is
-- `_currentFactoryRunId`, `recovery` is `_recovery`. `next_id` counts the identifiers drawn (`randomUUID` never repeats one),
-- `now` is the clock, which stands still during one step.
pub record Builder : Type 0 where
  pub tasks : List Task
  pub runs : List Run
  pub candidates : List Candidate
  pub verifications : List Verification
  pub reviews : List Review
  pub approvals : List Approval
  pub events : List Event
  pub leases : List Lease
  pub current : Option ℕ
  pub recovery : Option RecoveryNote
  pub next_id : ℕ
  pub now : ℕ

-- What is thrown: the `TaskLockError`s by their reason, the other errors by their code.
pub data Error : Type 0 where
  unknown_task draft_not_locked not_draft immutable_field not_locked hash_mismatch foreign_run
        invalid_intent unlocked_draft :
      Error
  active_worker_exists unknown_run multiple_active_runs stale_run no_provider unauthorized_tool
        factory_run_mismatch invalid_run_status already_dispatching missing_provider_mapping
        missing_branch unknown_candidate missing_pr sha_mismatch pr_sha_mismatch pr_branch_mismatch
        recovery_pointer_mismatch authority_violation :
      Error
  provider_unavailable provider_fallback_ambiguous research_authority_violation invoke_missing :
      Error
  invalid_provider invalid_result provider_authority_violation provider_failure : Error
  invalid_commit_sha unknown_row unknown_verification unknown_review missing_sha
        candidate_ineligible missing_run :
      Error
  unique_violation foreign_key_violation check_violation unbound_parameter type_error : Error
  github_required invalid_ci_poll invalid_ci_timeout ci_sha_mismatch gh_cli_failed : Error
  missing_landing missing_landing_sha worker_timeout ci_head_changed ci_pr_mismatch
        codex_unavailable not_awaiting_ci out_of_fuel :
      Error
  verifier_required_first reviewer_mutation_forbidden : Error

abbrev pub Action : Type 0 → Type 0
Action A = Exec Builder Error A

abbrev pub empty : Builder
empty = record {
  tasks = [];
  runs = [];
  candidates = [];
  verifications = [];
  reviews = [];
  approvals = [];
  events = [];
  leases = [];
  current = none;
  recovery = none;
  next_id = 0;
  now = 0;
}
