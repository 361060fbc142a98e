-- ===== src/Builder/Recovery.antt =====
-- Reconciliation after a restart (src/builder/recovery.js).
pub mod Pointer
pub mod Rows
pub mod Returns
pub mod Verdict
use jarvis_agencyos.Base.{
  ℕ, suc, Bool, true, false, not, ◌&&◌, ◌||◌, Option, none, some, List, [], ◌∷◌, Text, ◌==◌, ltb,
  if◌then◌else◌, is_some, same_id, first, select, map, length, any,
}
use jarvis_agencyos.Exec.{
  Result, ok, err, pure, raise, lift, gets, require_some, modify, require, when, for_each, if_some,
  on_result, ◌>>=◌, ◌>>◌,
}
use jarvis_agencyos.Builder.Contracts.{
  TaskStatus, RunStatus, ApprovalStatus, CandidateStatus, EventType, Manifest, Runtime, is_active,
  is_fenced,
}
use jarvis_agencyos.Builder.State.{
  Task, Run, Candidate, Verification, Review, Approval, Builder, Action, Error, BlockReason,
  RecoveryNote, recovered, blocked, recovery_record, more_active_runs, task_recovery_ambiguous,
  content_hash_mismatch, multiple_active_runs_for_task, multiple_verified_candidates,
  ambiguous_candidate, missing_verification_ref, missing_review_ref, multiple_approvals,
  multiple_active_runs, recovery_pointer_mismatch,
}
use jarvis_agencyos.Builder.Store.{
  get_verification, get_review, list_runs_for_task, list_active_runs, list_candidates_for_task,
  list_approvals_for_task, list_tasks, append_event,
}
use jarvis_agencyos.Builder.Lock.{verify_task_hash}
use jarvis_agencyos.Builder.Runs.{set_current, drop_current}
use jarvis_agencyos.Builder.Tools.{get_allowed_tool_manifest}
use jarvis_agencyos.Builder.Authority.{
  is_verified, is_verification_authoritative, is_review_authoritative,
}
use jarvis_agencyos.Builder.Candidates.{is_superseded, is_approved}
use jarvis_agencyos.Builder.CiWait.{Awaiting, newest_first, detect_awaiting_ci}

-- `TERMINAL_TASK_STATUSES`
abbrev pub is_terminal_task : TaskStatus → Bool
is_terminal_task TaskStatus.accepted = true
is_terminal_task TaskStatus.failed = true
is_terminal_task TaskStatus.cancelled = true
is_terminal_task _ = false

-- A value found, or the reason why there is no telling which.
pub data Current (A : Type 0) : Type 0 where
  current_of : Option A → Current A
  unclear : BlockReason → Current A

-- Of candidates without a verified one, the newest, unless two are the newest.
unfoldable pub newest : List Candidate → Current Candidate
newest [] = current_of none
newest (c ∷ []) = current_of (some c)
newest (c ∷ d ∷ cs) =
    if c.created_at == d.created_at then unclear ambiguous_candidate else current_of (some c)

unfoldable pub choose_verified : List Candidate → List Candidate → Current Candidate
unfolding newest newest_first
choose_verified live [] = newest (newest_first live)
choose_verified live (v ∷ []) = current_of (some v)
choose_verified live (v ∷ w ∷ vs) = unclear multiple_verified_candidates

unfoldable pub choose_candidate : List Candidate → Current Candidate
unfolding choose_verified
choose_candidate [] = current_of none
choose_candidate (c ∷ []) = current_of (some c)
choose_candidate (c ∷ d ∷ cs) =
    choose_verified (c ∷ d ∷ cs) (select (λ e. is_verified e.status) (c ∷ d ∷ cs))

-- `currentCandidateForTask`
unfoldable pub current_candidate_for_task : ℕ → Action (Current Candidate)
current_candidate_for_task task_id = do
  candidates ← list_candidates_for_task task_id
  pure (choose_candidate (select (λ c. not (is_superseded c.status)) candidates))

abbrev pub is_live_approval : ApprovalStatus → Bool
is_live_approval ApprovalStatus.invalidated = false
is_live_approval ApprovalStatus.rejected = false
is_live_approval _ = true

unfoldable pub choose_approved : Approval → List Approval → Current Approval
choose_approved a [] = current_of (some a)
choose_approved a (b ∷ []) = current_of (some b)
choose_approved a (b ∷ c ∷ cs) = unclear multiple_approvals

unfoldable pub choose_approval : List Approval → Current Approval
unfolding choose_approved
choose_approval [] = current_of none
choose_approval (a ∷ []) = current_of (some a)
choose_approval (a ∷ b ∷ rest) =
    choose_approved a (select (λ c. is_approved c.status) (a ∷ b ∷ rest))

-- `currentApprovalForTask`
unfoldable pub current_approval_for_task : ℕ → Action (Current Approval)
current_approval_for_task task_id = do
  approvals ← list_approvals_for_task task_id
  pure (choose_approval (select (λ a. is_live_approval a.status) approvals))

-- What is recovered of one task. `resume_without_worker_launch` is `awaiting_ci`, and the retry
-- policy is the task's own.
pub record Recovered : Type 0 where
  pub task : Task
  pub allowed_tool_manifest : Manifest
  pub active_run : Option Run
  pub runs : List Run
  pub candidate : Option Candidate
  pub verification : Option Verification
  pub verification_authoritative : Bool
  pub review : Option Review
  pub review_authoritative : Bool
  pub approval : Option Approval
  pub awaiting_ci : Bool
  pub attempts : ℕ

pub data TaskSnapshot : Type 0 where
  task_blocked : ℕ → BlockReason → TaskSnapshot
  task_recovered : Recovered → TaskSnapshot

-- A row that a candidate refers to: `none` where there is no reference, an error where there is no
-- row.
unfoldable pub referred :
    {A : Type 0} → Option ℕ → (ℕ → Action (Option A)) → BlockReason → Action (Current A)
referred none read why = pure (current_of none)
referred (some id) read why = do
  row ← read id
  if_some row (λ a. pure (current_of (some a))) (pure (unclear why))

-- The rest of a snapshot, unless the value before is unclear.
abbrev pub unless_unclear :
    {A : Type 0} → ℕ → Current A → (Option A → Action TaskSnapshot) → Action TaskSnapshot
unless_unclear task_id (unclear why) rest = pure (task_blocked task_id why)
unless_unclear task_id (current_of o) rest = rest o

abbrev ref_of : (Candidate → Option ℕ) → Option Candidate → Option ℕ
ref_of ref none = none
ref_of ref (some c) = ref c

abbrev authority_of : {A : Type 0} → (A → Bool) → Option A → Bool
authority_of test none = false
authority_of test (some a) = test a

-- The snapshot of a task whose runs, candidate and references are settled.
unfoldable pub settle_snapshot :
    Task
    → List Run
    → List Run
    → Option Candidate
    → Option Verification
    → Option Review
    → Option Approval
    → Action TaskSnapshot
settle_snapshot task runs active candidate verification review approval = do
  attempts ← list_runs_for_task task.task_id
  awaiting ← detect_awaiting_ci task.task_id
  verified ←
      gets (λ s. authority_of (λ v. is_verification_authoritative s v.verification_id) verification)
  reviewed ← gets (λ s. authority_of (λ r. is_review_authoritative s r.review_id) review)
  pure (
      task_recovered (record {
        task = task;
        allowed_tool_manifest = get_allowed_tool_manifest task;
        active_run = first active;
        runs = runs;
        candidate = candidate;
        verification = verification;
        verification_authoritative = verified;
        review = review;
        review_authoritative = reviewed;
        approval = approval;
        awaiting_ci = awaiting.awaiting_ci;
        attempts = length attempts;
      }))

-- The snapshot of a task with at most one active run.
unfoldable pub snapshot_rows : Task → List Run → List Run → Action TaskSnapshot
snapshot_rows task runs active = do
  found ← current_candidate_for_task task.task_id
  unless_unclear task.task_id found λ candidate. do
    verification ←
        referred (ref_of (λ c. c.verification_ref) candidate) get_verification
          missing_verification_ref
    unless_unclear task.task_id verification λ v. do
      review ← referred (ref_of (λ c. c.review_ref) candidate) get_review missing_review_ref
      unless_unclear task.task_id review λ r. do
        approval ← current_approval_for_task task.task_id
        unless_unclear task.task_id approval (settle_snapshot task runs active candidate v r)

module _ (env : Runtime) where
  -- `buildTaskRecoverySnapshot`
  unfoldable pub build_task_recovery_snapshot : Task → Action TaskSnapshot
  build_task_recovery_snapshot task =
      on_result (verify_task_hash env task)
        (λ _. do
          runs ← list_runs_for_task task.task_id
          let active = select (λ r. is_active r.status) runs
          if ltb 1 (length active)
              then pure (task_blocked task.task_id multiple_active_runs_for_task)
              else snapshot_rows task runs active)
        (λ e. pure (task_blocked task.task_id content_hash_mismatch))

  -- The snapshots of the tasks, one after the other.
  unfoldable pub build_snapshots : List Task → Action (List TaskSnapshot)
  build_snapshots [] = pure []
  build_snapshots (t ∷ ts) = do
    snapshot ← build_task_recovery_snapshot t
    rest ← build_snapshots ts
    pure (snapshot ∷ rest)

-- What a reconciliation answers; `active_runs` is empty but where they are too many.
pub record Reconciled : Type 0 where
  pub note : RecoveryNote
  pub provider_status : Option (Result Error Text)
  pub snapshots : List TaskSnapshot
  pub active_runs : List Run

-- The provider's word on the active run: a function that reads and may throw, if one is given.
abbrev pub Probe : Type 0
Probe = Option (Run → Result Error Text)

unfoldable pub provider_status_of : Probe → Option Run → Option (Result Error Text)
provider_status_of none o = none
provider_status_of (some probe) none = none
provider_status_of (some probe) (some r) =
    if is_some r.provider_run_id then some (probe r) else none

abbrev pub is_blocked_task : TaskSnapshot → Bool
is_blocked_task (task_blocked id why) = true
is_blocked_task (task_recovered r) = false

abbrev pub task_id_of : TaskSnapshot → ℕ
task_id_of (task_blocked id why) = id
task_id_of (task_recovered r) = r.task.task_id

-- `core._recovery = note`, after the event that says so.
unfoldable pub note_recovery : RecoveryNote → EventType → Option ℕ → List ℕ → Action Unit
note_recovery note event current task_ids = do
  append_event none none event (recovery_record current task_ids)
  modify (λ s. record s { recovery = some note })

-- A run that is STALE or CANCELLED is not the current one.
unfoldable pub fence_runs : ℕ → Action Unit
fence_runs task_id = do
  runs ← list_runs_for_task task_id
  for_each runs (λ r. when (is_fenced r.status) (drop_current r.factory_run_id))

abbrev pub nonterminal : List Task → List Task
nonterminal = select (λ t. not (is_terminal_task t.status))

abbrev pub id_of : Option Run → Option ℕ
id_of none = none
id_of (some r) = some r.factory_run_id

-- The end of a reconciliation: BLOCKED as soon as one task is.
unfoldable pub conclude : Option (Result Error Text) → List TaskSnapshot → Action Reconciled
conclude status snapshots = do
  held ← gets (λ s. s.current)
  let blocked_tasks = select is_blocked_task snapshots
  if is_some (first blocked_tasks)
      then (do
        note_recovery (blocked task_recovery_ambiguous) EventType.recovery_blocked none
            (map task_id_of blocked_tasks)
        pure (record {
          note = blocked task_recovery_ambiguous;
          provider_status = status;
          snapshots = snapshots;
          active_runs = [];
        }))
      else do
        note_recovery (recovered held) EventType.recovery_reconciled held (map task_id_of snapshots)
        pure (record {
          note = recovered held;
          provider_status = status;
          snapshots = snapshots;
          active_runs = [];
        })

-- More than one active run: nothing is current.
unfoldable pub block_active : List Run → Action Reconciled
block_active active = do
  append_event none none EventType.recovery_blocked (recovery_record none [])
  set_current none
  modify (λ s. record s { recovery = some (blocked more_active_runs) })
  pure (record {
    note = blocked more_active_runs;
    provider_status = none;
    snapshots = [];
    active_runs = active;
  })

module _ (env : Runtime) where
  -- `reconcileAfterRestart`
  unfoldable pub reconcile_after_restart : Probe → Action Reconciled
  reconcile_after_restart probe = do
    active ← list_active_runs
    if ltb 1 (length active) then block_active active else do
      set_current (id_of (first active))
      let status = provider_status_of probe (first active)
      all_tasks ← list_tasks
      let tasks = nonterminal all_tasks
      snapshots ← build_snapshots env tasks
      for_each tasks (λ t. fence_runs t.task_id)
      conclude status snapshots

abbrev pub points_to : Option ℕ → List Run → Bool
points_to held [] = true
points_to held (r ∷ rs) = same_id held (some r.factory_run_id)

-- `assertNoDuplicateLaunchAfterRecovery`
unfoldable pub assert_no_duplicate_launch_after_recovery : Action Bool
assert_no_duplicate_launch_after_recovery = do
  active ← list_active_runs
  require (not (ltb 1 (length active))) multiple_active_runs
  held ← gets (λ s. s.current)
  require (points_to held active) recovery_pointer_mismatch
  pure true
