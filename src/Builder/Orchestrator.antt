-- ===== src/Builder/Orchestrator.antt =====
-- One owner task from its lock to a decision (`runOwnerSoftwareTask`, src/builder/orchestrator.js).
pub mod Decisions
pub mod Status
pub mod Verdicts
pub mod Asked
pub mod Judged
pub mod Done
use jarvis_agencyos.Base.{
  ℕ, zero, suc, Bool, true, false, not, ◌&&◌, Option, none, some, Text, codes, ◌==◌, if◌then◌else◌,
  is_some, get_or,
}
use jarvis_agencyos.Exec.{
  Result, ok, err, pure, require_some, require, catch, when, if_some, on_result, ◌>>=◌, ◌>>◌,
}
use jarvis_agencyos.Builder.Contracts.{
  TaskStatus, RunStatus, FailureClass, VerificationResult, EventType, Runtime, is_fenced,
  is_pending,
}
use jarvis_agencyos.Builder.State.{
  Task, Run, Verification, Action, Error, no_payload, no_provider, type_error, codex_unavailable,
}
use jarvis_agencyos.Builder.Store.{get_task, get_run, append_event}
use jarvis_agencyos.Builder.Lock.{OwnerIntent, create_and_lock_task}
use jarvis_agencyos.Builder.Runs.{update_task_status, get_current_coding_run}
use jarvis_agencyos.Builder.Workers.{
  Answer, launch_coding_worker, launch_coding_worker_on_run, collect_coding_worker,
}
use jarvis_agencyos.Builder.Retry.{Repair, allowed, refused, begin_repair_attempt}
use jarvis_agencyos.Builder.Review.Exact.{
  Invoker, Reviewed, is_blocked, is_request, review_exact_candidate,
}
use jarvis_agencyos.Builder.Landed.{
  WorkerLanding, Surround, Verified, wait_for_worker_terminal, register_and_verify,
}

-- `ORCHESTRATION_DECISION`
pub data OrchestrationDecision : Type 0 where
  done retry blocked needs_owner : OrchestrationDecision

-- What the world answers during one cycle: to the launch, for each run it may be asked for; to the
-- polls, for as many as the time allows; to the collection, with the landing in its evidence; and
-- during registration, verification and review.
pub record Cycle : Type 0 where
  pub launch : ℕ → Answer
  pub polls : ℕ
  pub answers : ℕ → Answer
  pub collect : Answer
  pub landing : WorkerLanding
  pub surround : Surround
  pub invoker : Invoker

-- The identifiers that the last cycle reached.
pub record Last : Type 0 where
  pub factory_run_id : Option ℕ
  pub candidate_id : Option ℕ
  pub commit_sha : Option Text

-- The answer of the orchestration, as far as it is not a copy of rows.
pub record Outcome : Type 0 where
  pub decision : OrchestrationDecision
  pub task_status : TaskStatus
  pub last : Last

pub data CycleEnd : Type 0 where
  ended : Outcome → CycleEnd
  continues : Last → CycleEnd

-- `finalize`
unfoldable pub finalize : ℕ → OrchestrationDecision → Last → Action Outcome
finalize task_id decision last = do
  found ← get_task task_id
  task ← require_some found type_error
  append_event (some task_id) last.factory_run_id EventType.orchestration_decided no_payload
  pure (record { decision = decision; task_status = task.status; last = last })

-- `decideAfterGates`; the gate and the review are there after a PASS only.
abbrev pub decide_gate : Bool → Option Reviewed → OrchestrationDecision × Option FailureClass
decide_gate required none = if required then (blocked, some FailureClass.unknown) else (done, none)
decide_gate required (some r) =
    if required && not r.gate.allowed
    then (if is_request r.review.review_status
        then (retry, some FailureClass.test_fail)
        else (blocked, some FailureClass.unknown))
    else (done, none)

abbrev failure_of : Option Verification → FailureClass
failure_of none = FailureClass.test_fail
failure_of (some v) = get_or v.failure_class FailureClass.test_fail

unfoldable pub decide_after_gates :
    Bool → Verified → Option Reviewed → OrchestrationDecision × Option FailureClass
decide_after_gates required verified reviewed = elim verified.result [
  | VerificationResult.pass ↦ decide_gate required reviewed
  | VerificationResult.fail ↦ (retry, some (failure_of verified.verification))
  | VerificationResult.blocked ↦ (blocked, some FailureClass.unknown)
]

abbrev pub is_needs_owner : TaskStatus → Bool
is_needs_owner TaskStatus.needs_owner = true
is_needs_owner _ = false

abbrev pub is_failed_run : RunStatus → Bool
is_failed_run RunStatus.failed = true
is_failed_run RunStatus.cancelled = true
is_failed_run RunStatus.stale = true
is_failed_run _ = false

abbrev pub passes : VerificationResult → Bool
passes VerificationResult.pass = true
passes _ = false

-- What a block returned or threw, for the code behind its `catch`.
unfoldable pub attempt : {A : Type 0} → Action A → Action (Result Error A)
attempt m = catch (m >>= λ a. pure (ok a)) (λ e. pure (err e))

abbrev pub row_of : Action (Option Task) → Action Task
row_of read = read >>= λ found. require_some found type_error

abbrev verification_id_of : Option Verification → Option ℕ
verification_id_of none = none
verification_id_of (some v) = some v.verification_id

-- The current run is this task's and waits for its launch.
abbrev relaunches : ℕ → Option Run → Option Run
relaunches task_id none = none
relaunches task_id (some r) = if is_pending r.status && (r.task_id == task_id) then some r else none

-- A repair is begun by `cursor` unless a provider is named.
abbrev pub repair_provider : Text
repair_provider = codes "cursor"

module _ (env : Runtime) (provider : Option Text) (task_id : ℕ) where
  -- What a repair leaves: the next cycle, or the end of the orchestration.
  unfoldable pub after_repair : Last → Repair → Action CycleEnd
  after_repair last (allowed run n) = pure (continues last)
  after_repair last (refused why stop class) = do
    outcome ← finalize task_id (if is_needs_owner stop then needs_owner else blocked) last
    pure (ended outcome)

  unfoldable pub repair_or_stop : Last → FailureClass → Action CycleEnd
  repair_or_stop last failure = do
    repair ← begin_repair_attempt env task_id failure repair_provider
    after_repair last repair

  unfoldable pub stop_blocked : Last → Action CycleEnd
  stop_blocked last = do outcome ← finalize task_id blocked last; pure (ended outcome)

  -- `maybeReview`
  unfoldable pub maybe_review : Task → Verified → Invoker → Action Reviewed
  maybe_review task verified invoker =
      let presented = some (verification_id_of verified.verification) in
      if not task.review_required
      then review_exact_candidate env verified.candidate.candidate_id none presented
      else (require (is_some invoker) codex_unavailable
          >> review_exact_candidate env verified.candidate.candidate_id invoker presented)

  -- The decision is carried out.
  unfoldable pub act : Last → OrchestrationDecision × Option FailureClass → Action CycleEnd
  act last (done, failure) = do
    update_task_status env task_id TaskStatus.accepted
    outcome ← finalize task_id done last
    pure (ended outcome)
  act last (retry, failure) = repair_or_stop last (get_or failure FailureClass.test_fail)
  act last (needs_owner, failure) = repair_or_stop last (get_or failure FailureClass.test_fail)
  act last (blocked, failure) = do
    task ← row_of (get_task task_id)
    when (not (is_blocked task.status))
        (update_task_status env task_id TaskStatus.blocked >> pure tt)
    stop_blocked last

  unfoldable pub decide_and_act : Last → Verified → Option Reviewed → Action CycleEnd
  decide_and_act last verified reviewed = do
    task ← row_of (get_task task_id)
    act last (decide_after_gates task.review_required verified reviewed)

  -- After the verdict: a review behind a PASS, and the decision.
  unfoldable pub review_and_decide : Last → Verified → Invoker → Action CycleEnd
  review_and_decide last verified invoker =
      if not (passes verified.result) then decide_and_act last verified none else do
        reviewed ←
            attempt (row_of (get_task task_id) >>= λ task. maybe_review task verified invoker)
        on_result reviewed (λ r. decide_and_act last verified (some r)) (λ e. stop_blocked last)

  -- After the collection: registration and verdict, unless the run was fenced meanwhile.
  unfoldable pub verify_and_decide : Last → ℕ → Cycle → Action CycleEnd
  verify_and_decide last run_id cycle = do
    row ← get_run run_id
    run ← require_some row type_error
    if is_fenced run.status then stop_blocked last else do
      verified ← attempt (
          row_of (get_task task_id) >>= λ task.
          register_and_verify env task run cycle.surround cycle.landing)
      on_result verified
          (λ v.
            review_and_decide
              (record last {
                candidate_id = some v.candidate.candidate_id;
                commit_sha = v.candidate.commit_sha;
              })
              v cycle.invoker)
          (λ e. repair_or_stop last FailureClass.ci_fail)

  unfoldable pub launch_worker : (ℕ → Answer) → Action Run
  launch_worker launch = do
    current ← get_current_coding_run
    if_some (relaunches task_id current)
        (λ r. launch_coding_worker_on_run env provider r.factory_run_id launch)
        (launch_coding_worker env provider task_id launch)

  -- The worker's end: a failure is repaired, a success is collected and verified.
  unfoldable pub after_worker : Last → ℕ → Cycle → Run → Action CycleEnd
  after_worker last run_id cycle terminal =
      if is_failed_run terminal.status
      then repair_or_stop last (get_or terminal.failure_class FailureClass.worker_crash)
      else (collect_coding_worker provider run_id cycle.collect
          >> verify_and_decide last run_id cycle)

  -- One round of the loop.
  unfoldable pub run_cycle : Last → Cycle → Action CycleEnd
  run_cycle last cycle = do
    row_of (get_task task_id)
    launched ← launch_worker cycle.launch
    let now_last = record last { factory_run_id = some launched.factory_run_id }
    if not (is_some launched.provider_run_id) then stop_blocked now_last else do
      terminal ←
          attempt
            (wait_for_worker_terminal cycle.polls provider launched.factory_run_id cycle.answers)
      on_result terminal (after_worker now_last launched.factory_run_id cycle)
          (λ e. repair_or_stop now_last FailureClass.timeout)

  abbrev pub go_on : (Last → Action Outcome) → CycleEnd → Action Outcome
  go_on rest (ended outcome) = pure outcome
  go_on rest (continues last) = rest last

  -- `while (attempt < cycleCap)`; the cycles are counted down.
  unfoldable pub run_cycles : ℕ → (ℕ → Cycle) → Last → Action Outcome
  run_cycles zero cycles last = do
    update_task_status env task_id TaskStatus.needs_owner
    finalize task_id needs_owner last
  run_cycles (suc left) cycles last =
      let rest = run_cycles left cycles in run_cycle last (cycles left) >>= go_on rest

abbrev pub no_last : Last
no_last = record { factory_run_id = none; candidate_id = none; commit_sha = none }

-- `runOwnerSoftwareTask`
unfoldable pub run_owner_software_task :
    Runtime → Option Text → OwnerIntent → Option ℕ → (ℕ → Cycle) → Action Outcome
run_owner_software_task env provider intent max_cycles cycles = do
  require (is_some provider) no_provider
  task ← create_and_lock_task env intent
  append_event (some task.task_id) none EventType.orchestration_started no_payload
  run_cycles env provider task.task_id (get_or max_cycles task.max_attempts) cycles no_last
