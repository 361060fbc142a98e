-- ===== src/Builder/Retry.antt =====
-- Bounded repair (src/builder/retry.js).
pub mod Second
pub mod Cap
pub mod Bounds
use jarvis_agencyos.Base.{
  ℕ, ◌+◌, ◌-◌, Bool, true, false, not, ◌&&◌, Option, none, some, List, [], ◌∷◌, Text, ◌==◌, leb,
  if◌then◌else◌, length, get_or,
}
use jarvis_agencyos.Exec.{
  pure, raise, gets, require_some, modify, require, when, if_some, ◌>>=◌, ◌>>◌,
}
use jarvis_agencyos.Builder.Contracts.{
  TaskStatus, RunStatus, FailureClass, EventType, Runtime, is_running_task,
}
use jarvis_agencyos.Builder.State.{Task, Run, Action, retry_record, run_change, unknown_task}
use jarvis_agencyos.Builder.Store.{get_task, update_run, list_runs_for_task, append_event}
use jarvis_agencyos.Builder.Runs.{
  set_current, drop_current, update_task_status, create_run, get_current_coding_run,
}

-- `!isRetryableFailureClass`
abbrev pub is_non_retryable : FailureClass → Bool
is_non_retryable FailureClass.acceptance_tamper = true
is_non_retryable FailureClass.policy_violation = true
is_non_retryable _ = false

-- The time that one run has taken; an end before the start counts nothing.
abbrev run_time : ℕ → Run → ℕ
run_time now r = elim r.started_at [ none ↦ 0 | some start ↦ get_or r.ended_at now - start ]

-- `elapsedRuntimeMsFromRuns`
unfoldable pub elapsed_runtime_ms : ℕ → List Run → ℕ
elapsed_runtime_ms now [] = 0
elapsed_runtime_ms now (r ∷ rs) = run_time now r + elapsed_runtime_ms now rs

-- Why a repair is refused.
pub data Refusal : Type 0 where
  non_retryable_failure_class attempt_cap runtime_cap : Refusal

pub data Repair : Type 0 where
  allowed : Run → ℕ → Repair
  refused : Refusal → TaskStatus → FailureClass → Repair

unfoldable pub end_run : ℕ → FailureClass → Run → Action Unit
end_run task_id failure current = when (current.task_id == task_id) do
  time ← gets (λ s. s.now)
  update_run current.factory_run_id (λ r. record r {
    status = RunStatus.failed;
    ended_at = some time;
    failure_class = some failure;
  })
  drop_current current.factory_run_id
  append_event (some task_id) (some current.factory_run_id) EventType.run_status_changed
      (run_change RunStatus.failed (some failure))

-- The active run of the same task ends as FAILED.
unfoldable pub close_current : ℕ → FailureClass → Option Run → Action Unit
close_current task_id failure found =
    if_some found (λ current. end_run task_id failure current) (pure tt)

module _ (env : Runtime) where
  unfoldable pub refuse :
      ℕ → Refusal → TaskStatus → EventType → ℕ → ℕ → FailureClass → FailureClass → Action Repair
  refuse task_id why stop event n cap recorded reported = do
    update_task_status env task_id stop
    append_event (some task_id) none event (retry_record n cap recorded)
    pure (refused why stop reported)

  unfoldable pub start_attempt : Task → ℕ → FailureClass → Text → ℕ → Action Repair
  start_attempt task task_id failure provider attempts = do
    current ← get_current_coding_run
    close_current task_id failure current
    fresh ← create_run env task_id provider none none none
    set_current (some fresh.factory_run_id)
    when (not (is_running_task task.status))
        do update_task_status env task_id TaskStatus.running; pure tt
    append_event (some task_id) (some fresh.factory_run_id) EventType.retry_started
        (retry_record attempts fresh.attempt failure)
    pure (allowed fresh attempts)

  -- `beginRepairAttempt`
  unfoldable pub begin_repair_attempt : ℕ → FailureClass → Text → Action Repair
  begin_repair_attempt task_id failure provider = do
    found ← get_task task_id
    task ← require_some found unknown_task
    if is_non_retryable failure
        then refuse task_id non_retryable_failure_class TaskStatus.blocked EventType.retry_denied 0
            0 failure failure
        else do
          runs ← list_runs_for_task task_id
          let attempts = length runs
          if leb task.max_attempts attempts
              then refuse task_id attempt_cap TaskStatus.needs_owner EventType.retry_exhausted
                  attempts task.max_attempts failure FailureClass.attempt_cap
              else do
                now ← gets (λ s. s.now)
                let elapsed = elapsed_runtime_ms now runs
                if leb task.max_runtime_ms elapsed
                    then refuse task_id runtime_cap TaskStatus.blocked EventType.retry_exhausted
                        elapsed task.max_runtime_ms FailureClass.timeout FailureClass.timeout
                    else start_attempt task task_id failure provider attempts
