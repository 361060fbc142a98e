-- ===== src/Builder/Runs.antt =====
-- Task status changes, runs and the current run (src/builder/core.js).
pub mod Keys
pub mod Exclusive
use jarvis_agencyos.Base.{
  ℕ, suc, ◌+◌, Bool, true, false, not, ◌&&◌, ◌||◌, Option, none, some, List, [], ◌∷◌, Text, ◌==◌,
  if◌then◌else◌, same_id, is_some, get_or, length,
}
use jarvis_agencyos.Exec.{
  ok, err, pure, raise, lift, gets, require_some, modify, require, when, catch, if_some, ◌>>=◌,
  ◌>>◌,
}
use jarvis_agencyos.Builder.Contracts.{
  TaskStatus, RunStatus, FailureClass, EventType, Runtime, is_draft, is_locked, is_active, is_stale,
}
use jarvis_agencyos.Builder.State.{
  Task, Run, Builder, Action, Error, task_change, run_change, run_record, superseded_by,
  unknown_task, not_locked, draft_not_locked, unlocked_draft, unknown_run, multiple_active_runs,
  stale_run, unique_violation, active_worker_exists,
}
use jarvis_agencyos.Builder.Store.{
  new_id, get_task, get_run, update_task, insert_run, update_run, list_runs_for_task,
  list_active_runs, append_event, find_run,
}
use jarvis_agencyos.Builder.Lock.{verify_task_hash}

unfoldable pub set_current : Option ℕ → Action Unit
set_current c = modify (λ s. record s { current = c })

-- `if (this._currentFactoryRunId === id) this._currentFactoryRunId = null`
unfoldable pub drop_current : ℕ → Action Unit
drop_current id =
    modify λ s. record s { current = if same_id s.current (some id) then none else s.current }

-- `isUniqueViolation(err)`
abbrev as_active_worker : Error → Error
as_active_worker unique_violation = active_worker_exists
as_active_worker e = e

-- The row of a new run.
abbrev pub pending_run : ℕ → ℕ → Text → Option ℕ → Option ℕ → ℕ → ℕ → Run
pending_run id task_id provider provider_run_id provider_agent_id attempt time = record {
  factory_run_id = id;
  task_id = task_id;
  provider = provider;
  provider_run_id = provider_run_id;
  provider_agent_id = provider_agent_id;
  attempt = attempt;
  status = RunStatus.pending;
  started_at = none;
  ended_at = none;
  failure_class = none;
  created_at = time;
}

module _ (env : Runtime) where
  -- `updateTaskStatus`
  unfoldable pub update_task_status : ℕ → TaskStatus → Action Task
  update_task_status id status = do
    found ← get_task id
    task ← require_some found unknown_task
    require (not (is_draft task.status && not (is_locked status))) draft_not_locked
    lift (verify_task_hash env task)
    updated ← update_task id (λ t. record t { status = status })
    append_event (some id) none EventType.task_status_changed (task_change task.status status)
    pure updated

  unfoldable pub verify_locked_task : ℕ → Action Task
  verify_locked_task id = do
    found ← get_task id
    task ← require_some found not_locked
    lift (verify_task_hash env task)
    pure task

  -- `createRun`. The identifier is fresh, so the unique index that an insertion can break is the one
  -- on (task, attempt), whose error is thrown as ACTIVE_WORKER_EXISTS.
  unfoldable pub create_run : ℕ → Text → Option ℕ → Option ℕ → Option ℕ → Action Run
  create_run task_id provider provider_run_id provider_agent_id attempt = do
    found ← get_task task_id
    task ← require_some found unknown_task
    require (not (is_draft task.status)) unlocked_draft
    lift (verify_task_hash env task)
    existing ← list_runs_for_task task_id
    id ← new_id
    time ← gets (λ s. s.now)
    run ←
        catch
          (insert_run (
            pending_run id task_id provider provider_run_id provider_agent_id
              (get_or attempt (length existing + 1)) time))
          (λ e. raise (as_active_worker e))
    append_event (some task_id) (some run.factory_run_id) EventType.run_created
        (run_record run.attempt provider)
    pure run

-- The run that a pointer selects, if it is active.
abbrev active_row : Option Run → Option Run
active_row none = none
active_row (some r) = if is_active r.status then some r else none

abbrev pub pointed : Option ℕ → Builder → Option Run
pointed none s = none
pointed (some id) s = active_row (find_run id s.runs)

-- The only active run, if there is one, becomes the current run.
unfoldable pub adopt : List Run → Action (Option Run)
adopt [] = pure none
adopt (r ∷ []) = set_current (some r.factory_run_id) >> pure (some r)
adopt (r ∷ q ∷ rs) = raise multiple_active_runs

-- `getCurrentCodingRun`
unfoldable pub get_current_coding_run : Action (Option Run)
get_current_coding_run = do
  held ← gets (λ s. pointed s.current s)
  if_some held (λ r. pure (some r)) do set_current none; active ← list_active_runs; adopt active

abbrev pub is_other : ℕ → Option Run → Bool
is_other id none = false
is_other id (some r) = not (r.factory_run_id == id)

abbrev run_id_of : Option Run → Option ℕ
run_id_of none = none
run_id_of (some r) = some r.factory_run_id

-- The rejection of a run that is not the current one.
unfoldable pub reject_stale : {A : Type 0} → Run → Option Run → Action A
reject_stale run current = do
  append_event (some run.task_id) (some run.factory_run_id) EventType.stale_run_rejected
      (superseded_by (run_id_of current))
  raise stale_run

-- `assertAuthorizedRun`
unfoldable pub assert_authorized_run : ℕ → Bool → Action Run
assert_authorized_run id allow_terminal_current = do
  found ← get_run id
  run ← require_some found unknown_run
  current ← get_current_coding_run
  if is_other id current
      then reject_stale run current
      else if not (is_some current) && not allow_terminal_current && is_stale run.status
      then raise stale_run
      else pure run

-- `markRunStale`
unfoldable pub mark_run_stale : ℕ → Action Run
mark_run_stale id = do
  found ← get_run id
  run ← require_some found unknown_run
  time ← gets (λ s. s.now)
  updated ← update_run id (λ r. record r {
    status = RunStatus.stale;
    ended_at = some time;
    failure_class = some FailureClass.stale_run;
  })
  drop_current id
  append_event (some run.task_id) (some id) EventType.run_status_changed
      (run_change RunStatus.stale (some FailureClass.stale_run))
  pure updated
