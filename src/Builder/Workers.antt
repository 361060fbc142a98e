-- ===== src/Builder/Workers.antt =====
-- Launching, observing, cancelling and collecting the coding worker (src/builder/core.js). A launch
-- is two steps around the provider's answer, since other operations may run while it is awaited.
pub mod Fencing
use jarvis_agencyos.Base.{
  ℕ, Bool, true, false, not, ◌&&◌, ◌||◌, Option, none, some, Text, ◌==◌, if◌then◌else◌, is_some,
  has_text,
}
use jarvis_agencyos.Exec.{
  Result, ok, err, pure, raise, lift, gets, require_some, modify, require, when, on_result, ◌>>=◌,
  ◌>>◌,
}
use jarvis_agencyos.Builder.Contracts.{
  TaskStatus, RunStatus, FailureClass, EventType, Runtime, Manifest, is_active, is_pending,
}
use jarvis_agencyos.Builder.State.{
  Task, Run, Action, Error, provider_record, active_worker_exists, no_provider, unauthorized_tool,
  factory_run_mismatch, invalid_run_status, already_dispatching, missing_provider_mapping,
}
use jarvis_agencyos.Builder.Store.{get_task, update_run, try_claim_pending_dispatch, append_event}
use jarvis_agencyos.Builder.Runs.{
  set_current, update_task_status, verify_locked_task, create_run, get_current_coding_run,
  assert_authorized_run, mark_run_stale,
}
use jarvis_agencyos.Builder.Provider.{
  PartialResult, ProviderResult, normalize_provider_result, map_provider_status,
  apply_provider_observation,
}
use jarvis_agencyos.Builder.Tools.{get_allowed_tool_manifest}

-- An awaited call of the provider: what it returns or throws.
abbrev pub Answer : Type 0
Answer = Result Error (Option PartialResult)

abbrev normalized : Answer → Result Error ProviderResult
normalized (ok p) = normalize_provider_result p
normalized (err e) = err e

-- The provider is configured, and the locked manifest permits it.
unfoldable pub require_permitted : Text → Task → Action Unit
require_permitted name task =
    require (has_text name (get_allowed_tool_manifest task).providers) unauthorized_tool

-- The provider threw, or its result is no result.
unfoldable pub launch_failed : {A : Type 0} → Run → Error → Action A
launch_failed run e = do
  time ← gets (λ s. s.now)
  update_run run.factory_run_id (λ r. record r {
    status = RunStatus.failed;
    ended_at = some time;
    failure_class = some FailureClass.provider_error;
  })
  set_current none
  raise e

unfoldable pub launch_mismatch : {A : Type 0} → Run → Action A
launch_mismatch run = do mark_run_stale run.factory_run_id; raise factory_run_mismatch

module _ (env : Runtime) where
  -- `launchCodingWorker`, up to its first `await`: no run is current.
  unfoldable pub launch_check : Option Text → Action Text
  launch_check provider = do
    name ← require_some provider no_provider
    existing ← get_current_coding_run
    require (not (is_some existing)) active_worker_exists
    pure name

  -- Up to the second `await`: the task is locked and permits the provider.
  unfoldable pub launch_verify : Text → ℕ → Action Task
  launch_verify name task_id = do
    task ← verify_locked_task env task_id
    require_permitted name task
    pure task

  -- Up to the third: the run is created.
  unfoldable pub launch_create : Text → ℕ → Action Run
  launch_create name task_id = create_run env task_id name none none none

  -- All of it up to the call of the provider, when nothing else runs in between.
  unfoldable pub launch_prepare : Option Text → ℕ → Action Run
  launch_prepare provider task_id = do
    name ← launch_check provider
    launch_verify name task_id
    run ← launch_create name task_id
    set_current (some run.factory_run_id)
    pure run

  unfoldable pub launch_accepted : Run → ProviderResult → Action Run
  launch_accepted run result = do
    time ← gets (λ s. s.now)
    updated ← update_run run.factory_run_id (λ r. record r {
      provider_run_id = result.provider_run_id;
      provider_agent_id = result.provider_agent_id;
      status = map_provider_status result.provider_status;
      started_at = some time;
    })
    update_task_status env run.task_id TaskStatus.running
    append_event (some run.task_id) (some run.factory_run_id) EventType.worker_launched
        (provider_record result.provider_status updated.status)
    pure updated

  -- The rest of a launch, from the provider's answer on.
  unfoldable pub launch_settle : Run → Answer → Action Run
  launch_settle run answer =
      on_result (normalized answer)
        (λ result.
          if result.factory_run_id == run.factory_run_id
          then launch_accepted run result
          else launch_mismatch run)
        (λ e. launch_failed run e)

  -- `launchCodingWorker`, when nothing else runs while the provider is awaited.
  unfoldable pub launch_coding_worker : Option Text → ℕ → (ℕ → Answer) → Action Run
  launch_coding_worker provider task_id launch = do
    run ← launch_prepare provider task_id
    launch_settle run (launch run.factory_run_id)

  -- `launchCodingWorkerOnRun`, up to the call of the provider.
  unfoldable pub launch_prepare_on_run : Option Text → ℕ → Action Run
  launch_prepare_on_run provider id = do
    name ← require_some provider no_provider
    run ← assert_authorized_run id false
    require (is_pending run.status) invalid_run_status
    claimed ← try_claim_pending_dispatch id
    require (is_some claimed) already_dispatching
    task ← verify_locked_task env run.task_id
    require_permitted name task
    set_current (some run.factory_run_id)
    pure run

  -- `launchCodingWorkerOnRun`
  unfoldable pub launch_coding_worker_on_run : Option Text → ℕ → (ℕ → Answer) → Action Run
  launch_coding_worker_on_run provider id launch = do
    run ← launch_prepare_on_run provider id
    launch_settle run (launch run.factory_run_id)

-- The run that the provider is asked about, with its two identifiers.
unfoldable pub mapped_run : Option Text → ℕ → Bool → Action Run
mapped_run provider id allow_terminal_current = do
  name ← require_some provider no_provider
  run ← assert_authorized_run id allow_terminal_current
  require (is_some run.provider_run_id && is_some run.provider_agent_id) missing_provider_mapping
  pure run

-- `refreshWorkerStatus`, from the provider's answer on.
unfoldable pub refresh_settle : Run → Answer → Action Run
refresh_settle run answer = do
  result ← lift (normalized answer)
  apply_provider_observation run result EventType.worker_status

-- `refreshWorkerStatus`, when nothing else runs while the provider is awaited.
unfoldable pub refresh_worker_status : Option Text → ℕ → Answer → Action Run
refresh_worker_status provider id answer = do
  run ← mapped_run provider id false
  refresh_settle run answer

-- `cancelCodingWorker`, from the provider's answer on.
unfoldable pub cancel_settle : Run → Answer → Action Run
cancel_settle run answer = do
  result ← lift (normalized answer)
  applied ← apply_provider_observation run result EventType.worker_cancelled
  set_current none
  pure applied

-- `cancelCodingWorker`
unfoldable pub cancel_coding_worker : Option Text → ℕ → Answer → Action Run
cancel_coding_worker provider id answer = do
  run ← mapped_run provider id false
  cancel_settle run answer

-- `collectCodingWorker`, from the provider's answer on.
unfoldable pub collect_settle : Run → Answer → Action Run
collect_settle run answer = do
  result ← lift (normalized answer)
  applied ← apply_provider_observation run result EventType.worker_collected
  when (not (is_active applied.status)) (set_current none)
  pure applied

-- `collectCodingWorker`; the answer also repeats the task's status, and always `task_accepted: false`.
unfoldable pub collect_coding_worker : Option Text → ℕ → Answer → Action Run
collect_coding_worker provider id answer = do
  run ← mapped_run provider id true
  collect_settle run answer
