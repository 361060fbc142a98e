-- ===== src/Builder/Frame/TaskRuns.antt =====
-- The operations on runs write no task.
use jarvis_agencyos.Base.{ℕ, Bool, Option, List, [], ◌∷◌, Text}
use jarvis_agencyos.Exec.Keeps.{Keeps}
use jarvis_agencyos.Builder.Contracts.{EventType, Runtime, FailureClass}
use jarvis_agencyos.Builder.State.{Task, Run, Error}
use jarvis_agencyos.Builder.Store.{get_task, get_run, list_runs_for_task, list_active_runs}
use jarvis_agencyos.Builder.Runs.{
  verify_locked_task, create_run, adopt, get_current_coding_run, reject_stale,
  assert_authorized_run, mark_run_stale,
}
use jarvis_agencyos.Builder.Provider.{
  ProviderResult, PartialResult, apply_provider_observation, apply_provider_result,
}
use jarvis_agencyos.Builder.Workers.{
  Answer, require_permitted, launch_check, launch_verify, launch_create, launch_prepare,
  launch_prepare_on_run, launch_failed, launch_mismatch, mapped_run, refresh_settle, cancel_settle,
  collect_settle, refresh_worker_status, cancel_coding_worker, collect_coding_worker,
}
use jarvis_agencyos.Builder.Retry.{end_run, close_current}
use jarvis_agencyos.Builder.Frame.Tasks.{OnTasks, task_frame}

module _ (P : List Task → Type 0) where
  pub adopt-tasks : (rs : List Run) → Keeps (OnTasks P) (adopt rs)
  unfolding adopt
  adopt-tasks [] = search task_frame
  adopt-tasks (r ∷ []) = search task_frame
  adopt-tasks (r ∷ q ∷ rs) = search task_frame

  pub get_current_coding_run-tasks : Keeps (OnTasks P) (get_current_coding_run)
  unfolding get_current_coding_run get_task get_run list_runs_for_task list_active_runs
  get_current_coding_run-tasks = search (task_frame, adopt-tasks) depth 20

  pub reject_stale-tasks :
      {A : Type 0} (r : Run) (o : Option Run) → Keeps (OnTasks P) (reject_stale {A = A} r o)
  unfolding reject_stale get_task get_run list_runs_for_task list_active_runs
  reject_stale-tasks {A} r o = search task_frame depth 20

  pub assert_authorized_run-tasks :
      (id : ℕ) (b : Bool) → Keeps (OnTasks P) (assert_authorized_run id b)
  unfolding assert_authorized_run get_task get_run list_runs_for_task list_active_runs
  assert_authorized_run-tasks id b =
      search (task_frame, get_current_coding_run-tasks, reject_stale-tasks) depth 20

  pub mark_run_stale-tasks : (id : ℕ) → Keeps (OnTasks P) (mark_run_stale id)
  unfolding mark_run_stale get_task get_run list_runs_for_task list_active_runs
  mark_run_stale-tasks id = search task_frame depth 20

  pub verify_locked_task-tasks :
      (env : Runtime) (id : ℕ) → Keeps (OnTasks P) (verify_locked_task env id)
  unfolding verify_locked_task get_task get_run list_runs_for_task list_active_runs
  verify_locked_task-tasks env id = search task_frame depth 20

  pub create_run-tasks :
      (env : Runtime) (id : ℕ) (p : Text) (a b c : Option ℕ)
      → Keeps (OnTasks P) (create_run env id p a b c)
  unfolding create_run get_task get_run list_runs_for_task list_active_runs
  create_run-tasks env id p a b c = search task_frame depth 20

  pub apply_provider_observation-tasks :
      (r : Run) (p : ProviderResult) (e : EventType)
      → Keeps (OnTasks P) (apply_provider_observation r p e)
  unfolding apply_provider_observation get_task get_run list_runs_for_task list_active_runs
  apply_provider_observation-tasks r p e = search task_frame depth 20

  pub apply_provider_result-tasks :
      (id : ℕ) (p : Option PartialResult) → Keeps (OnTasks P) (apply_provider_result id p)
  unfolding apply_provider_result get_task get_run list_runs_for_task list_active_runs
  apply_provider_result-tasks id p =
      search
        (
          task_frame, get_current_coding_run-tasks, reject_stale-tasks,
          apply_provider_observation-tasks,
        )
        depth 20

  pub require_permitted-tasks :
      (name : Text) (t : Task) → Keeps (OnTasks P) (require_permitted name t)
  unfolding require_permitted get_task get_run list_runs_for_task list_active_runs
  require_permitted-tasks name t = search task_frame depth 20

  pub launch_check-tasks :
      (env : Runtime) (p : Option Text) → Keeps (OnTasks P) (launch_check env p)
  unfolding launch_check
  launch_check-tasks env p = search (task_frame, get_current_coding_run-tasks) depth 20

  pub launch_verify-tasks :
      (env : Runtime) (name : Text) (id : ℕ) → Keeps (OnTasks P) (launch_verify env name id)
  unfolding launch_verify
  launch_verify-tasks env name id =
      search (task_frame, verify_locked_task-tasks, require_permitted-tasks) depth 20

  pub launch_create-tasks :
      (env : Runtime) (name : Text) (id : ℕ) → Keeps (OnTasks P) (launch_create env name id)
  unfolding launch_create
  launch_create-tasks env name id = search (task_frame, create_run-tasks) depth 20

  pub launch_prepare-tasks :
      (env : Runtime) (p : Option Text) (id : ℕ) → Keeps (OnTasks P) (launch_prepare env p id)
  unfolding launch_prepare
  launch_prepare-tasks env p id =
      search (task_frame, launch_check-tasks, launch_verify-tasks, launch_create-tasks) depth 20

  pub launch_prepare_on_run-tasks :
      (env : Runtime) (p : Option Text) (id : ℕ)
      → Keeps (OnTasks P) (launch_prepare_on_run env p id)
  unfolding launch_prepare_on_run get_task get_run list_runs_for_task list_active_runs
  launch_prepare_on_run-tasks env p id =
      search
        (task_frame, assert_authorized_run-tasks, verify_locked_task-tasks, require_permitted-tasks)
        depth 20

  pub launch_failed-tasks :
      {A : Type 0} (r : Run) (e : Error) → Keeps (OnTasks P) (launch_failed {A = A} r e)
  unfolding launch_failed get_task get_run list_runs_for_task list_active_runs
  launch_failed-tasks {A} r e = search task_frame depth 20

  pub launch_mismatch-tasks : {A : Type 0} (r : Run) → Keeps (OnTasks P) (launch_mismatch {A = A} r)
  unfolding launch_mismatch get_task get_run list_runs_for_task list_active_runs
  launch_mismatch-tasks {A} r = search (task_frame, mark_run_stale-tasks) depth 20

  pub mapped_run-tasks :
      (p : Option Text) (id : ℕ) (b : Bool) → Keeps (OnTasks P) (mapped_run p id b)
  unfolding mapped_run get_task get_run list_runs_for_task list_active_runs
  mapped_run-tasks p id b = search (task_frame, assert_authorized_run-tasks) depth 20

  pub refresh_settle-tasks : (r : Run) (a : Answer) → Keeps (OnTasks P) (refresh_settle r a)
  unfolding refresh_settle get_task get_run list_runs_for_task list_active_runs
  refresh_settle-tasks r a = search (task_frame, apply_provider_observation-tasks) depth 20

  pub cancel_settle-tasks : (r : Run) (a : Answer) → Keeps (OnTasks P) (cancel_settle r a)
  unfolding cancel_settle get_task get_run list_runs_for_task list_active_runs
  cancel_settle-tasks r a = search (task_frame, apply_provider_observation-tasks) depth 20

  pub collect_settle-tasks : (r : Run) (a : Answer) → Keeps (OnTasks P) (collect_settle r a)
  unfolding collect_settle get_task get_run list_runs_for_task list_active_runs
  collect_settle-tasks r a = search (task_frame, apply_provider_observation-tasks) depth 20

  pub refresh_worker_status-tasks :
      (p : Option Text) (id : ℕ) (a : Answer) → Keeps (OnTasks P) (refresh_worker_status p id a)
  unfolding refresh_worker_status get_task get_run list_runs_for_task list_active_runs
  refresh_worker_status-tasks p id a =
      search (task_frame, mapped_run-tasks, refresh_settle-tasks) depth 20

  pub cancel_coding_worker-tasks :
      (p : Option Text) (id : ℕ) (a : Answer) → Keeps (OnTasks P) (cancel_coding_worker p id a)
  unfolding cancel_coding_worker get_task get_run list_runs_for_task list_active_runs
  cancel_coding_worker-tasks p id a =
      search (task_frame, mapped_run-tasks, cancel_settle-tasks) depth 20

  pub collect_coding_worker-tasks :
      (p : Option Text) (id : ℕ) (a : Answer) → Keeps (OnTasks P) (collect_coding_worker p id a)
  unfolding collect_coding_worker get_task get_run list_runs_for_task list_active_runs
  collect_coding_worker-tasks p id a =
      search (task_frame, mapped_run-tasks, collect_settle-tasks) depth 20

  pub end_run-tasks : (id : ℕ) (f : FailureClass) (r : Run) → Keeps (OnTasks P) (end_run id f r)
  unfolding end_run get_task get_run list_runs_for_task list_active_runs
  end_run-tasks id f r = search task_frame depth 20

  pub close_current-tasks :
      (id : ℕ) (f : FailureClass) (o : Option Run) → Keeps (OnTasks P) (close_current id f o)
  unfolding close_current get_task get_run list_runs_for_task list_active_runs
  close_current-tasks id f o = search (task_frame, end_run-tasks) depth 20

pub ruleset task_rules = (
  task_frame, adopt-tasks, get_current_coding_run-tasks, reject_stale-tasks,
  assert_authorized_run-tasks, mark_run_stale-tasks, verify_locked_task-tasks, create_run-tasks,
  apply_provider_observation-tasks, apply_provider_result-tasks, require_permitted-tasks,
  launch_check-tasks, launch_verify-tasks, launch_create-tasks, launch_prepare-tasks,
  launch_prepare_on_run-tasks, launch_failed-tasks, launch_mismatch-tasks, mapped_run-tasks,
  refresh_settle-tasks, cancel_settle-tasks, collect_settle-tasks, refresh_worker_status-tasks,
  cancel_coding_worker-tasks, collect_coding_worker-tasks, end_run-tasks, close_current-tasks,
)
