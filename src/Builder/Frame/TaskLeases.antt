-- ===== src/Builder/Frame/TaskLeases.antt =====
-- Leases and the insertion of an active run write no task, and a transaction keeps of the tasks what
-- its body keeps.
use jarvis_agencyos.Base.{ℕ, Option, none, some, List, Text}
use jarvis_agencyos.Exec.{Result, ok, err}
use jarvis_agencyos.Exec.Keeps.{
  Keeps, Keeps-modify, Keeps-pure, Keeps-bind, Keeps-if_some, Keeps-catch,
}
use jarvis_agencyos.Builder.Contracts.{Runtime}
use jarvis_agencyos.Builder.State.{Task, Lease, Builder, Action, Error, unique_violation}
use jarvis_agencyos.Builder.Store.{get_task, get_run, list_runs_for_task, list_active_runs}
use jarvis_agencyos.Builder.Lock.{OwnerIntent, id_or_new, create_and_lock_task}
use jarvis_agencyos.Builder.Leases.{
  NewRun, settled, transaction, get_control_lease, insert_lease, write_lease, refresh_lease,
  take_lease, acquire_control_lease, release_control_lease, run_of_lease, bind_lease, on_unique,
  add_active_run, check_and_insert, clash_of_runs, try_insert_active_run,
  get_task_by_logical_work_id, find_claimed, check_and_claim, clash_of_work, claim_logical_work,
}
use jarvis_agencyos.Builder.Frame.Tasks.{OnTasks, task_frame}

module _ (P : List Task → Type 0) where
  settled-tasks :
      {A : Type 0} (s : Builder) (r : Result Error A) (t : Builder)
      → P s.tasks
      → P t.tasks
      → P (settled s r t).1.tasks
  settled-tasks s (ok a) t h k = k
  settled-tasks s (err e) t h k = h

  transaction-tasks :
      {A : Type 0} (m : Action A) → Keeps (OnTasks P) m → Keeps (OnTasks P) (transaction m)
  unfolding transaction
  transaction-tasks m k = record {
    at = λ s h. let (r, t) = m s in settled-tasks s r t h (k.at s h);
  }

  on_unique-tasks :
      {A : Type 0} (m : Action A) (e : Error)
      → Keeps (OnTasks P) m
      → Keeps (OnTasks P) (on_unique m e)
  on_unique-tasks m unique_violation k = k
  on_unique-tasks m _ k = search task_frame

  same : (s : Builder) → P s.tasks → P s.tasks
  same s h = h

  insert_lease-tasks : (l : Lease) → Keeps (OnTasks P) (insert_lease l)
  unfolding insert_lease
  insert_lease-tasks l = search (task_frame, Keeps-modify, same) depth 20

  write_lease-tasks : (k : Text) (t r : Option ℕ) → Keeps (OnTasks P) (write_lease k t r)
  unfolding write_lease
  write_lease-tasks k t r = search (task_frame, Keeps-modify, same) depth 20

  pub release_control_lease-tasks :
      (k : Text) (o : Option Text) → Keeps (OnTasks P) (release_control_lease k o)
  unfolding release_control_lease
  release_control_lease-tasks k o = search (task_frame, Keeps-modify, same) depth 20

  pub acquire_control_lease-tasks :
      (k o : Text) (t r : Option ℕ) → Keeps (OnTasks P) (acquire_control_lease k o t r)
  unfolding acquire_control_lease refresh_lease take_lease get_control_lease
  acquire_control_lease-tasks k o t r =
      search (task_frame, transaction-tasks, insert_lease-tasks, write_lease-tasks) depth 30

  run_of_lease-tasks : (o : Option Lease) → Keeps (OnTasks P) (run_of_lease o)
  unfolding run_of_lease get_run list_active_runs
  run_of_lease-tasks none = search task_frame depth 20
  run_of_lease-tasks (some l) = search task_frame depth 20

  bind_lease-tasks :
      (o : Option Lease) (w : Text) (t r : ℕ) → Keeps (OnTasks P) (bind_lease o w t r)
  unfolding bind_lease
  bind_lease-tasks o w t r = search (task_frame, insert_lease-tasks, write_lease-tasks) depth 20

  id_or_new-tasks : (o : Option ℕ) → Keeps (OnTasks P) (id_or_new o)
  unfolding id_or_new
  id_or_new-tasks none = search task_frame
  id_or_new-tasks (some id) = search task_frame

  add_active_run-tasks :
      (t : ℕ) (p o : Text) (g : NewRun) (l : Option Lease)
      → Keeps (OnTasks P) (add_active_run t p o g l)
  unfolding add_active_run list_runs_for_task
  add_active_run-tasks t p o g l = search (task_frame, id_or_new-tasks, bind_lease-tasks) depth 20

  check_and_insert-tasks :
      (t : ℕ) (p o : Text) (g : NewRun) → Keeps (OnTasks P) (check_and_insert t p o g)
  unfolding check_and_insert list_runs_for_task get_control_lease
  check_and_insert-tasks t p o g =
      search (task_frame, run_of_lease-tasks, add_active_run-tasks) depth 20

  clash_of_runs-tasks : (t : ℕ) → Keeps (OnTasks P) (clash_of_runs t)
  unfolding clash_of_runs list_runs_for_task list_active_runs
  clash_of_runs-tasks t = search task_frame depth 20

  pub try_insert_active_run-tasks :
      (t : ℕ) (p o : Text) (g : NewRun) → Keeps (OnTasks P) (try_insert_active_run t p o g)
  unfolding try_insert_active_run
  try_insert_active_run-tasks t p o g =
      search
        (
          task_frame, transaction-tasks, on_unique-tasks, check_and_insert-tasks,
          clash_of_runs-tasks,
        )
        depth 20

  get_task_by_logical_work_id-tasks :
      (o : Option ℕ) → Keeps (OnTasks P) (get_task_by_logical_work_id o)
  unfolding get_task_by_logical_work_id
  get_task_by_logical_work_id-tasks none = search task_frame
  get_task_by_logical_work_id-tasks (some id) = search task_frame

  find_claimed-tasks : (i : OwnerIntent) → Keeps (OnTasks P) (find_claimed i)
  unfolding find_claimed get_task
  find_claimed-tasks i = search (task_frame, get_task_by_logical_work_id-tasks) depth 20

  clash_of_work-tasks : (env : Runtime) (i : OwnerIntent) → Keeps (OnTasks P) (clash_of_work env i)
  unfolding clash_of_work
  clash_of_work-tasks env i = search (task_frame, find_claimed-tasks) depth 20

  check_and_claim-tasks :
      (env : Runtime) (i : OwnerIntent)
      → Keeps (OnTasks P) (create_and_lock_task env i)
      → Keeps (OnTasks P) (check_and_claim env i)
  unfolding check_and_claim
  check_and_claim-tasks env i k =
      Keeps-bind _ _ (find_claimed-tasks i)
        λ o. Keeps-if_some o _ _ (λ t. Keeps-pure _) (Keeps-bind _ _ k (λ t. Keeps-pure _))

  -- A claim creates and locks a task.
  pub claim_logical_work-tasks :
      (env : Runtime) (i : OwnerIntent)
      → Keeps (OnTasks P) (create_and_lock_task env i)
      → Keeps (OnTasks P) (claim_logical_work env i)
  unfolding claim_logical_work
  claim_logical_work-tasks env i k =
      Keeps-catch _ _ (transaction-tasks _ (check_and_claim-tasks env i k))
        (λ e. on_unique-tasks _ e (clash_of_work-tasks env i))

pub ruleset lease_rules = (
  acquire_control_lease-tasks, release_control_lease-tasks, try_insert_active_run-tasks,
  claim_logical_work-tasks,
)
