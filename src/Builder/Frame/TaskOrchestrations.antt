-- ===== src/Builder/Frame/TaskOrchestrations.antt =====
-- An orchestration creates and locks its task, and from there on writes a task's status only, as
-- Frame.TaskStatuses says, or ACCEPTED.
use jarvis_agencyos.Base.{ℕ, zero, suc, Option, List, Text}
use jarvis_agencyos.Exec.Keeps.{Keeps, Keeps-bind, Keeps-pure, Keeps-catch, Keeps-require}
use jarvis_agencyos.Builder.Contracts.{TaskStatus, FailureClass, Runtime}
use jarvis_agencyos.Builder.State.{Task, Run, Action}
use jarvis_agencyos.Builder.Store.{get_task, get_run}
use jarvis_agencyos.Builder.Lock.{OwnerIntent, create_and_lock_task}
use jarvis_agencyos.Builder.Runs.{update_task_status}
use jarvis_agencyos.Builder.Workers.{Answer, launch_coding_worker, launch_coding_worker_on_run}
use jarvis_agencyos.Builder.Retry.{Repair, allowed, refused}
use jarvis_agencyos.Builder.Review.Exact.{Invoker, Reviewed}
use jarvis_agencyos.Builder.Landed.{Verified}
use jarvis_agencyos.Builder.Orchestrator.{
  OrchestrationDecision, done, retry, blocked, needs_owner, Cycle, Last, Outcome, CycleEnd, ended,
  continues, finalize, attempt, after_repair, repair_or_stop, stop_blocked, maybe_review, act,
  decide_and_act, review_and_decide, verify_and_decide, launch_worker, after_worker, run_cycle,
  go_on, run_cycles, run_owner_software_task,
}
use jarvis_agencyos.Builder.Frame.Tasks.{OnTasks, append_event-tasks, task_frame}
use jarvis_agencyos.Builder.Frame.TaskRuns.{task_rules}
use jarvis_agencyos.Builder.Frame.TaskStatuses.{
  WorkStatus, launch_settle-status, begin_repair_attempt-status,
}
use jarvis_agencyos.Builder.Frame.TaskReviews.{
  wait_for_worker_terminal-tasks, review_exact_candidate-status, register_and_verify-status,
}

module _ (P : List Task → Type 0) where
  finalize-tasks :
      (id : ℕ) (d : OrchestrationDecision) (last : Last) → Keeps (OnTasks P) (finalize id d last)
  unfolding finalize get_task
  finalize-tasks id d last = search task_frame depth 20

  attempt-tasks : {A : Type 0} (m : Action A) → Keeps (OnTasks P) m → Keeps (OnTasks P) (attempt m)
  unfolding attempt
  attempt-tasks m k = Keeps-catch _ _ (Keeps-bind _ _ k (λ a. Keeps-pure _)) (λ e. Keeps-pure _)

module _ (P : List Task → Type 0) (env : Runtime) (provider : Option Text) (id : ℕ)
    (writes : (id : ℕ) (st : TaskStatus)
      → WorkStatus st
      → Keeps (OnTasks P) (update_task_status env id st))
    (accepts : Keeps (OnTasks P) (update_task_status env id TaskStatus.accepted)) where
  after_repair-kept :
      (last : Last) (r : Repair) → Keeps (OnTasks P) (after_repair env provider id last r)
  unfolding after_repair
  after_repair-kept last (allowed run n) = search task_frame
  after_repair-kept last (refused why stop class) = search (task_frame, finalize-tasks) depth 20

  repair_or_stop-kept :
      (last : Last) (f : FailureClass) → Keeps (OnTasks P) (repair_or_stop env provider id last f)
  unfolding repair_or_stop
  repair_or_stop-kept last f =
      search (task_frame, begin_repair_attempt-status, writes, after_repair-kept) depth 20

  stop_blocked-kept : (last : Last) → Keeps (OnTasks P) (stop_blocked env provider id last)
  unfolding stop_blocked
  stop_blocked-kept last = search (task_frame, finalize-tasks) depth 20

  maybe_review-kept :
      (t : Task) (v : Verified) (i : Invoker)
      → Keeps (OnTasks P) (maybe_review env provider id t v i)
  unfolding maybe_review
  maybe_review-kept t v i = search (task_frame, review_exact_candidate-status, writes) depth 20

  act-kept :
      (last : Last) (d : OrchestrationDecision × Option FailureClass)
      → Keeps (OnTasks P) (act env provider id last d)
  unfolding act get_task
  act-kept last (done, f) =
      Keeps-bind _ _ accepts λ _. Keeps-bind _ _ (finalize-tasks P id done last) (λ o. Keeps-pure _)
  act-kept last (retry, f) = repair_or_stop-kept last _
  act-kept last (needs_owner, f) = repair_or_stop-kept last _
  act-kept last (blocked, f) =
      search (task_frame, writes, WorkStatus.blocked, stop_blocked-kept) depth 20

  decide_and_act-kept :
      (last : Last) (v : Verified) (o : Option Reviewed)
      → Keeps (OnTasks P) (decide_and_act env provider id last v o)
  unfolding decide_and_act get_task
  decide_and_act-kept last v o = search (task_frame, act-kept) depth 20

  review_and_decide-kept :
      (last : Last) (v : Verified) (i : Invoker)
      → Keeps (OnTasks P) (review_and_decide env provider id last v i)
  unfolding review_and_decide get_task
  review_and_decide-kept last v i =
      search (task_frame, attempt-tasks, maybe_review-kept, decide_and_act-kept, stop_blocked-kept)
        depth 20

  verify_and_decide-kept :
      (last : Last) (run_id : ℕ) (c : Cycle)
      → Keeps (OnTasks P) (verify_and_decide env provider id last run_id c)
  unfolding verify_and_decide get_task get_run
  verify_and_decide-kept last run_id c =
      search
        (
          task_frame, attempt-tasks, register_and_verify-status, writes, review_and_decide-kept,
          stop_blocked-kept, repair_or_stop-kept,
        )
        depth 20

  launch_worker-kept :
      (launch : ℕ → Answer) → Keeps (OnTasks P) (launch_worker env provider id launch)
  unfolding launch_worker launch_coding_worker launch_coding_worker_on_run
  launch_worker-kept launch = search (task_rules, launch_settle-status, writes) depth 20

  after_worker-kept :
      (last : Last) (run_id : ℕ) (c : Cycle) (r : Run)
      → Keeps (OnTasks P) (after_worker env provider id last run_id c r)
  unfolding after_worker
  after_worker-kept last run_id c r =
      search (task_rules, repair_or_stop-kept, verify_and_decide-kept) depth 20

  run_cycle-kept : (last : Last) (c : Cycle) → Keeps (OnTasks P) (run_cycle env provider id last c)
  unfolding run_cycle get_task
  run_cycle-kept last c =
      search
        (
          task_frame, launch_worker-kept, stop_blocked-kept, attempt-tasks,
          wait_for_worker_terminal-tasks, after_worker-kept, repair_or_stop-kept,
        )
        depth 20

  go_on-kept :
      (rest : Last → Action Outcome) (e : CycleEnd)
      → ((last : Last) → Keeps (OnTasks P) (rest last))
      → Keeps (OnTasks P) (go_on env provider id rest e)
  go_on-kept rest (ended o) k = search task_frame
  go_on-kept rest (continues last) k = k last

  pub run_cycles-kept :
      (n : ℕ) (cycles : ℕ → Cycle) (last : Last)
      → Keeps (OnTasks P) (run_cycles env provider id n cycles last)
  unfolding run_cycles
  run_cycles-kept zero cycles last =
      search (task_frame, writes, WorkStatus.needs_owner, finalize-tasks) depth 20
  run_cycles-kept (suc n) cycles last =
      Keeps-bind _ _ (run_cycle-kept last (cycles n))
        λ e. go_on-kept _ e (λ l. run_cycles-kept n cycles l)

module _ (P : List Task → Type 0) (env : Runtime)
    (writes : (id : ℕ) (st : TaskStatus)
      → WorkStatus st
      → Keeps (OnTasks P) (update_task_status env id st))
    (accepts : (id : ℕ) → Keeps (OnTasks P) (update_task_status env id TaskStatus.accepted)) where
  pub run_owner_software_task-kept :
      (provider : Option Text) (input : OwnerIntent) (max_cycles : Option ℕ) (cycles : ℕ → Cycle)
      → Keeps (OnTasks P) (create_and_lock_task env input)
      → Keeps (OnTasks P) (run_owner_software_task env provider input max_cycles cycles)
  unfolding run_owner_software_task
  run_owner_software_task-kept provider input max_cycles cycles creates =
      Keeps-bind _ _ (Keeps-require _ _) λ _. Keeps-bind _ _ creates λ task.
        Keeps-bind _ _ (append_event-tasks P _ _ _ _)
          λ _. run_cycles-kept P env provider task.task_id writes (accepts task.task_id) _ cycles _
