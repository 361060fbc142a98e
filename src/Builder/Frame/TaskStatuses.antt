-- ===== src/Builder/Frame/TaskStatuses.antt =====
-- Operations that write a task's status only, and only one of RUNNING, BLOCKED, NEEDS_OWNER and
-- VERIFIED, keep whatever such writes keep of the tasks.
use jarvis_agencyos.Base.{ℕ, List, Text}
use jarvis_agencyos.Exec.Keeps.{Keeps}
use jarvis_agencyos.Builder.Contracts.{TaskStatus, EventType, FailureClass, Runtime}
use jarvis_agencyos.Builder.State.{Task, Run, Candidate}
use jarvis_agencyos.Builder.Store.{get_task, get_run, get_candidate, list_runs_for_task}
use jarvis_agencyos.Builder.Runs.{update_task_status}
use jarvis_agencyos.Builder.Provider.{ProviderResult}
use jarvis_agencyos.Builder.Workers.{Answer, launch_accepted, launch_settle}
use jarvis_agencyos.Builder.Retry.{Refusal, refuse, start_attempt, begin_repair_attempt}
use jarvis_agencyos.Builder.Verifier.{
  Surroundings, mark_verified, record_verdict, verify_exact_candidate,
}
use jarvis_agencyos.Builder.Frame.Tasks.{OnTasks, task_frame}
use jarvis_agencyos.Builder.Frame.TaskRuns.{task_rules}
use jarvis_agencyos.Builder.Frame.TaskCandidates.{candidate_rules}

-- The statuses that Builder Core itself sets after the lock.
pub data WorkStatus : TaskStatus → Type 0 where
  running : WorkStatus TaskStatus.running
  blocked : WorkStatus TaskStatus.blocked
  needs_owner : WorkStatus TaskStatus.needs_owner
  verified : WorkStatus TaskStatus.verified

module _ (P : List Task → Type 0) (env : Runtime)
    (writes : (id : ℕ) (st : TaskStatus)
      → WorkStatus st
      → Keeps (OnTasks P) (update_task_status env id st)) where
  launch_accepted-status :
      (r : Run) (p : ProviderResult) → Keeps (OnTasks P) (launch_accepted env r p)
  unfolding launch_accepted
  launch_accepted-status r p = search (task_frame, writes, running) depth 20

  pub launch_settle-status : (r : Run) (a : Answer) → Keeps (OnTasks P) (launch_settle env r a)
  unfolding launch_settle
  launch_settle-status r a = search (task_rules, launch_accepted-status) depth 20

  refuse-status :
      (id : ℕ) (why : Refusal) (st : TaskStatus) (e : EventType) (n c : ℕ) (f g : FailureClass)
      → WorkStatus st
      → Keeps (OnTasks P) (refuse env id why st e n c f g)
  unfolding refuse
  refuse-status id why st e n c f g w = search (task_frame, writes) depth 20

  start_attempt-status :
      (t : Task) (id : ℕ) (f : FailureClass) (p : Text) (n : ℕ)
      → Keeps (OnTasks P) (start_attempt env t id f p n)
  unfolding start_attempt
  start_attempt-status t id f p n = search (task_rules, writes, running) depth 20

  pub begin_repair_attempt-status :
      (id : ℕ) (f : FailureClass) (p : Text) → Keeps (OnTasks P) (begin_repair_attempt env id f p)
  unfolding begin_repair_attempt get_task list_runs_for_task
  begin_repair_attempt-status id f p =
      search (task_frame, refuse-status, start_attempt-status, blocked, needs_owner) depth 20

  mark_verified-status : (id : ℕ) → Keeps (OnTasks P) (mark_verified env id)
  unfolding mark_verified get_task
  mark_verified-status id = search (task_frame, writes, verified) depth 20

  record_verdict-status :
      (c : Candidate) (sha : Text) (w : Surroundings)
      → Keeps (OnTasks P) (record_verdict env c sha w)
  unfolding record_verdict
  record_verdict-status c sha w = search (task_frame, mark_verified-status) depth 30

  pub verify_exact_candidate-status :
      (id : ℕ) (w : Surroundings) → Keeps (OnTasks P) (verify_exact_candidate env id w)
  unfolding verify_exact_candidate get_candidate get_run
  verify_exact_candidate-status id w =
      search (task_frame, candidate_rules, record_verdict-status) depth 30
