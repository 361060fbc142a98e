-- ===== src/Builder/Frame/TaskReviews.antt =====
-- A review, and the way from a worker's landing to a verdict, write a task's status only, as
-- Frame.TaskStatuses says.
use jarvis_agencyos.Base.{ℕ, zero, suc, Option, none, some, List, Text}
use jarvis_agencyos.Exec.Keeps.{Keeps, Keeps-modify, Keeps-pure, Keeps-bind, Keeps-if}
use jarvis_agencyos.Builder.Contracts.{TaskStatus, EventType, ReviewStatus, Runtime}
use jarvis_agencyos.Builder.State.{Task, Run, Candidate, Verification, Review, Builder, Action}
use jarvis_agencyos.Builder.Store.{
  get_task, get_run, get_candidate, get_verification, insert_review,
}
use jarvis_agencyos.Builder.Runs.{update_task_status}
use jarvis_agencyos.Builder.Workers.{Answer}
use jarvis_agencyos.Builder.Landing.{Host}
use jarvis_agencyos.Builder.CiWait.{Waiting, WaitResult}
use jarvis_agencyos.Builder.Recovery.Rows.{detect_awaiting_ci-reads, verification_of-reads}
use jarvis_agencyos.Builder.Review.Exact.{
  Invoked, invoke_failed, output, Invoker, add_review, review_event, stored_verification,
  block_task, settle_review, bypass_review, ask_reviewer, review_exact_candidate,
}
use jarvis_agencyos.Builder.Landed.{
  WorkerLanding, Surround, wait_for_worker_terminal, resolve_by_request, resolve_by_branch,
  resolve_landing_sha, wait_for_ci, after_wait, bind_candidate, verify_candidate,
  register_and_verify, resume_exact_candidate_ci_and_verify,
}
use jarvis_agencyos.Builder.Frame.Tasks.{OnTasks, task_frame}
use jarvis_agencyos.Builder.Frame.TaskRuns.{refresh_worker_status-tasks}
use jarvis_agencyos.Builder.Frame.TaskCandidates.{candidate_rules}
use jarvis_agencyos.Builder.Frame.TaskWaits.{wait_rules}
use jarvis_agencyos.Builder.Frame.TaskStatuses.{WorkStatus, blocked, verify_exact_candidate-status}

module _ (P : List Task → Type 0) where
  insert_review-tasks : (r : Review) → Keeps (OnTasks P) (insert_review r)
  unfolding insert_review
  insert_review-tasks r = search (task_frame, Keeps-modify, same) depth 20
    where
      same : (s : Builder) → P s.tasks → P s.tasks
      same s h = h

  pub add_review-tasks :
      (id : ℕ) (sha : Text) (st : ReviewStatus) (v : Option ℕ)
      → Keeps (OnTasks P) (add_review id sha st v)
  unfolding add_review
  add_review-tasks id sha st v = search (task_frame, insert_review-tasks) depth 20

  pub review_event-tasks :
      (t : Task) (c : Candidate) (e : EventType) (r : Review)
      → Keeps (OnTasks P) (review_event t c e r)
  unfolding review_event
  review_event-tasks t c e r = search task_frame

  pub stored_verification-tasks : (c : Candidate) → Keeps (OnTasks P) (stored_verification c)
  unfolding stored_verification get_verification
  stored_verification-tasks c = search task_frame depth 20

  bypass_review-tasks :
      (env : Runtime) (t : Task) (c : Candidate) (sha : Text) (v : Verification)
      → Keeps (OnTasks P) (bypass_review env t c sha v)
  unfolding bypass_review
  bypass_review-tasks env t c sha v =
      search (task_frame, add_review-tasks, review_event-tasks) depth 20

  resolve_landing_sha-tasks :
      (l : WorkerLanding) (o : Option Host) → Keeps (OnTasks P) (resolve_landing_sha l o)
  unfolding resolve_landing_sha resolve_by_request resolve_by_branch
  resolve_landing_sha-tasks l o = search (task_frame, candidate_rules) depth 30

  wait_for_ci-tasks : (w : Waiting) (id : ℕ) → Keeps (OnTasks P) (wait_for_ci w id)
  unfolding wait_for_ci
  wait_for_ci-tasks w id = search (task_frame, wait_rules) depth 20

  after_wait-tasks :
      (n : ℕ) (c : Candidate) (w : WaitResult)
      (rest : WorkerLanding → Action (Candidate × Option WaitResult))
      → ((l : WorkerLanding) → Keeps (OnTasks P) (rest l))
      → Keeps (OnTasks P) (after_wait n c w rest)
  unfolding after_wait
  after_wait-tasks n c w rest k = search (task_frame, candidate_rules, k) depth 30

  bind_candidate-tasks :
      (env : Runtime) (n : ℕ) (t : Task) (r : Run) (w : Surround) (l : WorkerLanding)
      → Keeps (OnTasks P) (bind_candidate env n t r w l)
  unfolding bind_candidate
  bind_candidate-tasks env zero t r w l = search task_frame
  bind_candidate-tasks env (suc n) t r w l =
      let rest : (m : WorkerLanding) → Keeps (OnTasks P) (bind_candidate env n t r w m) =
        bind_candidate-tasks env n t r w in
      search (task_frame, candidate_rules, wait_rules, wait_for_ci-tasks, after_wait-tasks, rest)
        depth 40

  pub wait_for_worker_terminal-tasks :
      (n : ℕ) (p : Option Text) (id : ℕ) (answers : ℕ → Answer)
      → Keeps (OnTasks P) (wait_for_worker_terminal n p id answers)
  unfolding wait_for_worker_terminal
  wait_for_worker_terminal-tasks zero p id answers = search task_frame
  wait_for_worker_terminal-tasks (suc n) p id answers =
      Keeps-bind _ _ (refresh_worker_status-tasks P p id (answers n))
        λ run. Keeps-if _ _ _ (Keeps-pure run) (wait_for_worker_terminal-tasks n p id answers)

module _ (P : List Task → Type 0) (env : Runtime)
    (writes : (id : ℕ) (st : TaskStatus)
      → WorkStatus st
      → Keeps (OnTasks P) (update_task_status env id st)) where
  block_task-status :
      (t : Task) (v : Verification) (r : Review) → Keeps (OnTasks P) (block_task env t v r)
  unfolding block_task get_task
  block_task-status t v r = search (task_frame, writes, blocked) depth 20

  settle_review-status :
      (t : Task) (c : Candidate) (sha : Text) (v : Verification) (i : Invoked)
      → Keeps (OnTasks P) (settle_review env t c sha v i)
  unfolding settle_review get_task
  settle_review-status t c sha v invoke_failed =
      search (task_frame, add_review-tasks, review_event-tasks, block_task-status) depth 20
  settle_review-status t c sha v (output none) =
      search (task_frame, add_review-tasks, block_task-status) depth 20
  settle_review-status t c sha v (output (some st)) =
      search (task_frame, add_review-tasks, review_event-tasks) depth 30

  ask_reviewer-status :
      (t : Task) (c : Candidate) (sha : Text) (v : Verification) (i : Invoker)
      → Keeps (OnTasks P) (ask_reviewer env t c sha v i)
  unfolding ask_reviewer
  ask_reviewer-status t c sha v none = search (task_frame, add_review-tasks) depth 20
  ask_reviewer-status t c sha v (some a) = search (task_frame, settle_review-status) depth 20

  pub review_exact_candidate-status :
      (id : ℕ) (i : Invoker) (o : Option (Option ℕ))
      → Keeps (OnTasks P) (review_exact_candidate env id i o)
  unfolding review_exact_candidate get_candidate get_task get_run
  review_exact_candidate-status id i o =
      search
        (
          task_frame, candidate_rules, stored_verification-tasks, bypass_review-tasks,
          ask_reviewer-status,
        )
        depth 40

  verify_candidate-status : (id : ℕ) (w : Surround) → Keeps (OnTasks P) (verify_candidate env id w)
  unfolding verify_candidate get_candidate
  verify_candidate-status id w =
      search (task_frame, verify_exact_candidate-status, writes, verification_of-reads) depth 20

  pub register_and_verify-status :
      (t : Task) (r : Run) (w : Surround) (l : WorkerLanding)
      → Keeps (OnTasks P) (register_and_verify env t r w l)
  unfolding register_and_verify
  register_and_verify-status t r w l =
      search (task_frame, resolve_landing_sha-tasks, bind_candidate-tasks, verify_candidate-status)
        depth 20

  pub resume-status :
      (id : ℕ) (g : Waiting) (w : Surround)
      → Keeps (OnTasks P) (resume_exact_candidate_ci_and_verify env id g w)
  unfolding resume_exact_candidate_ci_and_verify
  resume-status id g w =
      search (task_frame, detect_awaiting_ci-reads, wait_for_ci-tasks, verify_candidate-status)
        depth 20
