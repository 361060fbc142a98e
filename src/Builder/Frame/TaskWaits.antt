-- ===== src/Builder/Frame/TaskWaits.antt =====
-- The wait for CI, the refresh of a landing, leases, recovery and the invalidation of a task's
-- evidence write no task.
use jarvis_agencyos.Base.{ℕ, zero, suc, sym, ap, subst, Bool, Option, some, List, Text}
use jarvis_agencyos.Exec.Keeps.{Keeps, Keeps-bind, Keeps-if}
use jarvis_agencyos.Builder.Contracts.{Runtime, EventType}
use jarvis_agencyos.Builder.State.{Task, Candidate, Action}
use jarvis_agencyos.Builder.Store.{
  get_candidate, list_candidates_for_task, list_verifications_for_candidate,
  list_reviews_for_candidate,
}
use jarvis_agencyos.Builder.Candidates.Refresh.{invalidate_stale, refresh_candidate_landing}
use jarvis_agencyos.Builder.Checks.{GithubClient, PullRequest, CiSummary}
use jarvis_agencyos.Builder.Landing.{Host}
use jarvis_agencyos.Builder.CiWait.{
  WaitOutcome, Waiting, WaitResult, Polled, finished, again, ci_event, invalidate_refs, finish_wait,
  poll_ci, poll_pull_request, poll_once, expire, after_poll, wait_loop, wait_for_exact_candidate_ci,
}
use jarvis_agencyos.Builder.Recovery.{Probe, reconcile_after_restart}
use jarvis_agencyos.Builder.Recovery.Rows.{reconcile_after_restart-rows}
use jarvis_agencyos.Builder.Tick.{invalidate_candidate_evidence, invalidate_task_evidence}
use jarvis_agencyos.Builder.Frame.Tasks.{OnTasks, task_frame}
use jarvis_agencyos.Builder.Frame.TaskCandidates.{candidate_rules}

module _ (P : List Task → Type 0) where
  ci_event-tasks :
      (c : Candidate) (e : EventType) (sha : Text) (n : ℕ) → Keeps (OnTasks P) (ci_event c e sha n)
  unfolding ci_event
  ci_event-tasks c e sha n = search task_frame

  invalidate_refs-tasks : (c : Candidate) → Keeps (OnTasks P) (invalidate_refs c)
  unfolding invalidate_refs
  invalidate_refs-tasks c = search (task_frame, candidate_rules) depth 20

  finish_wait-tasks :
      (id : ℕ) (c : Candidate) (sha : Text) (o : WaitOutcome) (n : ℕ) (y : CiSummary)
      → Keeps (OnTasks P) (finish_wait id c sha o n y)
  unfolding finish_wait get_candidate
  finish_wait-tasks id c sha o n y = search (task_frame, ci_event-tasks) depth 20

  poll_ci-tasks :
      (id : ℕ) (h : Host) (c : Candidate) (sha : Text) (n : ℕ) (pr : PullRequest)
      → Keeps (OnTasks P) (poll_ci id h c sha n pr)
  unfolding poll_ci
  poll_ci-tasks id h c sha n pr = search (task_frame, ci_event-tasks, finish_wait-tasks) depth 20

  poll_pull_request-tasks :
      (id : ℕ) (h : Host) (c : Candidate) (sha : Text) (n : ℕ)
      → Keeps (OnTasks P) (poll_pull_request id h c sha n)
  unfolding poll_pull_request
  poll_pull_request-tasks id h c sha n =
      search (task_frame, ci_event-tasks, invalidate_refs-tasks, poll_ci-tasks) depth 30

  poll_once-tasks :
      (id : ℕ) (h : Host) (bound : Text) (n : ℕ) → Keeps (OnTasks P) (poll_once id h bound n)
  unfolding poll_once get_candidate
  poll_once-tasks id h bound n =
      search (task_frame, candidate_rules, ci_event-tasks, poll_pull_request-tasks) depth 30

  expire-tasks :
      (id : ℕ) (c : Candidate) (sha : Text) (n : ℕ) (y : CiSummary)
      → Keeps (OnTasks P) (expire id c sha n y)
  unfolding expire
  expire-tasks id c sha n y = search (task_frame, finish_wait-tasks) depth 20

  after_poll-tasks :
      (id : ℕ) (bound : Text) (n : ℕ) (late : Bool)
      (rest : Candidate → CiSummary → Action (Option WaitResult)) (p : Polled)
      → ((c : Candidate) (y : CiSummary) → Keeps (OnTasks P) (rest c y))
      → Keeps (OnTasks P) (after_poll id bound n late rest p)
  after_poll-tasks id bound n late rest (finished r) k = search task_frame
  after_poll-tasks id bound n late rest (again c y) k =
      search (task_frame, expire-tasks, k) depth 20

  wait_loop-tasks :
      (fuel : ℕ) (w : Waiting) (id : ℕ) (bound : Text) (n : ℕ) (c : Candidate)
      (last : Option CiSummary)
      → Keeps (OnTasks P) (wait_loop fuel w id bound n c last)
  unfolding wait_loop
  wait_loop-tasks zero w id bound n c last = search task_frame
  wait_loop-tasks (suc fuel) w id bound n c last = Keeps-if _ _ _ (expire-tasks id c bound n _) (
      Keeps-bind _ _ (poll_once-tasks id _ bound (suc n)) λ p.
        after_poll-tasks id bound (suc n) _ _ p
          (λ d y. wait_loop-tasks fuel w id bound (suc n) d (some y)))

  pub wait_for_exact_candidate_ci-tasks :
      (fuel : ℕ) (w : Option Waiting) (id : ℕ)
      → Keeps (OnTasks P) (wait_for_exact_candidate_ci fuel w id)
  unfolding wait_for_exact_candidate_ci get_candidate
  wait_for_exact_candidate_ci-tasks fuel w id =
      search (task_frame, candidate_rules, ci_event-tasks, wait_loop-tasks) depth 30

  invalidate_stale-tasks : (c : Candidate) (v : ℕ) → Keeps (OnTasks P) (invalidate_stale c v)
  unfolding invalidate_stale
  invalidate_stale-tasks c v = search (task_frame, candidate_rules) depth 20

  pub refresh_candidate_landing-tasks :
      (id : ℕ) (g : GithubClient) → Keeps (OnTasks P) (refresh_candidate_landing id g)
  unfolding refresh_candidate_landing get_candidate
  refresh_candidate_landing-tasks id g =
      search (task_frame, candidate_rules, invalidate_stale-tasks) depth 30

  invalidate_candidate_evidence-tasks :
      (c : Candidate) → Keeps (OnTasks P) (invalidate_candidate_evidence c)
  unfolding invalidate_candidate_evidence list_verifications_for_candidate
      list_reviews_for_candidate
  invalidate_candidate_evidence-tasks c = search (task_frame, candidate_rules) depth 30

  pub invalidate_task_evidence-tasks : (id : ℕ) → Keeps (OnTasks P) (invalidate_task_evidence id)
  unfolding invalidate_task_evidence list_candidates_for_task
  invalidate_task_evidence-tasks id =
      search (task_frame, invalidate_candidate_evidence-tasks) depth 20

  pub reconcile_after_restart-tasks :
      (env : Runtime) (probe : Probe) → Keeps (OnTasks P) (reconcile_after_restart env probe)
  reconcile_after_restart-tasks env probe = record {
    at = λ s h. subst P (sym (ap (λ t. t.tasks) (reconcile_after_restart-rows env probe s))) h;
  }

pub ruleset wait_rules = (
  wait_for_exact_candidate_ci-tasks, refresh_candidate_landing-tasks,
  invalidate_task_evidence-tasks, reconcile_after_restart-tasks,
)
