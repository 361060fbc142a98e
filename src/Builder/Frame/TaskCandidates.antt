-- ===== src/Builder/Frame/TaskCandidates.antt =====
-- The operations on candidates, verifications, reviews and approvals write no task.
use jarvis_agencyos.Base.{ℕ, Option, List, Text}
use jarvis_agencyos.Exec.Keeps.{Keeps}
use jarvis_agencyos.Builder.Contracts.{Runtime, ApprovalStatus}
use jarvis_agencyos.Builder.State.{Task, Candidate, Approval}
use jarvis_agencyos.Builder.Store.{
  get_task, get_run, get_candidate, get_verification, get_review, list_candidates_for_task,
  list_approvals_for_task, list_verifications_for_candidate, list_reviews_for_candidate,
}
use jarvis_agencyos.Builder.Authority.{
  assert_commit_sha, invalidate_verification, invalidate_review,
}
use jarvis_agencyos.Builder.Candidates.{
  CandidateInput, quietly, invalidate_approval, supersede, register_exact_candidate,
  record_approval,
}
use jarvis_agencyos.Builder.Verifier.{invalidate_prior_verifications, invalidate_prior_reviews}
use jarvis_agencyos.Builder.Frame.Tasks.{OnTasks, task_frame}
use jarvis_agencyos.Builder.Frame.TaskRuns.{get_current_coding_run-tasks}

module _ (P : List Task → Type 0) where
  pub invalidate_verification-tasks : (id : ℕ) → Keeps (OnTasks P) (invalidate_verification id)
  unfolding invalidate_verification quietly get_task get_run get_candidate get_verification
      get_review list_candidates_for_task list_approvals_for_task list_verifications_for_candidate
      list_reviews_for_candidate
  invalidate_verification-tasks id = search task_frame depth 30

  pub invalidate_review-tasks : (id : ℕ) → Keeps (OnTasks P) (invalidate_review id)
  unfolding invalidate_review quietly get_task get_run get_candidate get_verification get_review
      list_candidates_for_task list_approvals_for_task list_verifications_for_candidate
      list_reviews_for_candidate
  invalidate_review-tasks id = search task_frame depth 30

  pub assert_commit_sha-tasks : (o : Option Text) → Keeps (OnTasks P) (assert_commit_sha o)
  unfolding assert_commit_sha quietly get_task get_run get_candidate get_verification get_review
      list_candidates_for_task list_approvals_for_task list_verifications_for_candidate
      list_reviews_for_candidate
  assert_commit_sha-tasks o = search task_frame depth 30

  pub invalidate_approval-tasks :
      (t r c : ℕ) (a : Approval) → Keeps (OnTasks P) (invalidate_approval t r c a)
  unfolding invalidate_approval quietly get_task get_run get_candidate get_verification get_review
      list_candidates_for_task list_approvals_for_task list_verifications_for_candidate
      list_reviews_for_candidate
  invalidate_approval-tasks t r c a = search task_frame depth 30

  pub supersede-tasks :
      (t r : ℕ) (sha : Text) (c : Candidate) → Keeps (OnTasks P) (supersede t r sha c)
  unfolding supersede quietly get_task get_run get_candidate get_verification get_review
      list_candidates_for_task list_approvals_for_task list_verifications_for_candidate
      list_reviews_for_candidate
  supersede-tasks t r sha c =
      search
        (
          task_frame, invalidate_verification-tasks, invalidate_review-tasks,
          invalidate_approval-tasks,
        )
        depth 30

  pub register_exact_candidate-tasks :
      (env : Runtime) (i : CandidateInput) → Keeps (OnTasks P) (register_exact_candidate env i)
  unfolding register_exact_candidate quietly get_task get_run get_candidate get_verification
      get_review list_candidates_for_task list_approvals_for_task list_verifications_for_candidate
      list_reviews_for_candidate
  register_exact_candidate-tasks env i =
      search (task_frame, get_current_coding_run-tasks, assert_commit_sha-tasks, supersede-tasks)
        depth 30

  pub record_approval-tasks :
      (env : Runtime) (t : ℕ) (by : Text) (c : Option ℕ) (sha : Option Text) (st : ApprovalStatus)
      → Keeps (OnTasks P) (record_approval env t by c sha st)
  unfolding record_approval quietly get_task get_run get_candidate get_verification get_review
      list_candidates_for_task list_approvals_for_task list_verifications_for_candidate
      list_reviews_for_candidate
  record_approval-tasks env t by c sha st = search (task_frame, assert_commit_sha-tasks) depth 30

  pub invalidate_prior_verifications-tasks :
      (id : ℕ) → Keeps (OnTasks P) (invalidate_prior_verifications id)
  unfolding invalidate_prior_verifications quietly get_task get_run get_candidate get_verification
      get_review list_candidates_for_task list_approvals_for_task list_verifications_for_candidate
      list_reviews_for_candidate
  invalidate_prior_verifications-tasks id =
      search (task_frame, invalidate_verification-tasks) depth 30

  pub invalidate_prior_reviews-tasks : (id : ℕ) → Keeps (OnTasks P) (invalidate_prior_reviews id)
  unfolding invalidate_prior_reviews quietly get_task get_run get_candidate get_verification
      get_review list_candidates_for_task list_approvals_for_task list_verifications_for_candidate
      list_reviews_for_candidate
  invalidate_prior_reviews-tasks id = search (task_frame, invalidate_review-tasks) depth 30

pub ruleset candidate_rules = (
  invalidate_verification-tasks, invalidate_review-tasks, assert_commit_sha-tasks,
  invalidate_approval-tasks, supersede-tasks, register_exact_candidate-tasks, record_approval-tasks,
  invalidate_prior_verifications-tasks, invalidate_prior_reviews-tasks,
)
