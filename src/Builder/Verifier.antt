-- ===== src/Builder/Verifier.antt =====
-- The deterministic verifier (`verifyExactCandidate`, src/builder/verifier.js).
pub mod Overwrite
pub mod Passed
use jarvis_agencyos.Base.{
  ℕ, Bool, true, false, not, ◌&&◌, ◌||◌, Option, none, some, List, [], ◌∷◌, ◌++◌, Text, codes, ◌==◌,
  if◌then◌else◌, is_some, get_or, text_eq, any, select,
}
use jarvis_agencyos.Exec.{
  Result, ok, err, pure, raise, gets, require_some, modify, require, when, for_each, if_some, ◌>>=◌,
  ◌>>◌,
}
use jarvis_agencyos.Builder.Contracts.{
  TaskStatus, CandidateStatus, FailureClass, VerificationResult, EventType, Runtime, is_fenced,
}
use jarvis_agencyos.Builder.State.{
  Task, Candidate, Verification, Review, Snapshot, Action, Error, no_payload, row_record,
  unknown_candidate, missing_sha, candidate_ineligible, missing_run, stale_run, sha_mismatch,
  missing_branch, missing_pr, pr_sha_mismatch, pr_branch_mismatch,
}
use jarvis_agencyos.Builder.Store.{
  new_id, get_task, get_run, get_candidate, update_candidate, insert_verification,
  list_verifications_for_candidate, list_reviews_for_candidate, append_event,
}
use jarvis_agencyos.Builder.Runs.{update_task_status}
use jarvis_agencyos.Builder.Authority.{
  assert_commit_sha, invalidate_verification, invalidate_review,
}
use jarvis_agencyos.Builder.Checks.{
  Check, CiSummary, GithubClient, Landing, PullRequest, Report, check, ci_ok, claim_check, decide,
  decide_authoritative, ensure, gather_checks, github_ci, github_landing, is_fail, is_ok,
  is_unknown, landing_checks, landing_error_ok, landing_evidence, named, need, passes, pr_number_of,
  prefix, report_check,
}

abbrev landed : Option (Result Error Landing) → Option Landing
landed none = none
landed (some (err e)) = none
landed (some (ok l)) = some l

abbrev snapshot_of : Text → Option Landing → Option Snapshot
snapshot_of sha none = none
snapshot_of sha (some l) = some (record {
  commit_sha = sha;
  branch = l.branch;
  pr_number = l.pull_request.number;
  ci_status = l.summary.ci_status;
  ci_conclusion = l.summary.ci_conclusion;
})

abbrev pub with_landing : Landing → Candidate → Candidate
with_landing l c = record c {
  pr_number = some l.pull_request.number;
  pr_url = some l.pull_request.html_url;
  ci_status = some l.summary.ci_status;
  ci_conclusion = l.summary.ci_conclusion;
  evidence_at = some l.summary.captured_at;
}

abbrev pub is_ineligible : CandidateStatus → Bool
is_ineligible CandidateStatus.superseded = true
is_ineligible CandidateStatus.rejected = true
is_ineligible _ = false

abbrev pub status_after : VerificationResult → CandidateStatus
status_after VerificationResult.pass = CandidateStatus.verified
status_after VerificationResult.fail = CandidateStatus.rejected
status_after VerificationResult.blocked = CandidateStatus.verifying

abbrev pub is_passed : VerificationResult → Bool
is_passed VerificationResult.pass = true
is_passed _ = false

abbrev pub is_accepted : TaskStatus → Bool
is_accepted TaskStatus.accepted = true
is_accepted _ = false

-- `invalidatePriorVerifications`
unfoldable pub invalidate_prior_verifications : ℕ → Action Unit
invalidate_prior_verifications id = do
  prior ← list_verifications_for_candidate id
  for_each prior (λ v.
      when (not (is_some v.invalidated_at)) (invalidate_verification v.verification_id >> pure tt))

-- `invalidatePriorReviews`
unfoldable pub invalidate_prior_reviews : ℕ → Action Unit
invalidate_prior_reviews id = do
  prior ← list_reviews_for_candidate id
  for_each prior
      (λ r. when (not (is_some r.invalidated_at)) (invalidate_review r.review_id >> pure tt))
  found ← get_candidate id
  if_some found
      (λ c.
        when (is_some c.review_ref)
          (update_candidate id (λ d. record d { review_ref = none }) >> pure tt))
      (pure tt)

-- What surrounds a verification: the client, if there is one, the reports of the task's tests and of
-- the build, and whether the worker claims success.
pub record Surroundings : Type 0 where
  pub client : Option GithubClient
  pub tests : Option Report
  pub build : Option Report
  pub claimed : Bool

abbrev pub evidence : Option GithubClient → Candidate → Text → Option (Result Error Landing)
evidence none c sha = none
evidence (some client) c sha = some (landing_evidence client c sha)

abbrev pub the_checks : Surroundings → Candidate → Text → List Check
the_checks w c sha = gather_checks w.claimed w.tests w.build (evidence w.client c sha)

module _ (env : Runtime) where
  -- The task of a passed candidate becomes VERIFIED, and is never accepted here.
  unfoldable pub mark_verified : ℕ → Action Unit
  mark_verified task_id = do
    found ← get_task task_id
    if_some found
        (λ t.
          when (not (is_accepted t.status))
            (update_task_status env task_id TaskStatus.verified >> pure tt))
        (pure tt)

  -- The verdict is written down.
  unfoldable pub record_verdict : Candidate → Text → Surroundings → Action VerificationResult
  record_verdict c sha w = do
    let landing = landed (evidence w.client c sha)
    let verdict = decide (the_checks w c sha)
    if_some landing (λ l. update_candidate c.candidate_id (with_landing l) >> pure tt) (pure tt)
    id ← new_id
    time ← gets (λ s. s.now)
    verification ← insert_verification (record {
      verification_id = id;
      candidate_id = c.candidate_id;
      commit_sha = sha;
      result = verdict.0;
      snapshot = snapshot_of sha landing;
      failure_class = verdict.1;
      created_at = time;
      invalidated_at = none;
    })
    update_candidate c.candidate_id (λ d. record d {
      status = status_after verdict.0;
      verification_ref = some verification.verification_id;
    })
    when (is_passed verdict.0) (mark_verified c.task_id)
    append_event (some c.task_id) (some c.factory_run_id) EventType.verification_recorded
        (row_record verification.verification_id)
    pure verdict.0

  -- `verifyExactCandidate`
  unfoldable pub verify_exact_candidate : ℕ → Surroundings → Action VerificationResult
  verify_exact_candidate id w = do
    found ← get_candidate id
    c ← require_some found unknown_candidate
    require (is_some c.commit_sha) missing_sha
    require (not (is_ineligible c.status)) candidate_ineligible
    row ← get_run c.factory_run_id
    run ← require_some row missing_run
    when (is_fenced run.status) do
      append_event (some c.task_id) (some c.factory_run_id) EventType.stale_run_rejected no_payload
      raise stale_run
    invalidate_prior_verifications id
    invalidate_prior_reviews id
    sha ← assert_commit_sha c.commit_sha
    record_verdict c sha w
