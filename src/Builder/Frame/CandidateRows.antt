-- ===== src/Builder/Frame/CandidateRows.antt =====
-- The task and the commit of a candidate's row: nothing but its registration writes them.
use jarvis_agencyos.Base.{ℕ, zero, suc, ◌≡◌, refl, Bool, true, false, Option, some, List, Text}
use jarvis_agencyos.Exec.Keeps.{Keeps, Keeps-modify, Keeps-bind, Keeps-if, keeps_rules}
use jarvis_agencyos.Builder.Contracts.{Runtime, EventType}
use jarvis_agencyos.Builder.State.{Candidate, Verification, Builder, Action}
use jarvis_agencyos.Builder.Store.{
  find_candidate, get_candidate, get_run, insert_candidate, update_candidate, insert_verification,
  list_verifications_for_candidate, list_reviews_for_candidate,
}
use jarvis_agencyos.Builder.Candidates.Refresh.{
  refreshed, invalidate_stale, refresh_candidate_landing,
}
use jarvis_agencyos.Builder.Checks.{GithubClient, Landing, PullRequest, CiSummary}
use jarvis_agencyos.Builder.Landing.{Host}
use jarvis_agencyos.Builder.CiWait.{
  WaitOutcome, Waiting, WaitResult, Polled, finished, again, ci_event, invalidate_refs, finish_wait,
  poll_ci, poll_pull_request, poll_once, expire, after_poll, wait_loop, wait_for_exact_candidate_ci,
}
use jarvis_agencyos.Builder.Landed.{wait_for_ci}
use jarvis_agencyos.Builder.Verifier.{
  Surroundings, mark_verified, invalidate_prior_verifications, invalidate_prior_reviews,
  record_verdict, verify_exact_candidate,
}
use jarvis_agencyos.Builder.Frame.Candidates.{
  OnCandidates, candidate_frame, invalidate_verification-candidates, invalidate_review-candidates,
  assert_commit_sha-candidates, update_task_status-candidates,
}

-- A patch of neither the task nor the commit.
abbrev pub SameTarget : (Candidate → Candidate) → Type 0
SameTarget f = (c : Candidate) → ((f c).task_id ≡ c.task_id) × ((f c).commit_sha ≡ c.commit_sha)

refreshed-SameTarget : (l : Landing) (read : Candidate) (b : Bool) → SameTarget (refreshed l read b)
refreshed-SameTarget l read true c = (refl, refl)
refreshed-SameTarget l read false c = (refl, refl)

ruleset invalidating = (
  candidate_frame, invalidate_verification-candidates, invalidate_review-candidates,
  assert_commit_sha-candidates,
)

module _ (P : List Candidate → Type 0)
    (edits : (id : ℕ) (f : Candidate → Candidate)
      → SameTarget f
      → Keeps (OnCandidates P) (update_candidate id f)) where
  ci_event-candidates :
      (c : Candidate) (e : EventType) (sha : Text) (n : ℕ)
      → Keeps (OnCandidates P) (ci_event c e sha n)
  unfolding ci_event
  ci_event-candidates c e sha n = search candidate_frame

  invalidate_refs-candidates : (c : Candidate) → Keeps (OnCandidates P) (invalidate_refs c)
  unfolding invalidate_refs
  invalidate_refs-candidates c = search invalidating depth 20

  finish_wait-candidates :
      (id : ℕ) (c : Candidate) (sha : Text) (o : WaitOutcome) (n : ℕ) (y : CiSummary)
      → Keeps (OnCandidates P) (finish_wait id c sha o n y)
  unfolding finish_wait get_candidate
  finish_wait-candidates id c sha o n y = search (invalidating, edits, ci_event-candidates) depth 20

  poll_ci-candidates :
      (id : ℕ) (h : Host) (c : Candidate) (sha : Text) (n : ℕ) (pr : PullRequest)
      → Keeps (OnCandidates P) (poll_ci id h c sha n pr)
  unfolding poll_ci
  poll_ci-candidates id h c sha n pr =
      search (invalidating, edits, ci_event-candidates, finish_wait-candidates) depth 20

  poll_pull_request-candidates :
      (id : ℕ) (h : Host) (c : Candidate) (sha : Text) (n : ℕ)
      → Keeps (OnCandidates P) (poll_pull_request id h c sha n)
  unfolding poll_pull_request
  poll_pull_request-candidates id h c sha n =
      search (candidate_frame, ci_event-candidates, invalidate_refs-candidates, poll_ci-candidates)
        depth 30

  poll_once-candidates :
      (id : ℕ) (h : Host) (bound : Text) (n : ℕ) → Keeps (OnCandidates P) (poll_once id h bound n)
  unfolding poll_once get_candidate
  poll_once-candidates id h bound n =
      search
        (
          candidate_frame, assert_commit_sha-candidates, ci_event-candidates,
          poll_pull_request-candidates,
        )
        depth 30

  expire-candidates :
      (id : ℕ) (c : Candidate) (sha : Text) (n : ℕ) (y : CiSummary)
      → Keeps (OnCandidates P) (expire id c sha n y)
  unfolding expire
  expire-candidates id c sha n y = search (candidate_frame, finish_wait-candidates) depth 20

  after_poll-candidates :
      (id : ℕ) (bound : Text) (n : ℕ) (late : Bool)
      (rest : Candidate → CiSummary → Action (Option WaitResult)) (p : Polled)
      → ((c : Candidate) (y : CiSummary) → Keeps (OnCandidates P) (rest c y))
      → Keeps (OnCandidates P) (after_poll id bound n late rest p)
  after_poll-candidates id bound n late rest (finished r) k = search candidate_frame
  after_poll-candidates id bound n late rest (again c y) k =
      search (candidate_frame, expire-candidates, k) depth 20

  wait_loop-candidates :
      (fuel : ℕ) (w : Waiting) (id : ℕ) (bound : Text) (n : ℕ) (c : Candidate)
      (last : Option CiSummary)
      → Keeps (OnCandidates P) (wait_loop fuel w id bound n c last)
  unfolding wait_loop
  wait_loop-candidates zero w id bound n c last = search candidate_frame
  wait_loop-candidates (suc fuel) w id bound n c last =
      Keeps-if _ _ _ (expire-candidates id c bound n _) (
        Keeps-bind _ _ (poll_once-candidates id _ bound (suc n)) λ p.
          after_poll-candidates id bound (suc n) _ _ p
            (λ d y. wait_loop-candidates fuel w id bound (suc n) d (some y)))

  pub wait_for_ci-candidates : (w : Waiting) (id : ℕ) → Keeps (OnCandidates P) (wait_for_ci w id)
  unfolding wait_for_ci wait_for_exact_candidate_ci get_candidate
  wait_for_ci-candidates w id =
      search
        (candidate_frame, assert_commit_sha-candidates, ci_event-candidates, wait_loop-candidates)
        depth 30

  pub refresh_candidate_landing-candidates :
      (id : ℕ) (g : GithubClient) → Keeps (OnCandidates P) (refresh_candidate_landing id g)
  unfolding refresh_candidate_landing invalidate_stale get_candidate
  refresh_candidate_landing-candidates id g =
      search (invalidating, edits, refreshed-SameTarget) depth 30

  prior-candidates : (id : ℕ) → Keeps (OnCandidates P) (invalidate_prior_verifications id)
  unfolding invalidate_prior_verifications list_verifications_for_candidate
  prior-candidates id = search invalidating depth 30

  prior_reviews-candidates : (id : ℕ) → Keeps (OnCandidates P) (invalidate_prior_reviews id)
  unfolding invalidate_prior_reviews list_reviews_for_candidate get_candidate
  prior_reviews-candidates id = search (invalidating, edits) depth 30

  insert_verification-candidates :
      (v : Verification) → Keeps (OnCandidates P) (insert_verification v)
  unfolding insert_verification
  insert_verification-candidates v = search (keeps_rules, Keeps-modify, same) depth 20
    where
      same : (s : Builder) → P s.candidates → P s.candidates
      same s h = h

  mark_verified-candidates :
      (env : Runtime) (id : ℕ) → Keeps (OnCandidates P) (mark_verified env id)
  unfolding mark_verified jarvis_agencyos.Builder.Store.get_task
  mark_verified-candidates env id = search (candidate_frame, update_task_status-candidates) depth 20

  record_verdict-candidates :
      (env : Runtime) (c : Candidate) (sha : Text) (w : Surroundings)
      → Keeps (OnCandidates P) (record_verdict env c sha w)
  unfolding record_verdict
  record_verdict-candidates env c sha w =
      search (invalidating, edits, insert_verification-candidates, mark_verified-candidates) depth
        30

  pub verify_exact_candidate-candidates :
      (env : Runtime) (id : ℕ) (w : Surroundings)
      → Keeps (OnCandidates P) (verify_exact_candidate env id w)
  unfolding verify_exact_candidate get_candidate get_run
  verify_exact_candidate-candidates env id w =
      search
        (
          candidate_frame, assert_commit_sha-candidates, prior-candidates, prior_reviews-candidates,
          record_verdict-candidates,
        )
        depth 30
