-- ===== src/Builder/Candidates/Refresh.antt =====
-- The landing of a registered candidate is looked at again (`refreshCandidateLanding`,
-- src/builder/candidate-registry.js).
use jarvis_agencyos.Base.{ℕ, Bool, not, ◌&&◌, ◌||◌, none, some, if◌then◌else◌, same_id, is_some}
use jarvis_agencyos.Exec.{pure, lift, require_some, when, if_some, ◌>>=◌, ◌>>◌}
use jarvis_agencyos.Builder.Contracts.{CandidateStatus}
use jarvis_agencyos.Builder.State.{Candidate, Action, unknown_candidate}
use jarvis_agencyos.Builder.Store.{get_candidate, update_candidate}
use jarvis_agencyos.Builder.Authority.{
  assert_commit_sha, invalidate_verification, invalidate_review, same_text, is_verified,
}
use jarvis_agencyos.Builder.Checks.{GithubClient, Landing, landing_evidence}

-- `evidenceChanged`
abbrev pub evidence_changed : Landing → Candidate → Bool
evidence_changed l c =
    not (same_id c.pr_number (some l.pull_request.number))
    || not (same_text c.pr_url (some l.pull_request.html_url))
    || not (same_text c.ci_status (some l.summary.ci_status))
    || not (same_text c.ci_conclusion l.summary.ci_conclusion)

abbrev pub proposed_again : CandidateStatus → CandidateStatus
proposed_again s = if is_verified s then CandidateStatus.proposed else s

abbrev with_evidence : Landing → Candidate → Candidate
with_evidence l c = record c {
  pr_number = some l.pull_request.number;
  pr_url = some l.pull_request.html_url;
  ci_status = some l.summary.ci_status;
  ci_conclusion = l.summary.ci_conclusion;
  evidence_at = some l.summary.captured_at;
}

-- The row after the refresh; `read` is the row before, and `stripped` says whether it loses its
-- verification.
abbrev pub refreshed : Landing → Candidate → Bool → Candidate → Candidate
refreshed l read stripped c =
    if stripped
    then record (with_evidence l c) {
      status = proposed_again read.status;
      verification_ref = none;
      review_ref = none;
    }
    else with_evidence l c

-- What was verified on other evidence is no longer authoritative.
unfoldable pub invalidate_stale : Candidate → ℕ → Action Unit
invalidate_stale c verification = do
  invalidate_verification verification
  if_some c.review_ref (λ r. invalidate_review r >> pure tt) (pure tt)

-- `refreshCandidateLanding`
unfoldable pub refresh_candidate_landing : ℕ → GithubClient → Action Candidate
refresh_candidate_landing id client = do
  found ← get_candidate id
  c ← require_some found unknown_candidate
  sha ← assert_commit_sha c.commit_sha
  l ← lift (landing_evidence client c sha)
  let changed = evidence_changed l c
  if_some c.verification_ref (λ v. when changed (invalidate_stale c v)) (pure tt)
  update_candidate id (refreshed l c (changed && is_some c.verification_ref))
