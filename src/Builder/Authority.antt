-- ===== src/Builder/Authority.antt =====
-- When a verification or a review still has authority, and its invalidation (src/builder/verifier.js,
-- src/builder/codex-review.js).
use jarvis_agencyos.Base.{
  ℕ, zero, suc, Bool, true, false, not, ◌&&◌, ◌||◌, Option, none, some, [], ◌∷◌, Text,
  if◌then◌else◌, same_id, is_some, text_eq, leb,
}
use jarvis_agencyos.Exec.{pure, gets, require_some, require, ◌>>=◌, ◌>>◌}
use jarvis_agencyos.Builder.Contracts.{ReviewStatus, CandidateStatus, VerificationResult, EventType}
use jarvis_agencyos.Builder.State.{
  Candidate, Verification, Review, Snapshot, Builder, Action, row_record, unknown_verification,
  unknown_review, invalid_commit_sha,
}
use jarvis_agencyos.Builder.Store.{
  find_candidate, find_verification, find_review, get_candidate, get_verification, get_review,
  update_verification, update_review, append_event,
}

abbrev hex_unit : ℕ → Bool
hex_unit c = (leb 48 c && leb c 57) || (leb 97 c && leb c 102)

unfoldable pub hex_text : ℕ → Text → Bool
hex_text zero [] = true
hex_text zero (c ∷ s) = false
hex_text (suc n) [] = false
hex_text (suc n) (c ∷ s) = hex_unit c && hex_text n s

-- `/^[0-9a-f]{40}$/`
abbrev pub is_commit_sha : Text → Bool
is_commit_sha = hex_text 40

-- `assertCommitSha`, on a value that may be no text
unfoldable pub assert_commit_sha : Option Text → Action Text
assert_commit_sha value = do
  sha ← require_some value invalid_commit_sha
  require (is_commit_sha sha) invalid_commit_sha
  pure sha

abbrev pub same_text : Option Text → Option Text → Bool
same_text none none = true
same_text none (some t) = false
same_text (some s) none = false
same_text (some s) (some t) = text_eq s t

abbrev pub is_verified : CandidateStatus → Bool
is_verified CandidateStatus.verified = true
is_verified _ = false

abbrev is_pass : VerificationResult → Bool
is_pass VerificationResult.pass = true
is_pass _ = false

abbrev pub is_review_pass : ReviewStatus → Bool
is_review_pass ReviewStatus.pass = true
is_review_pass _ = false

-- The landing evidence captured at PASS is still the candidate's.
pub matches_snapshot : Candidate → Option Snapshot → Bool
matches_snapshot c none = false
matches_snapshot c (some snap) =
    same_text (some snap.commit_sha) c.commit_sha
    && same_text (some snap.branch) c.branch
    && same_id (some snap.pr_number) c.pr_number
    && same_text (some snap.ci_status) c.ci_status
    && same_text snap.ci_conclusion c.ci_conclusion

unfoldable pub binds : ℕ → Verification → Option Candidate → Bool
unfolding matches_snapshot
binds id v none = false
binds id v (some c) =
    is_verified c.status
    && same_id c.verification_ref (some id)
    && same_text c.commit_sha (some v.commit_sha)
    && matches_snapshot c v.snapshot

-- `isVerificationAuthoritative`
unfoldable pub is_verification_authoritative : Builder → ℕ → Bool
unfolding binds
is_verification_authoritative s id = elim (find_verification id s.verifications) [
  | none ↦ false
  | some v ↦
      not (is_some v.invalidated_at)
      && is_pass v.result
      && binds id v (find_candidate v.candidate_id s.candidates)
]

-- The review's candidate, its verification and the review itself are still bound to one another.
pub review_binds : Builder → ℕ → Review → Option Candidate → Bool
review_binds s id r none = false
review_binds s id r (some c) =
    is_verified c.status
    && same_id c.review_ref (some id)
    && same_text c.commit_sha (some r.commit_sha)
    && (elim c.verification_ref [
      | none ↦ false
      | some ver ↦ same_id r.verification_ref (some ver) && is_verification_authoritative s ver
    ])

-- `isReviewAuthoritative`
unfoldable pub is_review_authoritative : Builder → ℕ → Bool
unfolding review_binds is_verification_authoritative
is_review_authoritative s id = elim (find_review id s.reviews) [
  | none ↦ false
  | some r ↦
      not (is_some r.invalidated_at)
      && is_review_pass r.review_status
      && review_binds s id r (find_candidate r.candidate_id s.candidates)
]

abbrev task_of : Option Candidate → Option ℕ
task_of none = none
task_of (some c) = some c.task_id

abbrev run_of : Option Candidate → Option ℕ
run_of none = none
run_of (some c) = some c.factory_run_id

-- `invalidateVerification`
unfoldable pub invalidate_verification : ℕ → Action Verification
invalidate_verification id = do
  found ← get_verification id
  v ← require_some found unknown_verification
  if is_some v.invalidated_at then pure v else do
    time ← gets (λ s. s.now)
    updated ← update_verification id (λ w. record w { invalidated_at = some time })
    candidate ← get_candidate v.candidate_id
    append_event (task_of candidate) none EventType.verification_invalidated (row_record id)
    pure updated

-- `invalidateReview`
unfoldable pub invalidate_review : ℕ → Action Review
invalidate_review id = do
  found ← get_review id
  r ← require_some found unknown_review
  time ← gets (λ s. s.now)
  updated ← update_review id (λ q. record q { invalidated_at = some time })
  candidate ← get_candidate r.candidate_id
  append_event (task_of candidate) (run_of candidate) EventType.review_invalidated (row_record id)
  pure updated
