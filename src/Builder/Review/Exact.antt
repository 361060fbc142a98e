-- ===== src/Builder/Review/Exact.antt =====
-- The independent review of one exact candidate (`reviewExactCandidate`, src/builder/codex-review.js).
-- The reviewer is a program beside the repository's: its answer is an argument.
use jarvis_agencyos.Base.{
  ℕ, Bool, true, false, not, ◌&&◌, ◌||◌, Option, none, some, List, [], ◌∷◌, Text, codes, ◌==◌,
  if◌then◌else◌, same_id, text_eq, has_text,
}
use jarvis_agencyos.Exec.{
  Result, ok, err, pure, raise, lift, gets, require_some, require, when, if_some, ◌>>=◌, ◌>>◌,
}
use jarvis_agencyos.Builder.Contracts.{
  TaskStatus, CandidateStatus, ReviewStatus, EventType, Runtime, is_fenced,
}
use jarvis_agencyos.Builder.State.{
  Task, Candidate, Verification, Review, Action, Error, no_payload, row_record, unknown_candidate,
  unknown_task, missing_run, stale_run, sha_mismatch, verifier_required_first,
  reviewer_mutation_forbidden, type_error,
}
use jarvis_agencyos.Builder.Store.{
  new_id, get_task, get_run, get_candidate, get_verification, insert_review, update_candidate,
  append_event,
}
use jarvis_agencyos.Builder.Runs.{update_task_status}
use jarvis_agencyos.Builder.Authority.{assert_commit_sha, is_verification_authoritative}
use jarvis_agencyos.Builder.Review.{Decision, evaluate_review_gate}

-- What the reviewer's program left: it failed, or it ended with an output, which may be a review.
pub data Invoked : Type 0 where
  invoke_failed : Invoked
  output : Option ReviewStatus → Invoked

-- `none` where there is no reviewer; the diff or the call may throw.
abbrev pub Invoker : Type 0
Invoker = Option (Result Error Invoked)

pub record Reviewed : Type 0 where
  pub review : Review
  pub gate : Decision

abbrev pub is_blocked : TaskStatus → Bool
is_blocked TaskStatus.blocked = true
is_blocked _ = false

-- A review is written, and becomes the candidate's.
unfoldable pub add_review : ℕ → Text → ReviewStatus → Option ℕ → Action Review
add_review candidate_id sha status verification_ref = do
  id ← new_id
  time ← gets (λ s. s.now)
  review ← insert_review (record {
    review_id = id;
    candidate_id = candidate_id;
    commit_sha = sha;
    review_status = status;
    verification_ref = verification_ref;
    reviewed_at = time;
    invalidated_at = none;
  })
  update_candidate candidate_id (λ c. record c { review_ref = some review.review_id })
  pure review

abbrev pub gated : Task → Verification → Review → Reviewed
gated task ver review = record {
  review = review;
  gate = evaluate_review_gate task.review_required (some ver) (some review);
}

unfoldable pub review_event : Task → Candidate → EventType → Review → Action Unit
review_event task c event review =
    append_event (some task.task_id) (some c.factory_run_id) event (row_record review.review_id)

abbrev pub is_request : ReviewStatus → Bool
is_request ReviewStatus.request_changes = true
is_request _ = false

-- A verification that the caller presents is the candidate's own.
abbrev pub presented_is : Option (Option ℕ) → Option ℕ → Bool
presented_is none own = true
presented_is (some none) own = false
presented_is (some (some id)) own = same_id (some id) own

unfoldable pub stored_verification : Candidate → Action (Option Verification)
stored_verification c = if_some c.verification_ref get_verification (pure none)

module _ (env : Runtime) where
  -- The task is BLOCKED, and read again for the gate.
  unfoldable pub block_task : Task → Verification → Review → Action Reviewed
  block_task task ver review = do
    when (not (is_blocked task.status))
        (update_task_status env task.task_id TaskStatus.blocked >> pure tt)
    found ← get_task task.task_id
    row ← require_some found type_error
    pure (gated row ver review)

  -- What is made of a reviewer's answer.
  unfoldable pub settle_review : Task → Candidate → Text → Verification → Invoked → Action Reviewed
  settle_review task c sha ver invoke_failed = do
    review ← add_review c.candidate_id sha ReviewStatus.blocked none
    review_event task c EventType.review_recorded review
    block_task task ver review
  settle_review task c sha ver (output none) = do
    review ← add_review c.candidate_id sha ReviewStatus.blocked none
    block_task task ver review
  settle_review task c sha ver (output (some status)) = do
    review ← add_review c.candidate_id sha status (some ver.verification_id)
    review_event task c EventType.review_recorded review
    found ← get_task task.task_id
    row ← require_some found type_error
    let reviewed = gated row ver review
    when (not reviewed.gate.allowed && is_request status) (
        update_candidate c.candidate_id (λ d. record d { status = CandidateStatus.rejected })
        >> pure tt)
    pure reviewed

  -- No review is asked for: the verifier's PASS stands alone.
  unfoldable pub bypass_review : Task → Candidate → Text → Verification → Action Reviewed
  bypass_review task c sha ver = do
    review ← add_review c.candidate_id sha ReviewStatus.pass (some ver.verification_id)
    review_event task c EventType.review_bypassed review
    pure (gated task ver review)

  unfoldable pub ask_reviewer : Task → Candidate → Text → Verification → Invoker → Action Reviewed
  ask_reviewer task c sha ver none = do
    review ← add_review c.candidate_id sha ReviewStatus.blocked none
    pure (gated task ver review)
  ask_reviewer task c sha ver (some answer) = do
    invoked ← lift answer
    settle_review task c sha ver invoked

  -- `reviewExactCandidate`; a verification that is presented counts by its identifier.
  unfoldable pub review_exact_candidate : ℕ → Invoker → Option (Option ℕ) → Action Reviewed
  review_exact_candidate candidate_id invoker presented = do
    found ← get_candidate candidate_id
    c ← require_some found unknown_candidate
    owner ← get_task c.task_id
    task ← require_some owner unknown_task
    row ← get_run c.factory_run_id
    run ← require_some row missing_run
    when (is_fenced run.status) do
      append_event (some task.task_id) (some run.factory_run_id) EventType.stale_run_rejected
          no_payload
      raise stale_run
    sha ← assert_commit_sha c.commit_sha
    require (presented_is presented c.verification_ref) verifier_required_first
    stored ← stored_verification c
    ver ← require_some stored verifier_required_first
    authoritative ← gets (λ s. is_verification_authoritative s ver.verification_id)
    require authoritative verifier_required_first
    require (text_eq ver.commit_sha sha && (ver.candidate_id == candidate_id)) sha_mismatch
    if not task.review_required
        then bypass_review task c sha ver
        else ask_reviewer task c sha ver invoker

-- The fields of a patch by its keys; `commit_sha` counts when it has a value.
abbrev reviewer_forbidden : List Text
reviewer_forbidden =
    codes "intent"
    ∷ codes "acceptance_ref"
    ∷ codes "allowed_paths"
    ∷ codes "tool_manifest"
    ∷ codes "content_hash"
    ∷ codes "proposal_id"
    ∷ codes "review_required"
    ∷ []

unfoldable pub has_forbidden : List Text → Bool
has_forbidden [] = false
has_forbidden (k ∷ ks) = has_text k reviewer_forbidden || has_forbidden ks

-- `assertReviewerCannotMutate`
unfoldable pub assert_reviewer_cannot_mutate : List Text → Option Text → Result Error Unit
unfolding has_forbidden
assert_reviewer_cannot_mutate keys commit_sha =
    if has_forbidden keys then err reviewer_mutation_forbidden else elim commit_sha [
      | none ↦ ok tt
      | some [] ↦ ok tt
      | some (c ∷ t) ↦ err reviewer_mutation_forbidden
    ]
