-- ===== src/Builder/Review.antt =====
-- The gate that a candidate passes on its verification and its review (`evaluateReviewGate`,
-- src/builder/codex-review.js).
pub mod Gate
pub mod Exact
use jarvis_agencyos.Base.{
  ℕ, Bool, true, false, not, Option, none, some, ◌==◌, if◌then◌else◌, is_some, text_eq,
}
use jarvis_agencyos.Builder.Contracts.{VerificationResult, ReviewStatus}
use jarvis_agencyos.Builder.State.{Verification, Review}

pub data GateReason : Type 0 where
  verification_missing_or_invalid verification_not_pass review_not_required review_missing
        review_invalidated review_sha_mismatch review_candidate_mismatch codex_pass request_changes
        review_blocked :
      GateReason

pub data GateStatus : Type 0 where
  gate_pass gate_fail gate_blocked : GateStatus

pub record Decision : Type 0 where
  pub allowed : Bool
  pub status : GateStatus
  pub reason : GateReason

abbrev shut : GateStatus → GateReason → Decision
shut status reason = record { allowed = false; status = status; reason = reason }

abbrev pub on_status : ReviewStatus → Decision
on_status ReviewStatus.pass = record { allowed = true; status = gate_pass; reason = codex_pass }
on_status ReviewStatus.request_changes = shut gate_fail request_changes
on_status ReviewStatus.blocked = shut gate_blocked review_blocked

abbrev pub on_review : Verification → Option Review → Decision
on_review v none = shut gate_blocked review_missing
on_review v (some r) =
    if is_some r.invalidated_at
    then shut gate_blocked review_invalidated
    else if not (text_eq r.commit_sha v.commit_sha)
    then shut gate_blocked review_sha_mismatch
    else if not (r.candidate_id == v.candidate_id)
    then shut gate_blocked review_candidate_mismatch
    else on_status r.review_status

abbrev pub on_result : VerificationResult → Bool → Verification → Option Review → Decision
on_result VerificationResult.fail required v r = shut gate_fail verification_not_pass
on_result VerificationResult.blocked required v r = shut gate_blocked verification_not_pass
on_result VerificationResult.pass false v r = record {
  allowed = true;
  status = gate_pass;
  reason = review_not_required;
}
on_result VerificationResult.pass true v r = on_review v r

-- `evaluateReviewGate`; `allowed` is its `ok`.
unfoldable pub evaluate_review_gate : Bool → Option Verification → Option Review → Decision
evaluate_review_gate required none r = shut gate_blocked verification_missing_or_invalid
evaluate_review_gate required (some v) r =
    if is_some v.invalidated_at
    then shut gate_blocked verification_missing_or_invalid
    else on_result v.result required v r
