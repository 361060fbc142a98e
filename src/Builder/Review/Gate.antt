-- ===== src/Builder/Review/Gate.antt =====
-- The conditions of evaluateReviewGate (src/builder/codex-review.js).
use jarvis_agencyos.Base.{
  ℕ, ◌≡◌, refl, Bool, true, false, Option, none, some, ◌==◌, ==_iff, is_some, text_eq,
  text_eq_sound, arith, Bool-cases, inl, inr,
}
use jarvis_agencyos.Builder.Contracts.{VerificationResult, ReviewStatus}
use jarvis_agencyos.Builder.State.{Verification, Review}
use jarvis_agencyos.Builder.Review.{evaluate_review_gate, on_review, on_result, on_status}

-- A review that stands and passed, of the verification's candidate and commit.
pub record PassedReview (v : Verification) (o : Option Review) : Type 0 where
  pub review : Review
  pub there : o ≡ some review
  pub standing : review.invalidated_at ≡ none
  pub same_commit : review.commit_sha ≡ v.commit_sha
  pub same_candidate : review.candidate_id ≡ v.candidate_id
  pub passed : review.review_status ≡ ReviewStatus.pass

true≢false : false ≡ true → ⊥
true≢false h = ground arith

is_some-none : (t : Option ℕ) → is_some t ≡ false → t ≡ none
is_some-none none h = refl
is_some-none (some t) h = ground arith

on_status-pass : (st : ReviewStatus) → (on_status st).allowed ≡ true → st ≡ ReviewStatus.pass
on_status-pass ReviewStatus.pass h = refl
on_status-pass ReviewStatus.request_changes h = ground arith
on_status-pass ReviewStatus.blocked h = ground arith

on_review-PassedReview :
    (v : Verification) (o : Option Review) → (on_review v o).allowed ≡ true → PassedReview v o
on_review-PassedReview v none h = ground arith
on_review-PassedReview v (some r) h = elim (Bool-cases (is_some r.invalidated_at)) [
  | inl a ↦ absurd (true≢false (rw a at h))
  | inr a ↦ elim (Bool-cases (text_eq r.commit_sha v.commit_sha)) [
    | inr b ↦ absurd (true≢false (rw (a, b) at h))
    | inl b ↦ elim (Bool-cases (r.candidate_id == v.candidate_id)) [
      | inr c ↦ absurd (true≢false (rw (a, b, c) at h))
      | inl c ↦ record {
        review = r;
        there = refl;
        standing = is_some-none r.invalidated_at a;
        same_commit = text_eq_sound r.commit_sha v.commit_sha b;
        same_candidate = (==_iff r.candidate_id v.candidate_id).0 c;
        passed = on_status-pass r.review_status (rw (a, b, c) at h);
      }
    ]
  ]
]

on_result-pass :
    (x : VerificationResult) (required : Bool) (v : Verification) (o : Option Review)
    → (on_result x required v o).allowed ≡ true
    → (x ≡ VerificationResult.pass) × (required ≡ true → PassedReview v o)
on_result-pass VerificationResult.pass true v o h = (refl, λ e. on_review-PassedReview v o h)
on_result-pass VerificationResult.pass false v o h = (refl, λ e. ground arith)
on_result-pass VerificationResult.fail required v o h = absurd (true≢false h)
on_result-pass VerificationResult.blocked required v o h = absurd (true≢false h)

-- The gate opens only on a verification that stands and passed, and, when the task requires a review,
-- only with a review that stands and passed, of the same candidate and the same commit.
pub evaluate_review_gate-allowed :
    (required : Bool) (o : Option Verification) (r : Option Review)
    → (evaluate_review_gate required o r).allowed ≡ true
    → (v : Verification) × (o ≡ some v)
      × (v.invalidated_at ≡ none)
      × (v.result ≡ VerificationResult.pass)
      × (required ≡ true → PassedReview v r)
unfolding evaluate_review_gate
evaluate_review_gate-allowed required none r h = absurd (true≢false h)
evaluate_review_gate-allowed required (some v) r h = elim (Bool-cases (is_some v.invalidated_at)) [
  | inl a ↦ absurd (true≢false (rw a at h))
  | inr a ↦
      let (passed, review) = on_result-pass v.result required v r (rw a at h) in
      (v, refl, is_some-none v.invalidated_at a, passed, review)
]
