-- ===== src/Examples/Commits.antt =====
-- Registrations of candidates, and the gate of the review.
use jarvis_agencyos.Base.{◌≡◌, refl, false, true, none, some, [], ◌∷◌, Text, codes, All}
use jarvis_agencyos.Exec.{ok, ◌>>=◌, for_each}
use jarvis_agencyos.Builder.Contracts.{
  CandidateStatus, VerificationResult, ReviewStatus, task_content_hash,
}
use jarvis_agencyos.Builder.State.{Candidate, Verification, Review, Builder}
use jarvis_agencyos.Builder.Store.{
  new_id, get_task, get_run, get_candidate, get_verification, list_active_runs,
  list_candidates_for_task, list_approvals_for_task, update_candidate, insert_candidate,
  update_verification, append_event, find_verification, find_candidate,
}
use jarvis_agencyos.Builder.Lock.{verify_task_hash}
use jarvis_agencyos.Builder.Runs.{set_current, adopt, get_current_coding_run}
use jarvis_agencyos.Builder.Authority.{
  assert_commit_sha, hex_text, invalidate_verification, is_verification_authoritative,
}
use jarvis_agencyos.Builder.Candidates.{
  CandidateInput, assert_run_can_register, new_candidate, quietly, supersede,
  register_exact_candidate,
}
use jarvis_agencyos.Builder.Candidates.Superseded.{
  SupersededElsewhere, register_exact_candidate-superseded,
}
use jarvis_agencyos.Builder.Candidates.Authority.{register_exact_candidate-other_commit}
use jarvis_agencyos.Builder.Review.{evaluate_review_gate}
use jarvis_agencyos.Builder.Review.Gate.{PassedReview, evaluate_review_gate-allowed}
use jarvis_agencyos.Examples.Data.{runtime, run, board, candidate, sha, branch}

abbrev new_sha : Text
new_sha = codes "ddddddddddccccccccccbbbbbbbbbbaaaaaaaaaa"

abbrev input : CandidateInput
input = record {
  task_id = 1;
  factory_run_id = 2;
  branch = some branch;
  commit_sha = some new_sha;
  pr_number = none;
  pr_url = none;
  ci_status = none;
  ci_conclusion = none;
  evidence_at = none;
}

abbrev verification : Verification
verification = record {
  verification_id = 5;
  candidate_id = 4;
  commit_sha = sha;
  result = VerificationResult.pass;
  snapshot = none;
  failure_class = none;
  created_at = 8;
  invalidated_at = none;
}

abbrev verified : Candidate
verified = record candidate { status = CandidateStatus.verified; verification_ref = some 5 }

abbrev verified_board : Builder
verified_board = record (board (run ∷ [])) {
  candidates = verified ∷ [];
  verifications = verification ∷ [];
}

abbrev registered : Candidate
registered = new_candidate input 30 run branch new_sha 9

abbrev after : Builder
after = (register_exact_candidate runtime input verified_board).1

abbrev replaced : Candidate
replaced = record verified { status = CandidateStatus.superseded }

abbrev withdrawn : Verification
withdrawn = record verification { invalidated_at = some 9 }

registration :
    ((register_exact_candidate runtime input verified_board).0 ≡ ok registered)
    × (find_verification 5 after.verifications ≡ some withdrawn)
    × (find_candidate 4 after.candidates ≡ some replaced)
unfolding register_exact_candidate get_task get_run verify_task_hash task_content_hash
    get_current_coding_run adopt list_active_runs set_current assert_run_can_register
    assert_commit_sha hex_text list_candidates_for_task for_each supersede update_candidate quietly
    invalidate_verification get_verification update_verification get_candidate append_event
    list_approvals_for_task new_id insert_candidate ◌>>=◌
registration = (refl, refl, refl)

register_exact_candidate-superseded_example :
    (t : Text) × (registered.commit_sha ≡ some t)
    × (registered.task_id ≡ 1)
    × All (SupersededElsewhere 1 t) after.candidates
register_exact_candidate-superseded_example =
    register_exact_candidate-superseded runtime input verified_board registered registration.0

register_exact_candidate-other_commit_example : is_verification_authoritative after 5 ≡ false
register_exact_candidate-other_commit_example =
    register_exact_candidate-other_commit runtime input verified_board registered new_sha
      registration.0 refl 5 withdrawn replaced registration.1 registration.2 refl refl

abbrev review : Review
review = record {
  review_id = 6;
  candidate_id = 4;
  commit_sha = sha;
  review_status = ReviewStatus.pass;
  verification_ref = some 5;
  reviewed_at = 9;
  invalidated_at = none;
}

gate_open : (evaluate_review_gate true (some verification) (some review)).allowed ≡ true
unfolding evaluate_review_gate
gate_open = refl

evaluate_review_gate-allowed_example :
    (v : Verification) × (some verification ≡ some v)
    × (v.invalidated_at ≡ none)
    × (v.result ≡ VerificationResult.pass)
    × (true ≡ true → PassedReview v (some review))
evaluate_review_gate-allowed_example =
    evaluate_review_gate-allowed true (some verification) (some review) gate_open
