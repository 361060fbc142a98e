-- ===== src/Examples/Verdicts.antt =====
-- Verdicts of the verifier.
use jarvis_agencyos.Base.{ℕ, ◌≡◌, refl, true, ◌&&◌, none, some, [], ◌∷◌, codes}
use jarvis_agencyos.Exec.{ok, ◌>>=◌, for_each}
use jarvis_agencyos.Builder.Contracts.{CandidateStatus, VerificationResult, task_content_hash}
use jarvis_agencyos.Builder.State.{Candidate, Builder}
use jarvis_agencyos.Builder.Store.{
  find_candidate, new_id, get_task, get_run, get_candidate, update_task, update_candidate,
  insert_verification, list_verifications_for_candidate, list_reviews_for_candidate, append_event,
}
use jarvis_agencyos.Builder.Lock.{verify_task_hash}
use jarvis_agencyos.Builder.Runs.{update_task_status}
use jarvis_agencyos.Builder.Authority.{assert_commit_sha, hex_text}
use jarvis_agencyos.Builder.Checks.{
  Report, landing_evidence, gather_checks, decide, decide_authoritative,
}
use jarvis_agencyos.Builder.Verifier.{
  is_passed, invalidate_prior_verifications, invalidate_prior_reviews, mark_verified,
  record_verdict, verify_exact_candidate,
}
use jarvis_agencyos.Builder.Checks.Verdict.{not_failed, confirmed, decide-pass}
use jarvis_agencyos.Builder.Checks.Evidence.{landing_evidence-exact}
use jarvis_agencyos.Builder.Verifier.Overwrite.{record_verdict-row}
use jarvis_agencyos.Builder.Verifier.Passed.{Basis, verify_exact_candidate-pass}
use jarvis_agencyos.Examples.Data.{
  runtime, run, board, candidate, host, landing, summary, pull_request, sha, branch, surroundings,
}

-- A report that calls itself by the name of a landing check.
abbrev disguised : Report
disguised = record { name = some (codes "github_ci"); passed = true }

decide-pass_example :
    is_passed (decide (gather_checks true (some disguised) none none)).0
    ≡ (not_failed (some disguised) && (not_failed none && confirmed none))
decide-pass_example = decide-pass true (some disguised) none none

evidence_found : landing_evidence host candidate sha ≡ ok landing
unfolding landing_evidence
evidence_found = refl

landing_evidence-exact_example :
    (host.get_commit sha ≡ ok sha)
    × (candidate.branch ≡ some branch)
    × ((n : ℕ) × (host.get_pull_request n ≡ ok pull_request))
    × (pull_request.head_sha ≡ sha)
    × (pull_request.head_ref ≡ branch)
    × (host.ci sha ≡ ok summary)
landing_evidence-exact_example = landing_evidence-exact host candidate sha landing evidence_found

abbrev review_board : Builder
review_board = record (board (run ∷ [])) { candidates = candidate ∷ [] }

passed : (verify_exact_candidate runtime 4 surroundings review_board).0 ≡ ok VerificationResult.pass
unfolding verify_exact_candidate get_candidate get_run invalidate_prior_verifications
    list_verifications_for_candidate invalidate_prior_reviews list_reviews_for_candidate
    assert_commit_sha hex_text record_verdict landing_evidence gather_checks decide
    decide_authoritative update_candidate new_id insert_verification mark_verified get_task
    update_task_status update_task verify_task_hash task_content_hash append_event for_each ◌>>=◌
passed = refl

verify_exact_candidate-pass_example : Basis review_board 4 surroundings
verify_exact_candidate-pass_example =
    verify_exact_candidate-pass runtime 4 surroundings review_board passed

-- The candidate is superseded while the host is asked.
abbrev overtaken : Builder
overtaken = record review_board {
  candidates = record candidate { status = CandidateStatus.superseded } ∷ [];
}

late : (record_verdict runtime candidate sha surroundings overtaken).0 ≡ ok VerificationResult.pass
unfolding record_verdict landing_evidence gather_checks decide decide_authoritative update_candidate
    new_id insert_verification mark_verified get_task update_task_status update_task
    verify_task_hash task_content_hash append_event ◌>>=◌
late = refl

record_verdict-row_example :
    (u : Candidate) × (find_candidate 4
        (record_verdict runtime candidate sha surroundings overtaken).1.candidates
      ≡ some u)
    × (u.status ≡ CandidateStatus.verified)
record_verdict-row_example =
    record_verdict-row runtime candidate sha surroundings overtaken VerificationResult.pass late
