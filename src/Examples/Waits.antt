-- ===== src/Examples/Waits.antt =====
-- Waits for the CI of a candidate.
use jarvis_agencyos.Base.{
  ◌+◌, ◌*◌, ◌<◌, ◌≡◌, ◌↔◌, refl, inr, true, Option, none, some, [], ◌∷◌, Text, codes, arith,
}
use jarvis_agencyos.Exec.{ok, ◌>>=◌}
use jarvis_agencyos.Builder.State.{Candidate, Builder}
use jarvis_agencyos.Builder.Store.{get_candidate, update_candidate, append_event}
use jarvis_agencyos.Builder.Authority.{assert_commit_sha, hex_text}
use jarvis_agencyos.Builder.Landing.{
  CheckRun, Host, completed, success, summarize_ci, summarize_check_runs, combined_state,
}
use jarvis_agencyos.Builder.CiWait.{
  Waiting, WaitResult, succeeded, classify_ci_summary, ci_event, finish_wait, poll_ci,
  poll_pull_request, poll_once, wait_loop, wait_for_exact_candidate_ci,
}
use jarvis_agencyos.Builder.CiWait.Bounded.{Sleeps, wait_for_exact_candidate_ci-ends}
use jarvis_agencyos.Builder.CiWait.Exact.{Landed, wait_for_exact_candidate_ci-succeeded}
use jarvis_agencyos.Builder.CiWait.Verdicts.{ci_passes, classify-summarize_ci, classify-skipped}
use jarvis_agencyos.Examples.Data.{candidate, sha, pull_request, locked_board}

abbrev good_run : CheckRun
good_run = record { id = some 1; status = completed; conclusion = some success; head_sha = none }

abbrev skipped_run : CheckRun
skipped_run = record good_run { conclusion = some (codes "skipped") }

abbrev pub landing_host : Host
landing_host = record {
  get_commit = λ t. ok t;
  find_pull_request = λ t. ok (some 12);
  get_pull_request = λ n. ok pull_request;
  get_check_runs_for_commit = λ t. ok (good_run ∷ []);
  get_combined_status_for_commit = λ t. none;
  get_branch_head_sha = λ t. ok sha;
  time = 9;
}

-- A clock that moves one bound further with each sleep.
abbrev pub waiting : Waiting
waiting = record {
  host = λ n. landing_host;
  started = 100;
  tested = λ n. 100 + n * 2;
  polled = λ n. 98 + n * 2;
  poll_ms = 2;
  timeout_ms = 5;
}

waiting-Sleeps : Sleeps waiting
waiting-Sleeps = record {
  first = omega arith;
  poll = λ n. omega arith;
  sleep = λ n. inr (omega arith);
}

abbrev with_request : Candidate
with_request = record candidate { pr_number = some 12 }

abbrev waiting_board : Builder
waiting_board = record locked_board { candidates = with_request ∷ [] }

abbrev seen : Candidate
seen = record with_request {
  pr_url = some (codes "url");
  ci_status = some completed;
  ci_conclusion = some success;
  evidence_at = some 9;
}

abbrev result : WaitResult
result = record {
  outcome = succeeded;
  ci_status = some completed;
  ci_conclusion = some success;
  polls = 1;
  candidate = some seen;
  new_head_sha = none;
}

waits : (wait_for_exact_candidate_ci 7 (some waiting) 4 waiting_board).0 ≡ ok (some result)
unfolding wait_for_exact_candidate_ci get_candidate assert_commit_sha hex_text ci_event append_event
    wait_loop poll_once poll_pull_request poll_ci summarize_ci summarize_check_runs combined_state
    classify_ci_summary update_candidate finish_wait ◌>>=◌
waits = refl

wait_for_exact_candidate_ci-ends_example :
    (r : WaitResult) × (◌≡◌ {A = Option WaitResult} (some result) (some r)) × (r.polls * 2 < 5 + 2)
wait_for_exact_candidate_ci-ends_example =
    wait_for_exact_candidate_ci-ends waiting waiting-Sleeps 4 6 waiting_board (some result)
      (omega arith) waits

wait_for_exact_candidate_ci-succeeded_example :
    (t : Text) × (with_request.commit_sha ≡ some t) × Landed landing_host t
wait_for_exact_candidate_ci-succeeded_example =
    wait_for_exact_candidate_ci-succeeded waiting 4 7 waiting_board with_request result refl waits
      refl

classify-summarize_ci_example :
    (classify_ci_summary (summarize_ci (good_run ∷ skipped_run ∷ []) none 9) ≡ some succeeded)
    ↔ (ci_passes (good_run ∷ skipped_run ∷ []) none ≡ true)
classify-summarize_ci_example = classify-summarize_ci (good_run ∷ skipped_run ∷ []) none 9

classify-skipped_example :
    classify_ci_summary (summarize_ci (skipped_run ∷ []) none 9) ≡ some succeeded
classify-skipped_example = classify-skipped skipped_run [] none 9 refl refl
