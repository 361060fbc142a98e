-- ===== src/Examples/Ticks.antt =====
-- What ticks find.
use jarvis_agencyos.Base.{◌≡◌, none, some, [], ◌∷◌, List}
use jarvis_agencyos.Exec.{ok, ◌>>=◌}
use jarvis_agencyos.Builder.Contracts.{ReviewStatus}
use jarvis_agencyos.Builder.State.{Builder}
use jarvis_agencyos.Builder.Store.{get_task}
use jarvis_agencyos.Builder.Tick.{
  GithubReview, first_found, handed_over, find_changes_requested_work,
}
use jarvis_agencyos.Builder.Tick.Requested.{find_changes_requested_work-handed_over}
use jarvis_agencyos.Examples.Data.{run, board, candidate, sha}

-- A candidate whose stored review requests changes.
abbrev requested_board : Builder
requested_board = record (board (run ∷ [])) {
  candidates = candidate ∷ [];
  reviews =
      record {
        review_id = 6;
        candidate_id = 4;
        commit_sha = sha;
        review_status = ReviewStatus.request_changes;
        verification_ref = none;
        reviewed_at = 9;
        invalidated_at = none;
      }
      ∷ [];
}

abbrev unknown_task : List GithubReview
unknown_task = record { task_id = some 99; pr = none } ∷ []

find_changes_requested_work-handed_over_example :
    find_changes_requested_work unknown_task requested_board
    ≡ first_found unknown_task handed_over requested_board
find_changes_requested_work-handed_over_example =
    find_changes_requested_work-handed_over unknown_task requested_board

overlooked : find_changes_requested_work unknown_task requested_board ≡ (ok none, requested_board)
unfolding first_found handed_over get_task ◌>>=◌
overlooked = find_changes_requested_work-handed_over unknown_task requested_board
