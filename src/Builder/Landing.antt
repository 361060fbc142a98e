-- ===== src/Builder/Landing.antt =====
-- GitHub landing truth (src/builder/github-landing.js): what the client makes of a commit's check runs
-- and of its combined status. The calls of `gh` are parameters.
use jarvis_agencyos.Base.{
  ℕ, Bool, false, not, Option, none, some, List, [], ◌∷◌, Text, codes, if◌then◌else◌, text_eq,
  has_text, any, all,
}
use jarvis_agencyos.Exec.{◌▹◌, Result, ok}
use jarvis_agencyos.Builder.State.{Error}
use jarvis_agencyos.Builder.Checks.{PullRequest, CiSummary, GithubClient}

-- `status` is queued, in_progress or completed.
pub record CheckRun : Type 0 where
  pub id : Option ℕ
  pub status : Text
  pub conclusion : Option Text
  pub head_sha : Option Text

abbrev pub completed : Text
completed = codes "completed"

abbrev pub success : Text
success = codes "success"

abbrev pub failure : Text
failure = codes "failure"

abbrev pub neutral : Text
neutral = codes "neutral"

abbrev pub pending : Text
pending = codes "pending"

abbrev pub unknown : Text
unknown = codes "unknown"

abbrev pub concluded_in : List Text → Option Text → Bool
concluded_in among none = false
concluded_in among (some c) = has_text c among

abbrev pub concludes : List Text → CheckRun → Bool
concludes among r = concluded_in among r.conclusion

abbrev pub bad_conclusions : List Text
bad_conclusions = failure ∷ codes "timed_out" ∷ codes "action_required" ∷ codes "cancelled" ∷ []

abbrev pub good_conclusions : List Text
good_conclusions = success ∷ neutral ∷ codes "skipped" ∷ []

-- The status and the conclusion, by whether a check run is not complete, whether one is bad, and
-- whether all are good.
abbrev pub summary_of : Bool → Bool → Bool → Text × Option Text
summary_of waiting bad good =
    if waiting
    then (pending, none)
    else if bad
    then (completed, some failure)
    else if good
    then (completed, some success)
    else (completed, some neutral)

abbrev pub incomplete : CheckRun → Bool
incomplete r = not (text_eq r.status completed)

-- The status and the conclusion of a commit that has check runs.
unfoldable pub summarize_check_runs : List CheckRun → Text × Option Text
summarize_check_runs runs =
    summary_of (any incomplete runs) (any (concludes bad_conclusions) runs)
      (all (concludes good_conclusions) runs)

-- The status and the conclusion, by whether the state is pending, success or failure.
abbrev pub state_of : Bool → Bool → Bool → Text × Option Text
state_of waiting good bad =
    if waiting
    then (pending, none)
    else if good
    then (completed, some success)
    else if bad
    then (completed, some failure)
    else (unknown, none)

-- The status and the conclusion of the legacy commit statuses; the empty text is no state.
unfoldable pub summarize_state : Option Text → Text × Option Text
summarize_state none = (unknown, none)
summarize_state (some []) = (unknown, none)
summarize_state (some (c ∷ t)) =
    state_of (text_eq (c ∷ t) pending) (text_eq (c ∷ t) success) (text_eq (c ∷ t) failure)

-- `summarizeCi`, at a time
unfoldable pub summarize_ci : List CheckRun → Option Text → ℕ → CiSummary
unfolding summarize_check_runs summarize_state
summarize_ci [] combined time =
    let (status, conclusion) = summarize_state combined in
    record { ci_status = status; ci_conclusion = conclusion; captured_at = time }
summarize_ci (r ∷ rs) combined time =
    let (status, conclusion) = summarize_check_runs (r ∷ rs) in
    record { ci_status = status; ci_conclusion = conclusion; captured_at = time }

-- What the API answers: the check runs of a commit, and its combined state, if there is one.
pub record Host : Type 0 where
  pub get_commit : Text → Result Error Text
  pub find_pull_request : Text → Result Error (Option ℕ)
  pub get_pull_request : ℕ → Result Error PullRequest
  pub get_check_runs_for_commit : Text → Result Error (List CheckRun)
  pub get_combined_status_for_commit : Text → Option Text
  pub get_branch_head_sha : Text → Result Error Text
  pub time : ℕ

-- The client over a host; a combined status that cannot be read counts as pending.
unfoldable pub combined_state : Option Text → Option Text
combined_state none = some pending
combined_state (some t) = some t

unfoldable pub landing_client : Host → GithubClient
landing_client host = record {
  get_commit = host.get_commit;
  find_pull_request = host.find_pull_request;
  get_pull_request = host.get_pull_request;
  ci = λ sha. host.get_check_runs_for_commit sha ▹ λ runs.
      ok (summarize_ci runs (combined_state (host.get_combined_status_for_commit sha)) host.time);
}
