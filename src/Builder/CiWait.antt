-- ===== src/Builder/CiWait.antt =====
-- The bounded wait for the CI of an exact commit (src/builder/ci-wait.js). Times are whole
pub mod Exact
pub mod Verdicts
pub mod Bounded
-- milliseconds.
use jarvis_agencyos.Base.{
  ℕ, zero, suc, ◌+◌, ◌-◌, Bool, true, false, not, ◌&&◌, ◌||◌, Option, none, some, List, [], ◌∷◌,
  Text, codes, if◌then◌else◌, is_some, get_or, text_eq, has_text, first, ltb, leb, select, any,
}
use jarvis_agencyos.Exec.{
  Result, ok, err, pure, raise, lift, gets, require_some, modify, require, when, if_some, ◌>>=◌,
  ◌>>◌,
}
use jarvis_agencyos.Builder.Contracts.{CandidateStatus, RunStatus, EventType, VerificationResult}
use jarvis_agencyos.Builder.State.{
  Candidate, Run, Verification, Builder, Action, Error, Payload, ci_record, unknown_candidate,
  missing_branch, missing_pr, sha_mismatch, type_error, github_required, invalid_ci_poll,
  invalid_ci_timeout, ci_sha_mismatch, gh_cli_failed,
}
use jarvis_agencyos.Builder.Store.{
  get_run, get_candidate, get_verification, update_candidate, list_candidates_for_task,
  append_event,
}
use jarvis_agencyos.Builder.Authority.{
  assert_commit_sha, invalidate_verification, invalidate_review, same_text,
}
use jarvis_agencyos.Builder.Candidates.{is_superseded}
use jarvis_agencyos.Builder.Checks.{PullRequest, CiSummary}
use jarvis_agencyos.Builder.Landing.{
  CheckRun, Host, summarize_ci, combined_state, completed, success, failure, neutral, pending,
  unknown,
}

pub data WaitOutcome : Type 0 where
  succeeded failed timeout unknown_outcome head_changed pr_mismatch : WaitOutcome

abbrev pub concluded : Option Text → Text → Bool
concluded c t = same_text c (some t)

-- `classifyCiSummary`: `none` for a summary that is not terminal.
unfoldable pub classify_ci_summary : CiSummary → Option WaitOutcome
classify_ci_summary s =
    let status = s.ci_status in
    let conclusion = s.ci_conclusion in
    if text_eq status pending
    then none
    else if text_eq status completed && concluded conclusion success
    then some succeeded
    else if text_eq status completed
        && (concluded conclusion failure
            || concluded conclusion (codes "cancelled")
            || concluded conclusion (codes "timed_out"))
    then some failed
    else if text_eq status completed && concluded conclusion neutral
    then some unknown_outcome
    else none

-- The newest candidate first; of candidates of one time, the order they had.
unfoldable pub insert_by_age : Candidate → List Candidate → List Candidate
insert_by_age c [] = c ∷ []
insert_by_age c (d ∷ ds) =
    let later = insert_by_age c ds in
    if leb d.created_at c.created_at then c ∷ d ∷ ds else d ∷ later

unfoldable pub newest_first : List Candidate → List Candidate
unfolding insert_by_age
newest_first [] = []
newest_first (c ∷ cs) = insert_by_age c (newest_first cs)

abbrev pub is_succeeded : RunStatus → Bool
is_succeeded RunStatus.succeeded = true
is_succeeded _ = false

abbrev run_succeeded : Option Run → Bool
run_succeeded none = false
run_succeeded (some r) = is_succeeded r.status

abbrev standing_pass : Option Verification → Bool
standing_pass none = false
standing_pass (some v) = elim v.result [
  | VerificationResult.pass ↦ not (is_some v.invalidated_at)
  | _ ↦ false
]

abbrev blocked_verdict : Option Verification → Bool
blocked_verdict none = false
blocked_verdict (some v) = elim v.result [ VerificationResult.blocked ↦ true | _ ↦ false ]

-- `!status || status === 'pending' || status === 'unknown'`
abbrev open_status : Option Text → Bool
open_status none = true
open_status (some []) = true
open_status (some (c ∷ t)) = text_eq (c ∷ t) pending || text_eq (c ∷ t) unknown

-- What `detectAwaitingCi` answers; the run and the verification are not used by any caller.
pub record Awaiting : Type 0 where
  pub awaiting_ci : Bool
  pub candidate : Option Candidate

abbrev idle : Option Candidate → Awaiting
idle o = record { awaiting_ci = false; candidate = o }

-- The verification that a candidate refers to, if it refers to one.
unfoldable pub verification_of : Option ℕ → Action (Option Verification)
verification_of none = pure none
verification_of (some id) = get_verification id

unfoldable pub awaiting_of : Candidate → Action Awaiting
awaiting_of c = do
  run ← get_run c.factory_run_id
  verification ← verification_of c.verification_ref
  pure (
      if not (run_succeeded run)
      then idle (some c)
      else if standing_pass verification
      then idle (some c)
      else record {
        awaiting_ci = open_status c.ci_status || blocked_verdict verification;
        candidate = some c;
      })

-- `detectAwaitingCi`
unfoldable pub detect_awaiting_ci : ℕ → Action Awaiting
unfolding newest_first
detect_awaiting_ci task_id = do
  candidates ← list_candidates_for_task task_id
  if_some (first (newest_first (select (λ c. not (is_superseded c.status)) candidates))) awaiting_of
      (pure (idle none))

-- What a wait is given: the host's answers at each poll; the readings of `nowFn`, for the deadline, in
-- the loop's test after so many polls, and behind so many polls; and the bounds. Polls count from 1.
pub record Waiting : Type 0 where
  pub host : ℕ → Host
  pub started : ℕ
  pub tested : ℕ → ℕ
  pub polled : ℕ → ℕ
  pub poll_ms : ℕ
  pub timeout_ms : ℕ

pub record WaitResult : Type 0 where
  pub outcome : WaitOutcome
  pub ci_status : Option Text
  pub ci_conclusion : Option Text
  pub polls : ℕ
  pub candidate : Option Candidate
  pub new_head_sha : Option Text

-- A poll ends the wait, or leaves the candidate as it was read and the summary.
pub data Polled : Type 0 where
  finished : WaitResult → Polled
  again : Candidate → CiSummary → Polled

abbrev pub without_summary : WaitOutcome → ℕ → Candidate → Option Text → WaitResult
without_summary outcome polls c head = record {
  outcome = outcome;
  ci_status = none;
  ci_conclusion = none;
  polls = polls;
  candidate = some c;
  new_head_sha = head;
}

abbrev pub with_summary : WaitOutcome → ℕ → CiSummary → Option Candidate → WaitResult
with_summary outcome polls summary c = record {
  outcome = outcome;
  ci_status = some summary.ci_status;
  ci_conclusion = summary.ci_conclusion;
  polls = polls;
  candidate = c;
  new_head_sha = none;
}

unfoldable pub ci_event : Candidate → EventType → Text → ℕ → Action Unit
ci_event c event sha polls =
    append_event (some c.task_id) (some c.factory_run_id) event (ci_record c.candidate_id sha polls)

-- What the candidate refers to loses its authority.
unfoldable pub invalidate_refs : Candidate → Action Unit
invalidate_refs c = do
  if_some c.verification_ref (λ v. invalidate_verification v >> pure tt) (pure tt)
  if_some c.review_ref (λ r. invalidate_review r >> pure tt) (pure tt)

-- A check run that is tagged with another commit.
abbrev pub tagged_elsewhere : Text → CheckRun → Bool
tagged_elsewhere sha r = elim r.head_sha [
  | none ↦ false
  | some [] ↦ false
  | some (c ∷ t) ↦ not (text_eq (c ∷ t) sha)
]

abbrev pub with_ci : PullRequest → CiSummary → Candidate → Candidate
with_ci pr summary c = record c {
  pr_number = some pr.number;
  pr_url = some pr.html_url;
  ci_status = some summary.ci_status;
  ci_conclusion = summary.ci_conclusion;
  evidence_at = some summary.captured_at;
}

-- The end of a wait is noted on the candidate and in the log.
unfoldable pub finish_wait : ℕ → Candidate → Text → WaitOutcome → ℕ → CiSummary → Action WaitResult
finish_wait id c sha outcome polls summary = do
  time ← gets (λ s. s.now)
  update_candidate id (λ d. record d { evidence_at = some time })
  ci_event c EventType.ci_wait_finished sha polls
  row ← get_candidate id
  pure (with_summary outcome polls summary row)

-- The part of a poll that asks for the CI of the exact commit.
unfoldable pub poll_ci : ℕ → Host → Candidate → Text → ℕ → PullRequest → Action Polled
poll_ci id host c sha polls pr = do
  runs ← lift (host.get_check_runs_for_commit sha)
  let summary =
      summarize_ci runs (combined_state (host.get_combined_status_for_commit sha)) host.time
  require (not (any (tagged_elsewhere sha) runs)) ci_sha_mismatch
  update_candidate id (with_ci pr summary)
  ci_event c EventType.ci_wait_progress sha polls
  if_some (classify_ci_summary summary)
      (λ outcome. do r ← finish_wait id c sha outcome polls summary; pure (finished r))
      (pure (again c summary))

-- The part of a poll that looks at the pull request.
unfoldable pub poll_pull_request : ℕ → Host → Candidate → Text → ℕ → Action Polled
poll_pull_request id host c sha polls = do
  commit ← lift (host.get_commit sha)
  require (text_eq commit sha) sha_mismatch
  number ← require_some c.pr_number gh_cli_failed
  pr ← lift (host.get_pull_request number)
  if not (same_text (some pr.head_ref) c.branch)
      then (do
        invalidate_refs c
        ci_event c EventType.ci_wait_finished sha polls
        pure (finished (without_summary pr_mismatch polls c none)))
      else if not (text_eq pr.head_sha sha)
      then (do
        invalidate_refs c
        ci_event c EventType.ci_wait_invalidated sha polls
        pure (finished (without_summary head_changed polls c (some pr.head_sha))))
      else poll_ci id host c sha polls pr

-- One round of the loop.
unfoldable pub poll_once : ℕ → Host → Text → ℕ → Action Polled
poll_once id host bound polls = do
  found ← get_candidate id
  c ← require_some found type_error
  sha ← assert_commit_sha c.commit_sha
  if not (text_eq sha bound)
      then (do
        ci_event c EventType.ci_wait_invalidated sha polls
        pure (finished (without_summary head_changed polls c none)))
      else poll_pull_request id host c sha polls

-- What is reported of a wait without a summary.
abbrev pub no_summary : CiSummary
no_summary = record { ci_status = pending; ci_conclusion = none; captured_at = 0 }

-- The bound expired.
unfoldable pub expire : ℕ → Candidate → Text → ℕ → CiSummary → Action (Option WaitResult)
expire id c sha polls summary = do r ← finish_wait id c sha timeout polls summary; pure (some r)

-- What follows a poll: an end, or the rest of the loop if time remains.
abbrev pub after_poll :
    ℕ
    → Text
    → ℕ
    → Bool
    → (Candidate → CiSummary → Action (Option WaitResult))
    → Polled
    → Action (Option WaitResult)
after_poll id bound polls late rest (finished r) = pure (some r)
after_poll id bound polls late rest (again c summary) =
    if late then expire id c bound polls summary else rest c summary

-- `while (nowFn() < deadline)`, after so many polls. Without fuel left there is no result.
unfoldable pub wait_loop :
    ℕ → Waiting → ℕ → Text → ℕ → Candidate → Option CiSummary → Action (Option WaitResult)
wait_loop zero w id bound polls c last = pure none
wait_loop (suc fuel) w id bound polls c last =
    let deadline = w.started + w.timeout_ms in
    let rest = wait_loop fuel w id bound (suc polls) in
    if not (ltb (w.tested polls) deadline)
    then expire id c bound polls (get_or last no_summary)
    else poll_once id (w.host (suc polls)) bound (suc polls)
      >>= after_poll id bound (suc polls) (leb deadline (w.polled (suc polls)))
          (λ d summary. rest d (some summary))

-- `waitForExactCandidateCi`
unfoldable pub wait_for_exact_candidate_ci : ℕ → Option Waiting → ℕ → Action (Option WaitResult)
wait_for_exact_candidate_ci fuel client id = do
  w ← require_some client github_required
  require (leb 1 w.poll_ms) invalid_ci_poll
  require (leb 1 w.timeout_ms) invalid_ci_timeout
  found ← get_candidate id
  c ← require_some found unknown_candidate
  bound ← assert_commit_sha c.commit_sha
  require (is_some c.branch) missing_branch
  require (is_some c.pr_number) missing_pr
  ci_event c EventType.ci_wait_started bound 0
  wait_loop fuel w id bound 0 c none
