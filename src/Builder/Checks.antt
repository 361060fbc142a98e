-- ===== src/Builder/Checks.antt =====
-- The checks of the deterministic verifier and their verdict (src/builder/verifier.js). GitHub's client
-- and the test commands are not code of the repository's core: their results are arguments.
pub mod Evidence
pub mod Verdict
use jarvis_agencyos.Base.{
  ℕ, Bool, true, false, not, ◌&&◌, ◌||◌, Option, none, some, List, [], ◌∷◌, ◌++◌, Text, codes, ◌==◌,
  if◌then◌else◌, is_some, get_or, text_eq, any, select,
}
use jarvis_agencyos.Exec.{
  ◌▹◌, Result, ok, err, pure, raise, gets, require_some, modify, require, when, for_each, if_some,
  ◌>>=◌, ◌>>◌,
}
use jarvis_agencyos.Builder.Contracts.{
  TaskStatus, CandidateStatus, FailureClass, VerificationResult, EventType, Runtime, is_fenced,
}
use jarvis_agencyos.Builder.State.{
  Task, Candidate, Verification, Review, Snapshot, Action, Error, no_payload, row_record,
  unknown_candidate, missing_sha, candidate_ineligible, missing_run, stale_run, sha_mismatch,
  missing_branch, missing_pr, pr_sha_mismatch, pr_branch_mismatch,
}
use jarvis_agencyos.Builder.Store.{
  new_id, get_task, get_run, get_candidate, update_candidate, insert_verification,
  list_verifications_for_candidate, list_reviews_for_candidate, append_event,
}
use jarvis_agencyos.Builder.Runs.{update_task_status}
use jarvis_agencyos.Builder.Authority.{
  assert_commit_sha, invalidate_verification, invalidate_review,
}

pub record PullRequest : Type 0 where
  pub number : ℕ
  pub html_url : Text
  pub head_sha : Text
  pub head_ref : Text

pub record CiSummary : Type 0 where
  pub ci_status : Text
  pub ci_conclusion : Option Text
  pub captured_at : ℕ

-- The client's calls: each returns a value or throws. `find_pull_request` gives the number of the
-- first pull request found for a branch; `ci` is the summary of a commit's check runs and statuses.
pub record GithubClient : Type 0 where
  pub get_commit : Text → Result Error Text
  pub find_pull_request : Text → Result Error (Option ℕ)
  pub get_pull_request : ℕ → Result Error PullRequest
  pub ci : Text → Result Error CiSummary

pub record Check : Type 0 where
  pub name : Text
  pub ok_value : Option Bool
  pub authoritative : Bool

-- What a test command reports: a name of its own, if any, and whether it passed.
pub record Report : Type 0 where
  pub name : Option Text
  pub passed : Bool

abbrev pub need : {A : Type 0} → Option A → Error → Result Error A
need none e = err e
need (some a) e = ok a

abbrev pub ensure : Bool → Error → Result Error Unit
ensure true e = ok tt
ensure false e = err e

-- The pull request of a candidate: the one on record, or the first one of its branch.
pub pr_number_of : GithubClient → Text → Option ℕ → Result Error ℕ
pr_number_of client branch (some n) = ok n
pr_number_of client branch none = client.find_pull_request branch ▹ λ found. need found missing_pr

pub record Landing : Type 0 where
  pub branch : Text
  pub pull_request : PullRequest
  pub summary : CiSummary

-- The landing evidence of one exact commit, as the `try` block gathers it.
unfoldable pub landing_evidence : GithubClient → Candidate → Text → Result Error Landing
unfolding pr_number_of
landing_evidence client c sha = client.get_commit sha ▹ λ commit.
    ensure (text_eq commit sha) sha_mismatch ▹ λ _. need c.branch missing_branch ▹ λ branch.
    pr_number_of client branch c.pr_number ▹ λ number. client.get_pull_request number ▹ λ pr.
    ensure (text_eq pr.head_sha sha) pr_sha_mismatch ▹ λ _.
    ensure (text_eq pr.head_ref branch) pr_branch_mismatch ▹ λ _.
    client.ci sha ▹ λ summary. ok (record { branch = branch; pull_request = pr; summary = summary })

abbrev pub github_landing : Text
github_landing = codes "github_landing"

abbrev pub github_ci : Text
github_ci = codes "github_ci"

abbrev is_text : Option Text → Text → Bool
is_text none t = false
is_text (some s) t = text_eq s t

-- `ciOk`
pub ci_ok : CiSummary → Option Bool
ci_ok s =
    if text_eq s.ci_status (codes "completed") && is_text s.ci_conclusion (codes "success")
    then some true
    else if is_text s.ci_conclusion (codes "failure")
    then some false
    else none

-- A mismatch is a failure; any other error leaves the landing unknown.
pub landing_error_ok : Error → Option Bool
landing_error_ok sha_mismatch = some false
landing_error_ok pr_sha_mismatch = some false
landing_error_ok pr_branch_mismatch = some false
landing_error_ok _ = none

abbrev pub check : Text → Option Bool → Check
check name value = record { name = name; ok_value = value; authoritative = true }

-- The two landing checks, for the evidence found, the error thrown, or no client at all.
pub landing_checks : Option (Result Error Landing) → List Check
unfolding ci_ok landing_error_ok
landing_checks none = check github_landing none ∷ check github_ci none ∷ []
landing_checks (some (ok l)) =
    check github_landing (some true) ∷ check github_ci (ci_ok l.summary) ∷ []
landing_checks (some (err e)) =
    check github_landing (landing_error_ok e) ∷ check github_ci none ∷ []

abbrev pub report_check : Text → Option Report → List Check
report_check name none = []
report_check name (some r) = check (get_or r.name name) (some r.passed) ∷ []

abbrev pub claim_check : Bool → List Check
claim_check false = []
claim_check true =
    record { name = codes "worker_self_certification"; ok_value = none; authoritative = false } ∷ []

-- All checks of one verification, in the order in which they are made.
unfoldable pub gather_checks :
    Bool → Option Report → Option Report → Option (Result Error Landing) → List Check
unfolding landing_checks
gather_checks claimed tests build landing =
    claim_check claimed
    ++ (report_check (codes "task_tests") tests
        ++ (report_check (codes "build_typecheck_lint") build ++ landing_checks landing))

abbrev pub is_fail : Check → Bool
is_fail c = elim c.ok_value [ none ↦ false | some b ↦ not b ]

abbrev pub is_unknown : Check → Bool
is_unknown c = not (is_some c.ok_value)

abbrev pub is_ok : Check → Bool
is_ok c = elim c.ok_value [ none ↦ false | some b ↦ b ]

abbrev pub prefix : Text → Text → Bool
prefix [] t = true
prefix (a ∷ s) [] = false
prefix (a ∷ s) (b ∷ t) = (a == b) && prefix s t

abbrev pub named : Text → Check → Bool
named name c = text_eq c.name name && is_ok c

abbrev pub passes : List Check → Text → Bool
passes checks name = any (named name) checks

-- The verdict on the authoritative checks.
unfoldable pub decide_authoritative : List Check → VerificationResult × Option FailureClass
decide_authoritative checks =
    if any is_fail checks
    then (
      VerificationResult.fail,
      some (
          if any (λ c. is_fail c && prefix (codes "github_") c.name) checks
          then FailureClass.ci_fail
          else FailureClass.test_fail),
    )
    else if not (passes checks github_landing)
        || not (passes checks github_ci)
        || any is_unknown checks
    then (VerificationResult.blocked, none)
    else if not (any is_ok checks)
    then (VerificationResult.blocked, none)
    else (VerificationResult.pass, none)

unfoldable pub decide : List Check → VerificationResult × Option FailureClass
decide checks = decide_authoritative (select (λ c. c.authoritative) checks)
