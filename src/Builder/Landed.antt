-- ===== src/Builder/Landed.antt =====
-- From a worker's landing evidence to a verified candidate (src/builder/orchestrator.js).
use jarvis_agencyos.Base.{
  ℕ, zero, suc, Bool, true, false, not, ◌&&◌, ◌||◌, Option, none, some, [], ◌∷◌, Text, ◌==◌,
  if◌then◌else◌, is_some, or_else, text_eq,
}
use jarvis_agencyos.Exec.{
  ok, err, pure, raise, lift, gets, require_some, require, if_some, ◌>>=◌, ◌>>◌,
}
use jarvis_agencyos.Builder.Contracts.{RunStatus, Runtime, VerificationResult, ProviderStatus}
use jarvis_agencyos.Builder.State.{
  Task, Run, Candidate, Verification, Action, missing_landing, missing_landing_sha,
  pr_branch_mismatch, worker_timeout, ci_head_changed, ci_pr_mismatch, not_awaiting_ci, out_of_fuel,
  type_error,
}
use jarvis_agencyos.Builder.Store.{get_candidate}
use jarvis_agencyos.Builder.Provider.{PartialResult}
use jarvis_agencyos.Builder.Workers.{Answer, refresh_worker_status}
use jarvis_agencyos.Builder.Authority.{assert_commit_sha}
use jarvis_agencyos.Builder.Candidates.{CandidateInput, register_exact_candidate}
use jarvis_agencyos.Builder.Candidates.Refresh.{refresh_candidate_landing}
use jarvis_agencyos.Builder.Checks.{GithubClient, Report}
use jarvis_agencyos.Builder.Verifier.{verify_exact_candidate}
use jarvis_agencyos.Builder.Landing.{Host, landing_client}
use jarvis_agencyos.Builder.CiWait.{
  Waiting, WaitOutcome, WaitResult, head_changed, pr_mismatch, detect_awaiting_ci,
  wait_for_exact_candidate_ci, verification_of,
}

abbrev pub is_terminal_run : RunStatus → Bool
is_terminal_run RunStatus.succeeded = true
is_terminal_run RunStatus.failed = true
is_terminal_run RunStatus.cancelled = true
is_terminal_run RunStatus.stale = true
is_terminal_run _ = false

abbrev says_finished : Option PartialResult → Bool
says_finished none = false
says_finished (some p) = elim p.provider_status [
  | none ↦ false
  | some status ↦ elim status [ ProviderStatus.finished ↦ true | _ ↦ false ]
]

abbrev finished_answer : Answer → Bool
finished_answer (ok p) = says_finished p
finished_answer (err e) = false

-- `waitForWorkerTerminal`, where time is left for so many polls; `answers` counts them down.
unfoldable pub wait_for_worker_terminal : ℕ → Option Text → ℕ → (ℕ → Answer) → Action Run
wait_for_worker_terminal zero provider id answers = raise worker_timeout
wait_for_worker_terminal (suc left) provider id answers =
    let rest = wait_for_worker_terminal left provider id answers in
    refresh_worker_status provider id (answers left) >>= λ run.
    if is_terminal_run run.status || finished_answer (answers left) then pure run else rest

-- What a worker's evidence says of its landing.
pub record WorkerLanding : Type 0 where
  pub branch : Option Text
  pub commit_sha : Option Text
  pub pr_number : Option ℕ
  pub pr_url : Option Text

abbrev pub is_empty : Text → Bool
is_empty [] = true
is_empty (c ∷ t) = false

-- A branch that both sides name is the same one.
abbrev same_branch : Option Text → Text → Bool
same_branch none head = true
same_branch (some b) head = is_empty b || is_empty head || text_eq head b

-- The commit of a pull request.
unfoldable pub resolve_by_request : WorkerLanding → Host → ℕ → Action WorkerLanding
resolve_by_request landing host number = do
  pr ← lift (host.get_pull_request number)
  require (not (is_empty pr.head_sha)) missing_landing_sha
  require (same_branch landing.branch pr.head_ref) pr_branch_mismatch
  sha ← assert_commit_sha (some pr.head_sha)
  pure (record {
    branch = or_else landing.branch (some pr.head_ref);
    commit_sha = some sha;
    pr_number = some pr.number;
    pr_url = or_else landing.pr_url (some pr.html_url);
  })

-- The commit of a branch.
unfoldable pub resolve_by_branch : WorkerLanding → Host → Text → Action WorkerLanding
resolve_by_branch landing host branch = do
  head ← lift (host.get_branch_head_sha branch)
  sha ← assert_commit_sha (some head)
  pure (record landing { commit_sha = some sha })

-- `resolveLandingSha`
unfoldable pub resolve_landing_sha : WorkerLanding → Option Host → Action WorkerLanding
resolve_landing_sha landing client =
    if_some landing.commit_sha
      (λ given. do
        sha ← assert_commit_sha (some given)
        pure (record landing { commit_sha = some sha }))
      do
        host ← require_some client missing_landing_sha
        if_some landing.pr_number (resolve_by_request landing host)
            (if_some landing.branch (resolve_by_branch landing host) (raise missing_landing_sha))

-- What surrounds the registration of a candidate: the host, if there is a client; its answers during
-- each of the passes, counted down; and the reports of the tests and of the build.
pub record Surround : Type 0 where
  pub host : Option Host
  pub waiting : ℕ → Waiting
  pub tests : Option Report
  pub build : Option Report

abbrev pub client_of : Option Host → Option GithubClient
client_of none = none
client_of (some h) = some (landing_client h)

-- A wait with a step of fuel for each millisecond of its bound, and two more.
unfoldable pub wait_for_ci : Waiting → ℕ → Action WaitResult
wait_for_ci w id = do
  r ← wait_for_exact_candidate_ci (suc (suc w.timeout_ms)) (some w) id
  require_some r out_of_fuel

abbrev pub is_head_changed : WaitOutcome → Bool
is_head_changed head_changed = true
is_head_changed _ = false

abbrev pub is_pr_mismatch : WaitOutcome → Bool
is_pr_mismatch pr_mismatch = true
is_pr_mismatch _ = false

abbrev input_of : Task → Run → WorkerLanding → Text → ℕ → CandidateInput
input_of task run landing sha time = record {
  task_id = task.task_id;
  factory_run_id = run.factory_run_id;
  branch = landing.branch;
  commit_sha = some sha;
  pr_number = landing.pr_number;
  pr_url = landing.pr_url;
  ci_status = none;
  ci_conclusion = none;
  evidence_at = some time;
}

-- The landing that a candidate is bound to next.
abbrev rebound : Candidate → Text → WorkerLanding
rebound c sha = record {
  branch = c.branch;
  commit_sha = some sha;
  pr_number = c.pr_number;
  pr_url = c.pr_url;
}

-- What a wait leaves of a pass: the end of it, or the next pass for a new head.
unfoldable pub after_wait :
    ℕ
    → Candidate
    → WaitResult
    → (WorkerLanding → Action (Candidate × Option WaitResult))
    → Action (Candidate × Option WaitResult)
after_wait left c wait rest =
    if is_head_changed wait.outcome
    then (if_some wait.new_head_sha
        (λ head.
          require (not (left == 0)) ci_head_changed >> assert_commit_sha (some head) >>= λ sha.
          rest (rebound c sha))
        (raise ci_head_changed))
    else if is_pr_mismatch wait.outcome
    then raise ci_pr_mismatch
    else pure (c, some wait)

-- The verdict, with the verification that the candidate then refers to.
pub record Verified : Type 0 where
  pub candidate : Candidate
  pub result : VerificationResult
  pub verification : Option Verification

module _ (env : Runtime) where
  -- The loop of `registerAndVerify`, with so many passes left.
  unfoldable pub bind_candidate :
      ℕ → Task → Run → Surround → WorkerLanding → Action (Candidate × Option WaitResult)
  bind_candidate zero task run w landing = raise ci_head_changed
  bind_candidate (suc left) task run w landing =
      let rest = bind_candidate left task run w in
      do
        sha ← assert_commit_sha landing.commit_sha
        time ← gets (λ s. s.now)
        c ← register_exact_candidate env (input_of task run landing sha time)
        if_some w.host
            (λ host. do
              refresh_candidate_landing c.candidate_id (landing_client host)
              wait ← wait_for_ci (w.waiting left) c.candidate_id
              after_wait left c wait rest)
            (pure (c, none))

  unfoldable pub verify_candidate : ℕ → Surround → Action Verified
  verify_candidate id w = do
    result ←
        verify_exact_candidate env id
          (record { client = client_of w.host; tests = w.tests; build = w.build; claimed = false })
    found ← get_candidate id
    c ← require_some found type_error
    verification ← verification_of c.verification_ref
    pure (record { candidate = c; result = result; verification = verification })

  -- `registerAndVerify`: three passes, since two rebinds are allowed.
  unfoldable pub register_and_verify : Task → Run → Surround → WorkerLanding → Action Verified
  register_and_verify task run w landing = do
    require (is_some landing.branch || is_some landing.pr_number) missing_landing
    resolved ← resolve_landing_sha landing w.host
    require (is_some resolved.branch && is_some resolved.commit_sha) missing_landing
    bound ← bind_candidate 3 task run w resolved
    verify_candidate bound.0.candidate_id w

  -- `resumeExactCandidateCiAndVerify`
  unfoldable pub resume_exact_candidate_ci_and_verify : ℕ → Waiting → Surround → Action Verified
  resume_exact_candidate_ci_and_verify task_id waiting w = do
    awaiting ← detect_awaiting_ci task_id
    require awaiting.awaiting_ci not_awaiting_ci
    c ← require_some awaiting.candidate not_awaiting_ci
    wait ← wait_for_ci waiting c.candidate_id
    require (not (is_head_changed wait.outcome)) ci_head_changed
    require (not (is_pr_mismatch wait.outcome)) ci_pr_mismatch
    verify_candidate c.candidate_id w
