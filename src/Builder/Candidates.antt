-- ===== src/Builder/Candidates.antt =====
-- The exact candidate registry (src/builder/candidate-registry.js) and approval records
-- (src/builder/core.js).
pub mod Authority
pub mod Superseded
pub mod Refresh
use jarvis_agencyos.Base.{
  ℕ, Bool, true, false, not, ◌&&◌, Option, none, some, [], ◌∷◌, Text, ◌==◌, if◌then◌else◌, same_id,
  is_some, get_or, text_eq, trim,
}
use jarvis_agencyos.Exec.{
  Result, ok, err, pure, raise, lift, gets, require_some, require, when, catch, for_each, if_some,
  ◌>>=◌, ◌>>◌,
}
use jarvis_agencyos.Builder.Contracts.{
  ApprovalStatus, CandidateStatus, EventType, Runtime, is_fenced,
}
use jarvis_agencyos.Builder.State.{
  Task, Run, Candidate, Approval, Action, Error, no_payload, row_record, unknown_task, foreign_run,
  stale_run, missing_provider_mapping, missing_branch, not_locked,
}
use jarvis_agencyos.Builder.Store.{
  new_id, get_task, get_run, insert_candidate, update_candidate, list_candidates_for_task,
  list_approvals_for_task, insert_approval, update_approval, append_event,
}
use jarvis_agencyos.Builder.Lock.{verify_task_hash}
use jarvis_agencyos.Builder.Runs.{get_current_coding_run, is_other}
use jarvis_agencyos.Builder.Authority.{
  assert_commit_sha, invalidate_verification, invalidate_review,
}

-- `assertRunCanRegisterCandidate`
unfoldable pub assert_run_can_register : Run → Option Run → Result Error Unit
assert_run_can_register run current =
    if is_fenced run.status
    then err stale_run
    else if is_other run.factory_run_id current
    then err stale_run
    else if is_some run.provider_run_id
    then ok tt
    else err missing_provider_mapping

-- What a caller hands over; `none` is a value left out, or of another type.
pub record CandidateInput : Type 0 where
  pub task_id : ℕ
  pub factory_run_id : ℕ
  pub branch : Option Text
  pub commit_sha : Option Text
  pub pr_number : Option ℕ
  pub pr_url : Option Text
  pub ci_status : Option Text
  pub ci_conclusion : Option Text
  pub evidence_at : Option ℕ

abbrev pub is_superseded : CandidateStatus → Bool
is_superseded CandidateStatus.superseded = true
is_superseded _ = false

abbrev pub is_approved : ApprovalStatus → Bool
is_approved ApprovalStatus.approved = true
is_approved _ = false

-- A prior candidate that a new SHA replaces: it has a SHA, another one, and is not yet superseded.
abbrev pub is_replaced : Text → Candidate → Bool
is_replaced sha old = elim old.commit_sha [
  | none ↦ false
  | some other ↦ not (text_eq other sha) && not (is_superseded old.status)
]

-- An approval that stands on a given candidate.
abbrev pub stands_on : ℕ → Approval → Bool
stands_on id ap = same_id ap.candidate_id (some id) && is_approved ap.status

-- `try { … } catch {}`
unfoldable pub quietly : {A : Type 0} → Action A → Action Unit
quietly m = catch (m >> pure tt) (λ e. pure tt)

unfoldable pub invalidate_approval : ℕ → ℕ → ℕ → Approval → Action Unit
invalidate_approval task_id run_id candidate_id ap = when (stands_on candidate_id ap) do
  update_approval ap.approval_id (λ a. record a { status = ApprovalStatus.invalidated })
  append_event (some task_id) (some run_id) EventType.approval_invalidated
      (row_record ap.approval_id)

-- One round of the loop over the prior candidates.
unfoldable pub supersede : ℕ → ℕ → Text → Candidate → Action Unit
supersede task_id run_id sha old = when (is_replaced sha old) do
  update_candidate old.candidate_id (λ c. record c { status = CandidateStatus.superseded })
  if_some old.verification_ref (λ id. quietly (invalidate_verification id)) (pure tt)
  if_some old.review_ref (λ id. quietly (invalidate_review id)) (pure tt)
  approvals ← list_approvals_for_task task_id
  for_each approvals (invalidate_approval task_id run_id old.candidate_id)

abbrev pub new_candidate : CandidateInput → ℕ → Run → Text → Text → ℕ → Candidate
new_candidate input id run branch sha time = record {
  candidate_id = id;
  task_id = input.task_id;
  factory_run_id = input.factory_run_id;
  provider_run_id = run.provider_run_id;
  branch = some branch;
  commit_sha = some sha;
  pr_number = input.pr_number;
  pr_url = input.pr_url;
  verification_ref = none;
  review_ref = none;
  ci_status = input.ci_status;
  ci_conclusion = input.ci_conclusion;
  evidence_at = some (get_or input.evidence_at time);
  status = CandidateStatus.proposed;
  created_at = time;
}

abbrev is_blank : Text → Bool
is_blank [] = true
is_blank (c ∷ s) = false

abbrev of_task : ℕ → Option Run → Option Run
of_task id none = none
of_task id (some r) = if r.task_id == id then some r else none

module _ (env : Runtime) where
  -- `registerExactCandidate`
  unfoldable pub register_exact_candidate : CandidateInput → Action Candidate
  register_exact_candidate input = do
    found ← get_task input.task_id
    task ← require_some found unknown_task
    lift (verify_task_hash env task)
    row ← get_run input.factory_run_id
    run ← require_some (of_task input.task_id row) foreign_run
    catch (do current ← get_current_coding_run; lift (assert_run_can_register run current))
        (λ e. do
          append_event (some input.task_id) (some input.factory_run_id) EventType.stale_run_rejected
              no_payload
          raise e)
    branch ← require_some input.branch missing_branch
    require (not (is_blank (trim branch))) missing_branch
    sha ← assert_commit_sha input.commit_sha
    prior ← list_candidates_for_task input.task_id
    for_each prior (supersede input.task_id input.factory_run_id sha)
    id ← new_id
    time ← gets (λ s. s.now)
    candidate ← insert_candidate (new_candidate input id run (trim branch) sha time)
    append_event (some input.task_id) (some input.factory_run_id) EventType.candidate_recorded
        (row_record candidate.candidate_id)
    pure candidate

  abbrev new_approval :
      ℕ → Task → ℕ → ℕ → Text → Option ℕ → Option Text → ApprovalStatus → ℕ → Approval
  new_approval id task proposal hash approved_by candidate_id commit_sha status time = record {
    approval_id = id;
    task_id = task.task_id;
    proposal_id = proposal;
    content_hash = hash;
    candidate_id = candidate_id;
    commit_sha = commit_sha;
    approved_by = approved_by;
    approved_at = time;
    status = status;
  }

  -- `recordApproval`
  unfoldable pub record_approval :
      ℕ → Text → Option ℕ → Option Text → ApprovalStatus → Action Approval
  record_approval task_id approved_by candidate_id commit_sha status = do
    found ← get_task task_id
    task ← require_some found unknown_task
    lift (verify_task_hash env task)
    proposal ← require_some task.proposal_id not_locked
    hash ← require_some task.content_hash not_locked
    if_some commit_sha (λ sha. assert_commit_sha (some sha) >> pure tt) (pure tt)
    id ← new_id
    time ← gets (λ s. s.now)
    approval ←
        insert_approval
          (new_approval id task proposal hash approved_by candidate_id commit_sha status time)
    append_event (some task_id) none EventType.approval_recorded (row_record approval.approval_id)
    pure approval
