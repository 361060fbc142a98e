-- ===== src/Builder/Calls.antt =====
-- Histories of Builder Core: sequences of calls of its operations, by any callers. A launch is its
-- steps between two awaits, and a refresh, a cancellation and a collection are two calls each, before
-- and after the provider is awaited; the second has the run as the first one read it, and any other
-- calls may stand between. The other operations that await something are one call each.
use jarvis_agencyos.Base.{ℕ, ◌+◌, Bool, false, Option, none, some, List, [], ◌∷◌, Text}
use jarvis_agencyos.Exec.{◌>>◌, pure, modify}
use jarvis_agencyos.Builder.Contracts.{TaskStatus, FailureClass, ApprovalStatus, Runtime, is_draft}
use jarvis_agencyos.Builder.State.{Run, Builder, Action}
use jarvis_agencyos.Builder.Lock.{OwnerIntent, create_draft_task, lock_task, create_and_lock_task}
use jarvis_agencyos.Builder.Patch.{TaskPatch, attempt_mutate_locked_task}
use jarvis_agencyos.Builder.Runs.{
  set_current, update_task_status, create_run, get_current_coding_run, mark_run_stale,
}
use jarvis_agencyos.Builder.Provider.{PartialResult, apply_provider_result}
use jarvis_agencyos.Builder.Workers.{
  Answer, launch_check, launch_verify, launch_create, launch_prepare_on_run, launch_settle,
  mapped_run, refresh_settle, cancel_settle, collect_settle,
}
use jarvis_agencyos.Builder.Retry.{begin_repair_attempt}
use jarvis_agencyos.Builder.Candidates.{CandidateInput, register_exact_candidate, record_approval}
use jarvis_agencyos.Builder.Authority.{invalidate_verification, invalidate_review}
use jarvis_agencyos.Builder.Verifier.{Surroundings, verify_exact_candidate}
use jarvis_agencyos.Builder.Review.Exact.{Invoker, review_exact_candidate}
use jarvis_agencyos.Builder.Checks.{GithubClient}
use jarvis_agencyos.Builder.CiWait.{Waiting, wait_for_exact_candidate_ci}
use jarvis_agencyos.Builder.Candidates.Refresh.{refresh_candidate_landing}
use jarvis_agencyos.Builder.Tick.{invalidate_task_evidence}
use jarvis_agencyos.Builder.Recovery.{Probe, reconcile_after_restart}
use jarvis_agencyos.Builder.Leases.{
  NewRun, claim_logical_work, try_insert_active_run, acquire_control_lease, release_control_lease,
}
use jarvis_agencyos.Builder.Landed.{Surround, resume_exact_candidate_ci_and_verify}
use jarvis_agencyos.Builder.Orchestrator.{Cycle, run_owner_software_task}

pub data Call : Type 0 where
  create_draft create_and_lock : OwnerIntent → Call
  lock : ℕ → Call
  set_status : ℕ → TaskStatus → Call
  mutate : ℕ → TaskPatch → Call
  new_run : ℕ → Text → Option ℕ → Option ℕ → Option ℕ → Call
  current_run : Call
  mark_stale : ℕ → Call
  launch_checks : Option Text → Call
  launch_verifies launch_creates : Text → ℕ → Call
  points_at : ℕ → Call
  launch_on_run_begins : Option Text → ℕ → Call
  launch_ends refresh_ends cancel_ends collect_ends : Run → Answer → Call
  asks_provider : Option Text → ℕ → Bool → Call
  apply_result : ℕ → Option PartialResult → Call
  repair : ℕ → FailureClass → Text → Call
  register : CandidateInput → Call
  approve : ℕ → Text → Option ℕ → Option Text → ApprovalStatus → Call
  verify : ℕ → Surroundings → Call
  drop_verification drop_review : ℕ → Call
  reviews : ℕ → Invoker → Option (Option ℕ) → Call
  waits_for_ci : ℕ → Option Waiting → ℕ → Call
  resumes : ℕ → Waiting → Surround → Call
  refreshes_landing : ℕ → GithubClient → Call
  drops_evidence : ℕ → Call
  recovers : Probe → Call
  claims : OwnerIntent → Call
  inserts_run : ℕ → Text → Text → NewRun → Call
  takes_lease : Text → Text → Option ℕ → Option ℕ → Call
  drops_lease : Text → Option Text → Call
  orchestrates : Option Text → OwnerIntent → Option ℕ → (ℕ → Cycle) → Call
  time_passes : ℕ → Call

module _ (env : Runtime) where
  unfoldable pub perform : Call → Action Unit
  perform (create_draft input) = create_draft_task input >> pure tt
  perform (create_and_lock input) = create_and_lock_task env input >> pure tt
  perform (lock id) = lock_task env id >> pure tt
  perform (set_status id status) = update_task_status env id status >> pure tt
  perform (mutate id patch) = attempt_mutate_locked_task id patch >> pure tt
  perform (new_run task provider run agent attempt) =
      create_run env task provider run agent attempt >> pure tt
  perform current_run = get_current_coding_run >> pure tt
  perform (mark_stale id) = mark_run_stale id >> pure tt
  perform (launch_checks provider) = launch_check env provider >> pure tt
  perform (launch_verifies name task) = launch_verify env name task >> pure tt
  perform (launch_creates name task) = launch_create env name task >> pure tt
  perform (points_at run) = set_current (some run) >> pure tt
  perform (launch_on_run_begins provider id) = launch_prepare_on_run env provider id >> pure tt
  perform (launch_ends run answer) = launch_settle env run answer >> pure tt
  perform (refresh_ends run answer) = refresh_settle run answer >> pure tt
  perform (cancel_ends run answer) = cancel_settle run answer >> pure tt
  perform (collect_ends run answer) = collect_settle run answer >> pure tt
  perform (asks_provider provider id terminal) = mapped_run provider id terminal >> pure tt
  perform (apply_result id answer) = apply_provider_result id answer >> pure tt
  perform (repair task failure provider) = begin_repair_attempt env task failure provider >> pure tt
  perform (register input) = register_exact_candidate env input >> pure tt
  perform (approve task by candidate sha status) =
      record_approval env task by candidate sha status >> pure tt
  perform (verify id w) = verify_exact_candidate env id w >> pure tt
  perform (drop_verification id) = invalidate_verification id >> pure tt
  perform (drop_review id) = invalidate_review id >> pure tt
  perform (reviews id invoker presented) =
      review_exact_candidate env id invoker presented >> pure tt
  perform (waits_for_ci fuel client id) = wait_for_exact_candidate_ci fuel client id >> pure tt
  perform (resumes task waiting w) =
      resume_exact_candidate_ci_and_verify env task waiting w >> pure tt
  perform (refreshes_landing id client) = refresh_candidate_landing id client >> pure tt
  perform (drops_evidence task) = invalidate_task_evidence task
  perform (recovers probe) = reconcile_after_restart env probe >> pure tt
  perform (claims input) = claim_logical_work env input >> pure tt
  perform (inserts_run task provider owner given) =
      try_insert_active_run task provider owner given >> pure tt
  perform (takes_lease key owner task run) = acquire_control_lease key owner task run >> pure tt
  perform (drops_lease key owner) = release_control_lease key owner
  perform (orchestrates provider input max_cycles cycles) =
      run_owner_software_task env provider input max_cycles cycles >> pure tt
  perform (time_passes n) = modify (λ s. record s { now = s.now + n })

  -- A call that throws has changed what it changed before.
  unfoldable pub run_calls : Builder → List Call → Builder
  run_calls s [] = s
  run_calls s (c ∷ cs) = run_calls (perform c s).1 cs

abbrev pub to_draft : Option TaskStatus → Bool
to_draft none = false
to_draft (some status) = is_draft status

-- A call that sets a task's status to DRAFT.
abbrev pub reopens : Call → Bool
reopens (set_status id status) = is_draft status
reopens (mutate id patch) = to_draft patch.status
reopens _ = false
