-- ===== src/Builder/Tick.antt =====
-- What a tick looks for: failed CI, requested changes, a handoff to wait for, a task to continue
-- (src/builder/tick.js).
pub mod Requested
use jarvis_agencyos.Base.{
  ℕ, Bool, true, false, not, ◌&&◌, ◌||◌, Option, none, some, List, [], ◌∷◌, reverse, Text, codes,
  has_text, lower, if◌then◌else◌, is_some, select, find, first, last,
}
use jarvis_agencyos.Exec.{pure, when, if_some, for_each, ◌>>=◌, ◌>>◌}
use jarvis_agencyos.Builder.Contracts.{
  TaskStatus, RunStatus, CandidateStatus, ReviewStatus, is_fenced,
}
use jarvis_agencyos.Builder.State.{Task, Run, Candidate, Review, Action}
use jarvis_agencyos.Builder.Store.{
  get_task, get_run, list_tasks, list_runs_for_task, list_candidates_for_task,
  list_verifications_for_candidate, list_reviews_for_candidate, update_candidate,
}
use jarvis_agencyos.Builder.Authority.{invalidate_verification, invalidate_review}
use jarvis_agencyos.Builder.Review.Exact.{is_request}

-- `OPEN_TASK_STATUSES`
abbrev pub is_open : TaskStatus → Bool
is_open TaskStatus.locked = true
is_open TaskStatus.running = true
is_open TaskStatus.failed = true
is_open _ = false

-- `STOP_TASK_STATUSES`
abbrev pub is_stop : TaskStatus → Bool
is_stop TaskStatus.needs_owner = true
is_stop TaskStatus.blocked = true
is_stop TaskStatus.accepted = true
is_stop TaskStatus.cancelled = true
is_stop _ = false

-- Work that was found: the task, and the candidate that shows it.
pub record Work : Type 0 where
  pub task : Task
  pub candidate : Option Candidate
  pub pr : Option ℕ

-- A loop that returns at the first element that gives something.
unfoldable pub first_found : {A B : Type 0} → List A → (A → Action (Option B)) → Action (Option B)
first_found [] look = pure none
first_found (x ∷ xs) look =
    let rest = first_found xs look in look x >>= λ found. if_some found (λ b. pure (some b)) rest

-- `openTasks`
unfoldable pub open_tasks : Action (List Task)
open_tasks = list_tasks >>= λ tasks. pure (select (λ t. is_open t.status) tasks)

abbrev pub is_withdrawn : CandidateStatus → Bool
is_withdrawn CandidateStatus.superseded = true
is_withdrawn CandidateStatus.rejected = true
is_withdrawn _ = false

-- `candidateIsAuthoritative`
unfoldable pub candidate_is_authoritative : Candidate → Action Bool
candidate_is_authoritative c =
    if is_withdrawn c.status
    then pure false
    else (get_run c.factory_run_id >>= λ run.
        if_some run (λ r. pure (not (is_fenced r.status))) (pure false))

abbrev pub failed_conclusions : List Text
failed_conclusions =
    codes "failure" ∷ codes "timed_out" ∷ codes "action_required" ∷ codes "cancelled" ∷ []

abbrev pub concludes_failure : Option Text → Bool
concludes_failure none = false
concludes_failure (some t) = has_text (lower t) failed_conclusions

-- `candidateHasFailedCi`
unfoldable pub candidate_has_failed_ci : Candidate → Action Bool
candidate_has_failed_ci c = candidate_is_authoritative c >>= λ authoritative.
    pure (authoritative && concludes_failure c.ci_conclusion)

-- `findFailedCiWork`; the newest candidate of a task comes first.
unfoldable pub find_failed_ci_work : Action (Option Work)
find_failed_ci_work = do
  tasks ← open_tasks
  first_found tasks λ task. do
    candidates ← list_candidates_for_task task.task_id
    first_found (reverse candidates) λ c. do
      failed ← candidate_has_failed_ci c
      pure (
          if failed
          then some (record { task = task; candidate = some c; pr = c.pr_number })
          else none)

-- A review that the trigger hands over: its task, and `pr || pr_number`.
pub record GithubReview : Type 0 where
  pub task_id : Option ℕ
  pub pr : Option ℕ

abbrev pub open_work : Option ℕ → Option Task → Option Work
open_work pr none = none
open_work pr (some t) =
    if is_open t.status then some (record { task = t; candidate = none; pr = pr }) else none

unfoldable pub handed_over : GithubReview → Action (Option Work)
handed_over review =
    if_some review.task_id (λ id. get_task id >>= λ task. pure (open_work review.pr task))
      (pure none)

-- `r.status`: a row has its status under another name, `review_status`, so nothing is there.
abbrev pub status_property : Review → Option ReviewStatus
status_property r = none

abbrev pub is_requested : Option ReviewStatus → Bool
is_requested none = false
is_requested (some status) = is_request status

-- `r.status === REQUEST_CHANGES && !r.invalidated_at`
abbrev pub requests_changes : Review → Bool
requests_changes r = is_requested (status_property r) && not (is_some r.invalidated_at)

unfoldable pub requested_in : Task → Candidate → Action (Option Work)
requested_in task c = do
  reviews ← list_reviews_for_candidate c.candidate_id
  let requested = find requests_changes reviews
  if not (is_some requested) then pure none else do
    authoritative ← candidate_is_authoritative c
    pure (
        if authoritative
        then some (record { task = task; candidate = some c; pr = c.pr_number })
        else none)

-- The second loop: the reviews that are stored.
unfoldable pub stored_requests : Action (Option Work)
stored_requests = open_tasks >>= λ tasks. first_found tasks λ task.
    list_candidates_for_task task.task_id >>= λ candidates.
    first_found candidates (requested_in task)

-- `findChangesRequestedWork`
unfoldable pub find_changes_requested_work : List GithubReview → Action (Option Work)
find_changes_requested_work reviews = first_found reviews handed_over >>= λ handed.
    if_some handed (λ w. pure (some w)) stored_requests

-- `latestRun`
unfoldable pub latest_run : ℕ → Action (Option Run)
latest_run id = list_runs_for_task id >>= λ runs. pure (last runs)

-- `taskHasAuthoritativeFailedCi`
unfoldable pub task_has_authoritative_failed_ci : ℕ → Action Bool
task_has_authoritative_failed_ci id = do
  candidates ← list_candidates_for_task id
  found ←
      first_found candidates
        λ c. do failed ← candidate_has_failed_ci c; pure (if failed then some c else none)
  pure (is_some found)

abbrev pub is_succeeded : RunStatus → Bool
is_succeeded RunStatus.succeeded = true
is_succeeded _ = false

-- The task and the run of a handoff that a verification is awaited for.
pub record Handoff : Type 0 where
  pub task_id : ℕ
  pub factory_run_id : ℕ

unfoldable pub awaits_handoff : Task → Action (Option Handoff)
awaits_handoff task = if is_stop task.status then pure none else do
  latest ← latest_run task.task_id
  if_some latest
      (λ r. if not (is_succeeded r.status) then pure none else do
        failed ← task_has_authoritative_failed_ci task.task_id
        pure (
            if failed
            then none
            else some (record { task_id = task.task_id; factory_run_id = r.factory_run_id })))
      (pure none)

-- `findAwaitingHandoff`
unfoldable pub find_awaiting_handoff : Action (Option Handoff)
find_awaiting_handoff = list_tasks >>= λ tasks. first_found tasks awaits_handoff

pub record Continuation : Type 0 where
  pub task : Task
  pub repair : Bool

abbrev pub needs_repair : RunStatus → Bool
needs_repair RunStatus.failed = true
needs_repair RunStatus.cancelled = true
needs_repair RunStatus.stale = true
needs_repair _ = false

abbrev pub continued : Task → Option Run → Option Continuation
continued task none = some (record { task = task; repair = false })
continued task (some r) =
    if is_succeeded r.status
    then none
    else some (record { task = task; repair = needs_repair r.status })

abbrev pub is_failed_task : TaskStatus → Bool
is_failed_task TaskStatus.failed = true
is_failed_task _ = false

abbrev pub works : TaskStatus → Bool
works TaskStatus.running = true
works TaskStatus.locked = true
works _ = false

unfoldable pub continues_with : Task → Action (Option Continuation)
continues_with task =
    if not (works task.status)
    then pure none
    else (latest_run task.task_id >>= λ r. pure (continued task r))

-- `findContinuation`
unfoldable pub find_continuation : Action (Option Continuation)
find_continuation = do
  tasks ← open_tasks
  if_some (find (λ t. is_failed_task t.status) tasks)
      (λ t. pure (some (record { task = t; repair = true }))) (first_found tasks continues_with)

abbrev is_superseded : CandidateStatus → Bool
is_superseded CandidateStatus.superseded = true
is_superseded _ = false

unfoldable pub invalidate_candidate_evidence : Candidate → Action Unit
invalidate_candidate_evidence c = do
  when (not (is_superseded c.status)) (
      update_candidate c.candidate_id (λ d. record d { status = CandidateStatus.superseded })
      >> pure tt)
  verifications ← list_verifications_for_candidate c.candidate_id
  for_each verifications λ v.
      when (not (is_some v.invalidated_at)) (invalidate_verification v.verification_id >> pure tt)
  reviews ← list_reviews_for_candidate c.candidate_id
  for_each reviews
      λ r. when (not (is_some r.invalidated_at)) (invalidate_review r.review_id >> pure tt)

-- `invalidateTaskEvidence`
unfoldable pub invalidate_task_evidence : ℕ → Action Unit
invalidate_task_evidence id = do
  candidates ← list_candidates_for_task id
  for_each candidates invalidate_candidate_evidence
