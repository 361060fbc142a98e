-- ===== src/Builder/Store.antt =====
-- The statements of the store (src/builder/store.js), with the constraints of the SQLite schema.
use jarvis_agencyos.Base.{
  ℕ, ◌+◌, Bool, true, false, not, ◌&&◌, ◌||◌, Option, none, some, List, [], ◌∷◌, ◌++◌, ◌==◌, leb,
  same_id, is_some, select, find, update, any,
}
use jarvis_agencyos.Exec.{pure, gets, require_some, modify, require, when, ◌>>=◌, ◌>>◌}
use jarvis_agencyos.Builder.Contracts.{EventType, RunStatus, is_active, is_pending}
use jarvis_agencyos.Builder.State.{
  Task, Run, Candidate, Verification, Review, Approval, Payload, Action, unique_violation,
  foreign_key_violation, check_violation, unknown_row,
}

-- `randomUUID`
unfoldable pub new_id : Action ℕ
new_id = do id ← gets (λ s. s.next_id); modify (λ s. record s { next_id = id + 1 }); pure id

abbrev pub find_task : ℕ → List Task → Option Task
find_task id = find (λ t. t.task_id == id)

abbrev pub find_run : ℕ → List Run → Option Run
find_run id = find (λ r. r.factory_run_id == id)

abbrev pub find_candidate : ℕ → List Candidate → Option Candidate
find_candidate id = find (λ c. c.candidate_id == id)

abbrev pub find_verification : ℕ → List Verification → Option Verification
find_verification id = find (λ v. v.verification_id == id)

unfoldable pub get_task : ℕ → Action (Option Task)
get_task id = gets (λ s. find_task id s.tasks)

unfoldable pub get_run : ℕ → Action (Option Run)
get_run id = gets (λ s. find_run id s.runs)

unfoldable pub get_candidate : ℕ → Action (Option Candidate)
get_candidate id = gets (λ s. find_candidate id s.candidates)

unfoldable pub get_verification : ℕ → Action (Option Verification)
get_verification id = gets (λ s. find_verification id s.verifications)

-- A new row may share neither the primary key nor a `logical_work_id` with another.
abbrev pub clashes : Task → Task → Bool
clashes t u =
    (u.task_id == t.task_id)
    || (is_some t.logical_work_id && same_id u.logical_work_id t.logical_work_id)

unfoldable pub insert_task : Task → Action Task
insert_task task = do
  taken ← gets (λ s. any (clashes task) s.tasks)
  require (not taken) unique_violation
  require (leb 1 task.intent_version && leb 1 task.max_attempts) check_violation
  modify (λ s. record s { tasks = s.tasks ++ task ∷ [] })
  pure task

-- `updateTask`: the row after `{ ...current, ...patch }`.
unfoldable pub update_task : ℕ → (Task → Task) → Action Task
update_task id patch = do
  found ← gets (λ s. find_task id s.tasks)
  current ← require_some found unknown_row
  time ← gets (λ s. s.now)
  let next = record (patch current) { task_id = current.task_id; updated_at = time }
  require (leb 1 next.intent_version && leb 1 next.max_attempts) check_violation
  modify (λ s. record s { tasks = update (λ t. t.task_id == id) (λ _. next) s.tasks })
  pure next

unfoldable pub list_tasks : Action (List Task)
list_tasks = gets (λ s. s.tasks)

unfoldable pub list_runs_for_task : ℕ → Action (List Run)
list_runs_for_task id = gets (λ s. select (λ r. r.task_id == id) s.runs)

unfoldable pub list_active_runs : Action (List Run)
list_active_runs = gets (λ s. select (λ r. is_active r.status) s.runs)

unfoldable pub insert_run : Run → Action Run
insert_run run = do
  taken ← gets (λ s.
      any
        (λ r.
          (r.factory_run_id == run.factory_run_id)
          || ((r.task_id == run.task_id) && (r.attempt == run.attempt)))
        s.runs)
  require (not taken) unique_violation
  known ← gets (λ s. is_some (find_task run.task_id s.tasks))
  require known foreign_key_violation
  require (leb 1 run.attempt) check_violation
  modify (λ s. record s { runs = s.runs ++ run ∷ [] })
  pure run

unfoldable pub release_control_lease_by_run : ℕ → Action Unit
release_control_lease_by_run id =
    modify
      λ s. record s { leases = select (λ l. not (same_id l.factory_run_id (some id))) s.leases }

-- `updateRun`: a run that is no longer active gives back its lease.
unfoldable pub update_run : ℕ → (Run → Run) → Action Run
unfolding release_control_lease_by_run
update_run id patch = do
  found ← gets (λ s. find_run id s.runs)
  current ← require_some found unknown_row
  let next = record (patch current) { factory_run_id = current.factory_run_id }
  modify (λ s. record s { runs = update (λ r. r.factory_run_id == id) (λ _. next) s.runs })
  when (not (is_active next.status)) (release_control_lease_by_run id)
  pure next

-- The row that one `UPDATE … WHERE status = 'PENDING'` may take.
abbrev claimable : ℕ → Run → Bool
claimable id r = (r.factory_run_id == id) && is_pending r.status && not (is_some r.provider_run_id)

unfoldable pub try_claim_pending_dispatch : ℕ → Action (Option Run)
try_claim_pending_dispatch id = do
  changes ← gets (λ s. any (claimable id) s.runs)
  modify (λ s. record s {
    runs = update (claimable id) (λ r. record r { status = RunStatus.launched }) s.runs;
  })
  row ← gets (λ s. find_run id s.runs)
  pure (elim changes [ true ↦ row | false ↦ none ])

unfoldable pub insert_candidate : Candidate → Action Candidate
insert_candidate c = do
  taken ← gets (λ s. is_some (find_candidate c.candidate_id s.candidates))
  require (not taken) unique_violation
  known ←
      gets
        (λ s. is_some (find_task c.task_id s.tasks) && is_some (find_run c.factory_run_id s.runs))
  require known foreign_key_violation
  modify (λ s. record s { candidates = s.candidates ++ c ∷ [] })
  pure c

unfoldable pub update_candidate : ℕ → (Candidate → Candidate) → Action Candidate
update_candidate id patch = do
  found ← gets (λ s. find_candidate id s.candidates)
  current ← require_some found unknown_row
  let next = record (patch current) { candidate_id = current.candidate_id }
  modify
      (λ s. record s { candidates = update (λ c. c.candidate_id == id) (λ _. next) s.candidates })
  pure next

unfoldable pub list_candidates_for_task : ℕ → Action (List Candidate)
list_candidates_for_task id = gets (λ s. select (λ c. c.task_id == id) s.candidates)

unfoldable pub insert_verification : Verification → Action Verification
insert_verification v = do
  taken ← gets (λ s. is_some (find_verification v.verification_id s.verifications))
  require (not taken) unique_violation
  known ← gets (λ s. is_some (find_candidate v.candidate_id s.candidates))
  require known foreign_key_violation
  modify (λ s. record s { verifications = s.verifications ++ v ∷ [] })
  pure v

unfoldable pub update_verification : ℕ → (Verification → Verification) → Action Verification
update_verification id patch = do
  found ← gets (λ s. find_verification id s.verifications)
  current ← require_some found unknown_row
  let next = record (patch current) { verification_id = current.verification_id }
  modify (λ s. record s {
    verifications = update (λ v. v.verification_id == id) (λ _. next) s.verifications;
  })
  pure next

unfoldable pub list_verifications_for_candidate : ℕ → Action (List Verification)
list_verifications_for_candidate id = gets (λ s. select (λ v. v.candidate_id == id) s.verifications)

abbrev pub find_review : ℕ → List Review → Option Review
find_review id = find (λ r. r.review_id == id)

unfoldable pub get_review : ℕ → Action (Option Review)
get_review id = gets (λ s. find_review id s.reviews)

unfoldable pub insert_review : Review → Action Review
insert_review r = do
  taken ← gets (λ s. is_some (find_review r.review_id s.reviews))
  require (not taken) unique_violation
  known ← gets (λ s. is_some (find_candidate r.candidate_id s.candidates))
  require known foreign_key_violation
  modify (λ s. record s { reviews = s.reviews ++ r ∷ [] })
  pure r

unfoldable pub list_reviews_for_candidate : ℕ → Action (List Review)
list_reviews_for_candidate id = gets (λ s. select (λ r. r.candidate_id == id) s.reviews)

unfoldable pub update_review : ℕ → (Review → Review) → Action Review
update_review id patch = do
  found ← gets (λ s. find_review id s.reviews)
  current ← require_some found unknown_row
  let next = record (patch current) { review_id = current.review_id }
  modify (λ s. record s { reviews = update (λ r. r.review_id == id) (λ _. next) s.reviews })
  pure next

unfoldable pub list_approvals_for_task : ℕ → Action (List Approval)
list_approvals_for_task id = gets (λ s. select (λ a. a.task_id == id) s.approvals)

unfoldable pub insert_approval : Approval → Action Approval
insert_approval a = do
  taken ← gets (λ s. any (λ b. b.approval_id == a.approval_id) s.approvals)
  require (not taken) unique_violation
  known ← gets (λ s. is_some (find_task a.task_id s.tasks))
  require known foreign_key_violation
  modify (λ s. record s { approvals = s.approvals ++ a ∷ [] })
  pure a

unfoldable pub update_approval : ℕ → (Approval → Approval) → Action Approval
update_approval id patch = do
  found ← gets (λ s. find (λ a. a.approval_id == id) s.approvals)
  current ← require_some found unknown_row
  let next = record (patch current) { approval_id = current.approval_id }
  modify (λ s. record s { approvals = update (λ a. a.approval_id == id) (λ _. next) s.approvals })
  pure next

-- `appendEvent`; the event's own identifier is not kept.
unfoldable pub append_event : Option ℕ → Option ℕ → EventType → Payload → Action Unit
append_event task_id factory_run_id event_type payload = modify λ s. record s {
  events =
      s.events
      ++ record {
        task_id = task_id;
        factory_run_id = factory_run_id;
        event_type = event_type;
        payload = payload;
        timestamp = s.now;
      }
        ∷ [];
}
