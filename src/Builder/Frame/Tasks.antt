-- ===== src/Builder/Frame/Tasks.antt =====
-- Operations that write no task keep whatever holds of the tasks.
use jarvis_agencyos.Base.{ℕ, Option, List}
use jarvis_agencyos.Exec.Keeps.{
  Keeps, keeps_rules, Keeps-modify, Keeps-bind, Keeps-gets, Keeps-raise,
}
use jarvis_agencyos.Builder.Contracts.{EventType}
use jarvis_agencyos.Builder.State.{
  Task, Run, Candidate, Verification, Review, Approval, Builder, Payload,
}
use jarvis_agencyos.Builder.Store.{
  new_id, insert_run, release_control_lease_by_run, update_run, try_claim_pending_dispatch,
  insert_candidate, update_candidate, insert_verification, update_verification, update_review,
  insert_approval, update_approval, append_event,
}
use jarvis_agencyos.Builder.Runs.{set_current, drop_current}

module _ (P : List Task → Type 0) where
  abbrev pub OnTasks : Builder → Type 0
  OnTasks s = P s.tasks

  kept : (s : Builder) → P s.tasks → P s.tasks
  kept s h = h

  pub new_id-tasks : Keeps OnTasks (new_id)
  unfolding new_id
  new_id-tasks = search (keeps_rules, Keeps-modify, kept) depth 20

  pub insert_run-tasks : (r : Run) → Keeps OnTasks (insert_run r)
  unfolding insert_run
  insert_run-tasks r = search (keeps_rules, Keeps-modify, kept) depth 20

  pub release_control_lease_by_run-tasks :
      (id : ℕ) → Keeps OnTasks (release_control_lease_by_run id)
  unfolding release_control_lease_by_run
  release_control_lease_by_run-tasks id = search (keeps_rules, Keeps-modify, kept) depth 20

  pub update_run-tasks : (id : ℕ) (f : Run → Run) → Keeps OnTasks (update_run id f)
  unfolding update_run
  update_run-tasks id f = search (keeps_rules, Keeps-modify, kept) depth 20

  pub try_claim_pending_dispatch-tasks : (id : ℕ) → Keeps OnTasks (try_claim_pending_dispatch id)
  unfolding try_claim_pending_dispatch
  try_claim_pending_dispatch-tasks id = search (keeps_rules, Keeps-modify, kept) depth 20

  pub insert_candidate-tasks : (c : Candidate) → Keeps OnTasks (insert_candidate c)
  unfolding insert_candidate
  insert_candidate-tasks c = search (keeps_rules, Keeps-modify, kept) depth 20

  pub update_candidate-tasks :
      (id : ℕ) (f : Candidate → Candidate) → Keeps OnTasks (update_candidate id f)
  unfolding update_candidate
  update_candidate-tasks id f = search (keeps_rules, Keeps-modify, kept) depth 20

  pub insert_verification-tasks : (v : Verification) → Keeps OnTasks (insert_verification v)
  unfolding insert_verification
  insert_verification-tasks v = search (keeps_rules, Keeps-modify, kept) depth 20

  pub update_verification-tasks :
      (id : ℕ) (f : Verification → Verification) → Keeps OnTasks (update_verification id f)
  unfolding update_verification
  update_verification-tasks id f = search (keeps_rules, Keeps-modify, kept) depth 20

  pub update_review-tasks : (id : ℕ) (f : Review → Review) → Keeps OnTasks (update_review id f)
  unfolding update_review
  update_review-tasks id f = search (keeps_rules, Keeps-modify, kept) depth 20

  pub insert_approval-tasks : (a : Approval) → Keeps OnTasks (insert_approval a)
  unfolding insert_approval
  insert_approval-tasks a = search (keeps_rules, Keeps-modify, kept) depth 20

  pub update_approval-tasks :
      (id : ℕ) (f : Approval → Approval) → Keeps OnTasks (update_approval id f)
  unfolding update_approval
  update_approval-tasks id f = search (keeps_rules, Keeps-modify, kept) depth 20

  pub append_event-tasks :
      (t r : Option ℕ) (e : EventType) (p : Payload) → Keeps OnTasks (append_event t r e p)
  unfolding append_event
  append_event-tasks t r e p = search (keeps_rules, Keeps-modify, kept) depth 20

  pub set_current-tasks : (c : Option ℕ) → Keeps OnTasks (set_current c)
  unfolding set_current
  set_current-tasks c = search (keeps_rules, Keeps-modify, kept) depth 20

  pub drop_current-tasks : (id : ℕ) → Keeps OnTasks (drop_current id)
  unfolding drop_current
  drop_current-tasks id = search (keeps_rules, Keeps-modify, kept) depth 20

pub ruleset task_frame = (
  keeps_rules, new_id-tasks, insert_run-tasks, release_control_lease_by_run-tasks, update_run-tasks,
  try_claim_pending_dispatch-tasks, insert_candidate-tasks, update_candidate-tasks,
  insert_verification-tasks, update_verification-tasks, update_review-tasks, insert_approval-tasks,
  update_approval-tasks, append_event-tasks, set_current-tasks, drop_current-tasks,
)
