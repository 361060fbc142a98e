-- ===== src/Builder/Frame/Runs.antt =====
-- Operations that write no run keep whatever holds of the runs.
use jarvis_agencyos.Base.{ℕ, Option, List, [], ◌∷◌}
use jarvis_agencyos.Exec.Keeps.{Keeps, keeps_rules, Keeps-modify}
use jarvis_agencyos.Builder.Contracts.{TaskStatus, EventType, Runtime}
use jarvis_agencyos.Builder.State.{Task, Run, Builder, Payload}
use jarvis_agencyos.Builder.Store.{
  new_id, get_task, list_active_runs, release_control_lease_by_run, update_task, append_event,
}
use jarvis_agencyos.Builder.Runs.{
  set_current, drop_current, update_task_status, verify_locked_task, adopt, get_current_coding_run,
}

module _ (P : List Run → Type 0) where
  abbrev pub OnRuns : Builder → Type 0
  OnRuns s = P s.runs

  same : (s : Builder) → P s.runs → P s.runs
  same s h = h

  pub new_id-runs : Keeps OnRuns (new_id)
  unfolding new_id
  new_id-runs = search (keeps_rules, Keeps-modify, same) depth 20

  pub set_current-runs : (c : Option ℕ) → Keeps OnRuns (set_current c)
  unfolding set_current
  set_current-runs c = search (keeps_rules, Keeps-modify, same) depth 20

  pub drop_current-runs : (id : ℕ) → Keeps OnRuns (drop_current id)
  unfolding drop_current
  drop_current-runs id = search (keeps_rules, Keeps-modify, same) depth 20

  pub append_event-runs :
      (t r : Option ℕ) (e : EventType) (p : Payload) → Keeps OnRuns (append_event t r e p)
  unfolding append_event
  append_event-runs t r e p = search (keeps_rules, Keeps-modify, same) depth 20

  pub release_control_lease_by_run-runs : (id : ℕ) → Keeps OnRuns (release_control_lease_by_run id)
  unfolding release_control_lease_by_run
  release_control_lease_by_run-runs id = search (keeps_rules, Keeps-modify, same) depth 20

  pub update_task-runs : (id : ℕ) (f : Task → Task) → Keeps OnRuns (update_task id f)
  unfolding update_task
  update_task-runs id f = search (keeps_rules, Keeps-modify, same) depth 20

pub ruleset run_frame = (
  keeps_rules, new_id-runs, set_current-runs, drop_current-runs, append_event-runs,
  release_control_lease_by_run-runs, update_task-runs,
)

module _ (P : List Run → Type 0) where
  pub update_task_status-runs :
      (env : Runtime) (id : ℕ) (status : TaskStatus)
      → Keeps (OnRuns P) (update_task_status env id status)
  unfolding update_task_status get_task
  update_task_status-runs env id status = search run_frame depth 20

  pub verify_locked_task-runs :
      (env : Runtime) (id : ℕ) → Keeps (OnRuns P) (verify_locked_task env id)
  unfolding verify_locked_task get_task
  verify_locked_task-runs env id = search run_frame depth 20

  adopt-runs : (rs : List Run) → Keeps (OnRuns P) (adopt rs)
  unfolding adopt
  adopt-runs [] = search run_frame
  adopt-runs (r ∷ []) = search run_frame
  adopt-runs (r ∷ q ∷ rs) = search run_frame

  pub get_current_coding_run-runs : Keeps (OnRuns P) get_current_coding_run
  unfolding get_current_coding_run list_active_runs
  get_current_coding_run-runs = search (run_frame, adopt-runs) depth 20
