-- ===== src/Builder/Acceptance.antt =====
-- The status ACCEPTED over histories of calls (src/builder/core.js).
pub mod Fresh
use jarvis_agencyos.Base.{
  ℕ, ◌≡◌, refl, sym, ◌∙◌, is_some, Text, Bool, true, false, not, Option, none, some, List, [], ◌∷◌,
  ◌==◌, all, All, All-find, arith,
}
use jarvis_agencyos.Exec.Keeps.{Keeps, Keeps-modify, Keeps-both, Keeps-bind, Keeps-require}
use jarvis_agencyos.Exec.Does.{Does-weaken, Keeps-bind_result}
use jarvis_agencyos.Builder.Contracts.{TaskStatus, Runtime}
use jarvis_agencyos.Builder.State.{Task, Builder}
use jarvis_agencyos.Builder.Store.{find_task, get_task, insert_task, update_task}
use jarvis_agencyos.Builder.Lock.{
  OwnerIntent, id_or_new, create_draft_task, lock_draft, lock_task, create_and_lock_task,
}
use jarvis_agencyos.Builder.Patch.{TaskPatch, apply_patch, attempt_mutate_locked_task}
use jarvis_agencyos.Builder.Runs.{update_task_status}
use jarvis_agencyos.Builder.Verifier.{is_accepted}
use jarvis_agencyos.Builder.Calls.{
  Call, create_draft, set_status, mutate, time_passes, perform, run_calls,
}
use jarvis_agencyos.Builder.FinishLine.Rows.{find_task-id}
use jarvis_agencyos.Builder.Acceptance.Fresh.{
  Found, insert_task-Found, update_task-Found, create_and_lock_task-fresh,
}
use jarvis_agencyos.Builder.Orchestrator.{Cycle, run_owner_software_task}
use jarvis_agencyos.Builder.Frame.TaskOrchestrations.{run_cycles-kept}
use jarvis_agencyos.Builder.Frame.Tasks.{OnTasks, append_event-tasks, task_frame}
use jarvis_agencyos.Builder.Frame.TaskRuns.{task_rules}
use jarvis_agencyos.Builder.Frame.TaskCandidates.{candidate_rules}
use jarvis_agencyos.Builder.Frame.TaskRows.{insert_task-rows, update_task-own_rows}
use jarvis_agencyos.Builder.Frame.TaskWaits.{wait_rules}
use jarvis_agencyos.Builder.Frame.TaskLeases.{lease_rules}
use jarvis_agencyos.Builder.Frame.TaskReviews.{review_exact_candidate-status, resume-status}
use jarvis_agencyos.Builder.Frame.TaskStatuses.{
  WorkStatus, running, blocked, needs_owner, verified, launch_settle-status,
  begin_repair_attempt-status, verify_exact_candidate-status,
}

abbrev to_accepted : Option TaskStatus → Bool
to_accepted none = false
to_accepted (some status) = is_accepted status

-- A call by which its caller accepts a task.
abbrev pub accepts : Call → Bool
accepts (set_status id status) = is_accepted status
accepts (mutate id patch) = to_accepted patch.status
accepts _ = false

module _ (env : Runtime) (id : ℕ) where
  abbrev Unaccepted : Task → Type 0
  Unaccepted t = t.task_id ≡ id → is_accepted t.status ≡ false

  -- The task has a row, and none of its rows is accepted.
  abbrev Open : List Task → Type 0
  Open ts = All Unaccepted ts × Found id ts

  update_task-Open :
      (j : ℕ) (f : Task → Task)
      → ((t : Task)
          → t.task_id ≡ j
          → Unaccepted t
          → t.task_id ≡ id
          → is_accepted (f t).status ≡ false)
      → Keeps (OnTasks Open) (update_task j f)
  update_task-Open j f k =
      Keeps-both _ (update_task-own_rows Unaccepted j f (λ t n own q. k t own q))
        (update_task-Found id j f)

  insert_task-Open :
      (t : Task) → is_accepted t.status ≡ false → Keeps (OnTasks Open) (insert_task t)
  insert_task-Open t h =
      Keeps-both _ (insert_task-rows Unaccepted t (λ e. h)) (insert_task-Found id t)

  status_row :
      (j : ℕ) (st : TaskStatus)
      → (j ≡ id → is_accepted st ≡ false)
      → Keeps (OnTasks Open) (update_task j (λ t. record t { status = st }))
  status_row j st h = update_task-Open j _ (λ t own q e. h (sym own ∙ e))

  status-Unaccepted :
      (j : ℕ) (st : TaskStatus)
      → (j ≡ id → is_accepted st ≡ false)
      → Keeps (OnTasks Open) (update_task_status env j st)
  unfolding update_task_status get_task
  status-Unaccepted j st h = search (task_frame, status_row) depth 20

  plain-Unaccepted :
      (j : ℕ) (st : TaskStatus)
      → is_accepted st ≡ false
      → Keeps (OnTasks Open) (update_task_status env j st)
  plain-Unaccepted j st h = status-Unaccepted j st (λ e. h)

  work-Unaccepted :
      (j : ℕ) (st : TaskStatus) → WorkStatus st → Keeps (OnTasks Open) (update_task_status env j st)
  work-Unaccepted j _ running = plain-Unaccepted j TaskStatus.running refl
  work-Unaccepted j _ blocked = plain-Unaccepted j TaskStatus.blocked refl
  work-Unaccepted j _ needs_owner = plain-Unaccepted j TaskStatus.needs_owner refl
  work-Unaccepted j _ verified = plain-Unaccepted j TaskStatus.verified refl

  id_or_new-Unaccepted : (o : Option ℕ) → Keeps (OnTasks Open) (id_or_new o)
  unfolding id_or_new
  id_or_new-Unaccepted none = search task_frame
  id_or_new-Unaccepted (some j) = search task_frame

  draft-Unaccepted : (input : OwnerIntent) → Keeps (OnTasks Open) (create_draft_task input)
  unfolding create_draft_task
  draft-Unaccepted input = search (task_frame, insert_task-Open, id_or_new-Unaccepted) depth 20

  lock-Unaccepted : (j : ℕ) → Keeps (OnTasks Open) (lock_task env j)
  unfolding lock_task lock_draft get_task
  lock-Unaccepted j = search (task_frame, update_task-Open) depth 20

  create_and_lock-Unaccepted :
      (input : OwnerIntent) → Keeps (OnTasks Open) (create_and_lock_task env input)
  unfolding create_and_lock_task
  create_and_lock-Unaccepted input = search (task_frame, draft-Unaccepted, lock-Unaccepted) depth 20

  patch_row :
      (j : ℕ) (p : TaskPatch)
      → to_accepted p.status ≡ false
      → Keeps (OnTasks Open) (update_task j (apply_patch p))
  unfolding apply_patch
  patch_row j p h = update_task-Open j (apply_patch p) (λ t own q e. ground (arith, q e))

  patch-Unaccepted :
      (j : ℕ) (p : TaskPatch)
      → to_accepted p.status ≡ false
      → Keeps (OnTasks Open) (attempt_mutate_locked_task j p)
  unfolding attempt_mutate_locked_task get_task
  patch-Unaccepted j p h = search (task_frame, patch_row) depth 20

  -- An orchestration accepts the task that it has created, which is another one.
  orchestration-Unaccepted :
      (provider : Option Text) (input : OwnerIntent) (max_cycles : Option ℕ) (cycles : ℕ → Cycle)
      → Keeps (OnTasks Open) (run_owner_software_task env provider input max_cycles cycles)
  unfolding run_owner_software_task
  orchestration-Unaccepted provider input max_cycles cycles =
      Keeps-bind _ _ (Keeps-require _ _) λ _.
        Keeps-bind_result _ _ (create_and_lock-Unaccepted input)
          (Does-weaken _ (λ s h. h.1) (create_and_lock_task-fresh id env input))
          λ task other. Keeps-bind _ _ (append_event-tasks Open _ _ _ _) λ _.
            run_cycles-kept Open env provider task.task_id work-Unaccepted
              (status-Unaccepted task.task_id TaskStatus.accepted (λ e. absurd (other e))) _ cycles
              _

  ruleset acceptance_rules = (
    task_rules, candidate_rules, plain-Unaccepted, draft-Unaccepted, lock-Unaccepted,
    patch-Unaccepted, launch_settle-status, begin_repair_attempt-status,
    verify_exact_candidate-status, work-Unaccepted, create_and_lock-Unaccepted, wait_rules,
    lease_rules, review_exact_candidate-status, resume-status, orchestration-Unaccepted,
  )

  perform-Unaccepted : (c : Call) → accepts c ≡ false → Keeps (OnTasks Open) (perform env c)
  unfolding perform
  perform-Unaccepted (create_draft input) h = search acceptance_rules
  perform-Unaccepted (time_passes n) h = Keeps-modify _ (λ s k. k)
  perform-Unaccepted _ h = search acceptance_rules

  run_calls-Open :
      (s : Builder) (cs : List Call)
      → all (λ c. not (accepts c)) cs ≡ true
      → Open s.tasks
      → Open (run_calls env s cs).tasks
  unfolding run_calls
  run_calls-Open s [] h k = k
  run_calls-Open s (c ∷ cs) h k =
      run_calls-Open (perform env c s).1 cs (ground arith)
        ((perform-Unaccepted c (ground arith)).at s k)

-- A task that has a row, and no row with the status ACCEPTED, has none after any sequence of the calls
-- that `Call` lists in which no caller sets a status to ACCEPTED by updateTaskStatus or by a patch:
-- whatever providers, hosts and reviewers answer, whatever the verifier passes, and whichever
-- orchestrations run, even those that accept the tasks they have created.
pub Unaccepted-run_calls :
    (env : Runtime) (s : Builder) (cs : List Call) (id : ℕ)
    → all (λ c. not (accepts c)) cs ≡ true
    → is_some (find_task id s.tasks) ≡ true
    → All (Unaccepted env id) s.tasks
    → (t : Task) → find_task id (run_calls env s cs).tasks ≡ some t
    → is_accepted t.status ≡ false
Unaccepted-run_calls env s cs id h there k t e =
    All-find (Unaccepted env id) (λ u. u.task_id == id) (run_calls env s cs).tasks t
      (run_calls-Open env id s cs h (k, there)).0 e (find_task-id id (run_calls env s cs).tasks t e)
