-- ===== src/Builder/FinishLine/History.antt =====
-- Locked finish lines over histories of calls (src/builder/core.js).
use jarvis_agencyos.Base.{ℕ, ◌≡◌, refl, true, false, List, [], ◌∷◌, some, all, not, arith}
use jarvis_agencyos.Exec.Keeps.{Keeps, Keeps-modify}
use jarvis_agencyos.Builder.Contracts.{TaskStatus, Runtime}
use jarvis_agencyos.Builder.State.{Task, FinishLine, Builder}
use jarvis_agencyos.Builder.Runs.{update_task_status}
use jarvis_agencyos.Builder.Calls.{Call, create_draft, time_passes, perform, run_calls, reopens}
use jarvis_agencyos.Builder.FinishLine.{LineKept, locked_line}
use jarvis_agencyos.Builder.FinishLine.Locking.{
  update_task_status-line, create_draft_task-line, create_and_lock_task-line, lock_task-line,
  attempt_mutate-line,
}
use jarvis_agencyos.Builder.Frame.Tasks.{OnTasks}
use jarvis_agencyos.Builder.Frame.TaskRuns.{task_rules}
use jarvis_agencyos.Builder.Frame.TaskCandidates.{candidate_rules}
use jarvis_agencyos.Builder.Frame.TaskWaits.{wait_rules}
use jarvis_agencyos.Builder.Frame.TaskLeases.{lease_rules}
use jarvis_agencyos.Builder.Frame.TaskReviews.{review_exact_candidate-status, resume-status}
use jarvis_agencyos.Builder.Frame.TaskOrchestrations.{run_owner_software_task-kept}
use jarvis_agencyos.Builder.Frame.TaskStatuses.{
  WorkStatus, running, blocked, needs_owner, verified, launch_settle-status,
  begin_repair_attempt-status, verify_exact_candidate-status,
}

module _ (env : Runtime) (before : List Task) where
  work-line :
      (id : ℕ) (st : TaskStatus)
      → WorkStatus st
      → Keeps (OnTasks (LineKept before)) (update_task_status env id st)
  work-line id _ running = update_task_status-line before env id TaskStatus.running refl
  work-line id _ blocked = update_task_status-line before env id TaskStatus.blocked refl
  work-line id _ needs_owner = update_task_status-line before env id TaskStatus.needs_owner refl
  work-line id _ verified = update_task_status-line before env id TaskStatus.verified refl

  accepted-line :
      (id : ℕ) → Keeps (OnTasks (LineKept before)) (update_task_status env id TaskStatus.accepted)
  accepted-line id = update_task_status-line before env id TaskStatus.accepted refl

  ruleset history_rules = (
    task_rules, candidate_rules, update_task_status-line, create_draft_task-line,
    create_and_lock_task-line, lock_task-line, attempt_mutate-line, launch_settle-status,
    begin_repair_attempt-status, verify_exact_candidate-status, work-line, wait_rules, lease_rules,
    review_exact_candidate-status, resume-status, accepted-line, run_owner_software_task-kept,
  )

  perform-line : (c : Call) → reopens c ≡ false → Keeps (OnTasks (LineKept before)) (perform env c)
  unfolding perform
  perform-line (create_draft input) h = search history_rules
  perform-line (time_passes n) h = Keeps-modify _ (λ s k. k)
  perform-line _ h = search history_rules

  pub run_calls-line :
      (s : Builder) (cs : List Call)
      → all (λ c. not (reopens c)) cs ≡ true
      → LineKept before s.tasks
      → LineKept before (run_calls env s cs).tasks
  unfolding run_calls
  run_calls-line s [] h k = k
  run_calls-line s (c ∷ cs) h k =
      run_calls-line (perform env c s).1 cs (ground arith) ((perform-line c (ground arith)).at s k)

-- After any sequence of the calls that `Call` lists, in any order and by anyone, and whether or not
-- calls throw: while no call of updateTaskStatus or patch sets a task's status to DRAFT, a task that is
-- locked keeps the intent, acceptance reference, paths, tools, review flag, limits, proposal and content
-- hash of its lock.
pub locked_line-run_calls :
    (env : Runtime) (s : Builder) (cs : List Call)
    → all (λ c. not (reopens c)) cs ≡ true
    → (id : ℕ) (l : FinishLine) → locked_line id s.tasks ≡ some l
    → locked_line id (run_calls env s cs).tasks ≡ some l
locked_line-run_calls env s cs h id l p =
    (run_calls-line env s.tasks s cs h (record { at = λ j m q. q })).at id l p
