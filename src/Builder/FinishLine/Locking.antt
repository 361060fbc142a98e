-- ===== src/Builder/FinishLine/Locking.antt =====
-- Locked finish lines under creation, locking and patches (src/builder/task-lock.js).
use jarvis_agencyos.Base.{
  ℕ, ◌≡◌, sym, Bool, true, false, inl, inr, Option, none, some, List, [], ◌∷◌, ◌++◌, ◌==◌, arith,
  find-append_some, Option-cases, subst,
}
use jarvis_agencyos.Exec.Ends.{
  Ends, Ends-bind, Ends-bind-Keeps, Ends-bind-lift, Ends-if, Ends-Keeps, Ends-weaken,
  Keeps-bind-found,
}
use jarvis_agencyos.Exec.Keeps.{Keeps, Keeps-modify, Keeps-pure, Keeps-raise, keeps_rules}
use jarvis_agencyos.Builder.Contracts.{task_content_hash, TaskStatus, Runtime, is_draft, is_locked}
use jarvis_agencyos.Builder.State.{Task, FinishLine, Builder}
use jarvis_agencyos.Builder.Store.{find_task, insert_task, update_task, get_task}
use jarvis_agencyos.Builder.Lock.{
  id_or_new, lock_draft, seal, lock_task, create_draft_task, create_and_lock_task, OwnerIntent,
}
use jarvis_agencyos.Builder.Patch.{
  TaskPatch, apply_patch, attempt_mutate_locked_task, assert_task_mutable,
}
use jarvis_agencyos.Builder.Runs.{update_task_status}
use jarvis_agencyos.Builder.FinishLine.{LineKept, locked_line}
use jarvis_agencyos.Builder.FinishLine.Guard.{assert_task_mutable-line}
use jarvis_agencyos.Builder.FinishLine.Rows.{update_task-at, find_task-id}
use jarvis_agencyos.Builder.Calls.{to_draft}
use jarvis_agencyos.Builder.Frame.Tasks.{OnTasks, task_frame, new_id-tasks}

locked_line-append :
    (id : ℕ) (l : FinishLine) (ts us : List Task)
    → locked_line id ts ≡ some l
    → locked_line id (ts ++ us) ≡ some l
locked_line-append id l ts us h = elim (Option-cases (find_task id ts)) [
  | inl e ↦ ground arith
  | inr (t, e) ↦ rw (find-append_some (λ (u : Task). u.task_id == id) ts us t e) (rw e at h)
]

true≢false : {b : Bool} → b ≡ true → b ≡ false → ⊥
true≢false h k = cc

module _ (before : List Task) where
  added : (t : Task) (s : Builder) → LineKept before s.tasks → LineKept before (s.tasks ++ t ∷ [])
  added t s h = record { at = λ id l p. locked_line-append id l s.tasks (t ∷ []) (h.at id l p) }

  pub insert_task-line : (t : Task) → Keeps (OnTasks (LineKept before)) (insert_task t)
  unfolding insert_task
  insert_task-line t = search (task_frame, Keeps-modify, added) depth 20

  update_task-line :
      (id : ℕ) (patch : Task → Task)
      → ((t : Task) → ((patch t).line ≡ t.line) × (is_draft (patch t).status ≡ false))
      → Keeps (OnTasks (LineKept before)) (update_task id patch)
  update_task-line id patch k = record {
    at = λ s h. update_task-at before id patch s h (λ t e d. k t);
  }

  pub update_task_status-line :
      (env : Runtime) (id : ℕ) (st : TaskStatus)
      → is_draft st ≡ false
      → Keeps (OnTasks (LineKept before)) (update_task_status env id st)
  unfolding update_task_status get_task
  update_task_status-line env id st h = search (task_frame, update_task-line) depth 20

  id_or_new-line : (o : Option ℕ) → Keeps (OnTasks (LineKept before)) (id_or_new o)
  unfolding id_or_new
  id_or_new-line none = search task_frame
  id_or_new-line (some id) = search task_frame

  pub create_draft_task-line :
      (input : OwnerIntent) → Keeps (OnTasks (LineKept before)) (create_draft_task input)
  unfolding create_draft_task
  create_draft_task-line input = search (task_frame, insert_task-line, id_or_new-line) depth 20

  -- A patch of the row that was read.
  update_task-read :
      (id : ℕ) (patch : Task → Task) (t : Task)
      → (is_draft t.status ≡ false
          → ((patch t).line ≡ t.line) × (is_draft (patch t).status ≡ false))
      → Ends
          (OnTasks (λ ts. LineKept before ts × (find_task id ts ≡ some t)))
          (OnTasks (LineKept before))
          (update_task id patch)
  update_task-read id patch t k = record {
    at = λ s q. update_task-at before id patch s q.0 λ u e d.
        let same : t ≡ u = cc in
        subst (λ v. ((patch v).line ≡ v.line) × (is_draft (patch v).status ≡ false)) same
          (k (rw same d));
  }

  -- A patch that the guard lets through.
  pub attempt_mutate-line :
      (id : ℕ) (patch : TaskPatch)
      → to_draft patch.status ≡ false
      → Keeps (OnTasks (LineKept before)) (attempt_mutate_locked_task id patch)
  unfolding attempt_mutate_locked_task get_task apply_patch
  attempt_mutate-line id patch h = Keeps-bind-found _ _ _ λ t.
      Ends-bind-lift (assert_task_mutable t patch) _ (λ s q. q.0)
        λ _ passed.
          update_task-read id (apply_patch patch) t (assert_task_mutable-line t patch passed h)

  -- The lock of a draft, which stands in the table as it was read.
  lock_draft-line :
      (env : Runtime) (t : Task)
      → is_draft t.status ≡ true
      → Ends
          (OnTasks (λ ts. LineKept before ts × (find_task t.task_id ts ≡ some t)))
          (OnTasks (LineKept before))
          (lock_draft env t)
  unfolding lock_draft
  lock_draft-line env t d =
      Ends-bind _ _ (λ s q. q.0) (new_id-tasks _)
        λ p.
          Ends-bind _ _ (λ s q. q.0) (search keeps_rules)
            λ time.
              Ends-bind-Keeps _ _
                (update_task-read t.task_id
                  (seal env p (task_content_hash env t.task_id t.terms) time) t
                  (λ e. absurd (true≢false d e)))
                (λ t. search task_frame)

  pub lock_task-line :
      (env : Runtime) (id : ℕ) → Keeps (OnTasks (LineKept before)) (lock_task env id)
  unfolding lock_task get_task
  lock_task-line env id = Keeps-bind-found _ _ _ λ t.
      Ends-if (is_locked t.status) _ _ (λ _. Ends-Keeps _ (λ s q. q.0) (Keeps-pure t))
        λ _.
          Ends-if (is_draft t.status) _ _
            (λ d. Ends-weaken _ (lock_draft-line env t d) λ s q. (
              q.0,
              subst (λ k. find_task k s.tasks ≡ some t) (sym (find_task-id id s.tasks t q.1)) q.1,
            ))
            λ _. Ends-Keeps _ (λ s q. q.0) (Keeps-raise _)

  pub create_and_lock_task-line :
      (env : Runtime) (input : OwnerIntent)
      → Keeps (OnTasks (LineKept before)) (create_and_lock_task env input)
  unfolding create_and_lock_task
  create_and_lock_task-line env input =
      search (task_frame, create_draft_task-line, lock_task-line) depth 20
