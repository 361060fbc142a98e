-- ===== src/Builder/Lock/Reopen.antt =====
-- A locked task whose status is set back to DRAFT (attemptMutateLockedTask, src/builder/core.js).
use jarvis_agencyos.Base.{
  ℕ, ◌≤◌, ◌≡◌, refl, sym, ap, ◌∙◌, true, Option, none, some, List, [], ◌∷◌, ==_self, arith, leb,
  get_or,
}
use jarvis_agencyos.Exec.{ok, ◌>>=◌}
use jarvis_agencyos.Exec.Returns.{bind-pure_state}
use jarvis_agencyos.Builder.Contracts.{TaskStatus, Runtime, is_draft}
use jarvis_agencyos.Builder.State.{Task, Builder}
use jarvis_agencyos.Builder.Store.{find_task, get_task, update_task}
use jarvis_agencyos.Builder.Lock.{lock_task, verify_task_hash}
use jarvis_agencyos.Builder.Lock.Binding.{lock_task-draft, leb-one}
use jarvis_agencyos.Builder.FinishLine.Rows.{find_task-update, find_task-id}
use jarvis_agencyos.Builder.Patch.{
  TaskPatch, no_patch, apply_patch, patch_line, line_unchanged, assert_task_mutable,
  attempt_mutate_locked_task,
}
use jarvis_agencyos.Builder.Calls.{Call, mutate, lock, perform, run_calls}

-- `{ status: 'DRAFT' }`
abbrev pub reopening : TaskPatch
reopening = record no_patch { status = some TaskStatus.draft }

-- The row that a patch leaves.
abbrev patched : TaskPatch → Task → ℕ → Task
patched p t time = record (apply_patch p t) { task_id = t.task_id; updated_at = time }

module _ (s : Builder) (t : Task) (p : TaskPatch) (found : find_task t.task_id s.tasks ≡ some t)
    (may : assert_task_mutable t p ≡ ok tt) (v : leb 1 (patched p t s.now).intent_version ≡ true)
    (m : leb 1 (patched p t s.now).max_attempts ≡ true) where
  mutated-row :
      find_task t.task_id (attempt_mutate_locked_task t.task_id p s).1.tasks
      ≡ some (patched p t s.now)
  unfolding attempt_mutate_locked_task get_task update_task ◌>>=◌
  mutated-row =
      rw (found, attempt_mutate_locked_task, may, found, v, m)
        (rw
          (
            find_task-update t.task_id t.task_id (patched p t s.now) s.tasks refl,
            ==_self t.task_id,
            found,
          )
          refl)

  mutated-now : (attempt_mutate_locked_task t.task_id p s).1.now ≡ s.now
  unfolding attempt_mutate_locked_task get_task update_task ◌>>=◌
  mutated-now = rw (found, attempt_mutate_locked_task, may, found, v, m) refl

-- Setting the status to DRAFT passes the guard of the finish line, whatever the task's status.
reopening-may : (t : Task) → assert_task_mutable t reopening ≡ ok tt
unfolding assert_task_mutable line_unchanged
reopening-may t = ground arith

-- Any patch of a draft passes it.
draft-may : (t : Task) (p : TaskPatch) → is_draft t.status ≡ true → assert_task_mutable t p ≡ ok tt
unfolding assert_task_mutable
draft-may t p d = ground arith

perform-mutate :
    (env : Runtime) (id : ℕ) (p : TaskPatch) (s : Builder)
    → (perform env (mutate id p) s).1 ≡ (attempt_mutate_locked_task id p s).1
unfolding perform
perform-mutate env id p s = bind-pure_state (attempt_mutate_locked_task id p) s

perform-lock :
    (env : Runtime) (id : ℕ) (s : Builder) → (perform env (lock id) s).1 ≡ (lock_task env id s).1
unfolding perform
perform-lock env id s = bind-pure_state (lock_task env id) s

still_draft : (o : Option TaskStatus) → o ≡ none → is_draft (get_or o TaskStatus.draft) ≡ true
still_draft o e = ground arith

-- The three calls: back to DRAFT, a patch, and the lock.
abbrev pub rewriting : ℕ → TaskPatch → List Call
rewriting id p = mutate id reopening ∷ mutate id p ∷ lock id ∷ []

run_rewriting :
    (env : Runtime) (s : Builder) (id : ℕ) (p : TaskPatch)
    → run_calls env s (rewriting id p)
      ≡ (lock_task env id
          (attempt_mutate_locked_task id p (attempt_mutate_locked_task id reopening s).1).1).1
unfolding run_calls
run_rewriting env s id p =
    ap (λ x. (perform env (lock id) (perform env (mutate id p) x).1).1)
      (perform-mutate env id reopening s)
    ∙ ap (λ x. (perform env (lock id) x).1)
        (perform-mutate env id p (attempt_mutate_locked_task id reopening s).1)
    ∙ perform-lock env id
        (attempt_mutate_locked_task id p (attempt_mutate_locked_task id reopening s).1).1

module _ (env : Runtime) (s : Builder) (t : Task) (p : TaskPatch) where
  reopened : Task
  reopened = patched reopening t s.now

  rewrite_locked-at :
      find_task t.task_id s.tasks ≡ some t
      → 1 ≤ t.intent_version
      → 1 ≤ t.max_attempts
      → p.status ≡ none
      → 1 ≤ (patch_line p t.line).intent_version
      → 1 ≤ (patch_line p t.line).max_attempts
      → (u : Task) × (find_task t.task_id (run_calls env s (rewriting t.task_id p)).tasks ≡ some u)
        × (verify_task_hash env u ≡ ok tt)
        × (u.terms ≡ (patch_line p t.line).terms)
        × (u.status ≡ TaskStatus.locked)
  unfolding run_calls reopened patch_line apply_patch
  rewrite_locked-at found v m keep v' m' =
      let s1 = (attempt_mutate_locked_task t.task_id reopening s).1 in
      let s2 = (attempt_mutate_locked_task t.task_id p s1).1 in
      let row1 : find_task t.task_id s1.tasks ≡ some reopened =
        mutated-row s t reopening found (reopening-may t) (leb-one _ v) (leb-one _ m) in
      let row2 : find_task t.task_id s2.tasks ≡ some (patched p reopened s1.now) =
        mutated-row s1 reopened p row1 (draft-may reopened p refl) (leb-one _ v') (leb-one _ m') in
      let (u, done, row, sealed, terms, status) =
        lock_task-draft env s2 t.task_id (patched p reopened s1.now) row2
          (still_draft p.status keep) v' m' in
      (u, rw (run_rewriting env s t.task_id p) row, sealed, terms, status)

-- What the lock fixed can be rewritten: after a patch that sets the status to DRAFT, any patch
-- without a status and a lock, a task, whatever its status was, is LOCKED with the patched terms
-- and a hash that verifies, provided that its intent version and attempt cap are at least 1 before
-- and after the patch.
pub rewrite_locked :
    (env : Runtime) (s : Builder) (id : ℕ) (t : Task) (p : TaskPatch)
    → find_task id s.tasks ≡ some t
    → 1 ≤ t.intent_version
    → 1 ≤ t.max_attempts
    → p.status ≡ none
    → 1 ≤ (patch_line p t.line).intent_version
    → 1 ≤ (patch_line p t.line).max_attempts
    → (u : Task) × (find_task id (run_calls env s (rewriting id p)).tasks ≡ some u)
      × (verify_task_hash env u ≡ ok tt)
      × (u.terms ≡ (patch_line p t.line).terms)
      × (u.status ≡ TaskStatus.locked)
rewrite_locked env s id t p found v m keep v' m' =
    let same : id ≡ t.task_id = sym (find_task-id id s.tasks t found) in
    let (u, row, sealed, terms, status) =
      rewrite_locked-at env s t p (simp (← same) found) v m keep v' m' in
    (u, rw same row, sealed, terms, status)
