-- ===== src/Builder/Lock/Binding.antt =====
-- What lockTask writes (src/builder/task-lock.js).
use jarvis_agencyos.Base.{ℕ, ◌≤◌, ◌≡◌, refl, sym, true, false, some, ==_self, arith, leb}
use jarvis_agencyos.Exec.{ok, ◌>>=◌}
use jarvis_agencyos.Builder.Contracts.{TaskStatus, Runtime, task_content_hash, is_draft, is_locked}
use jarvis_agencyos.Builder.State.{Task, Builder}
use jarvis_agencyos.Builder.Store.{find_task, get_task, new_id, update_task, append_event}
use jarvis_agencyos.Builder.Lock.{seal, lock_draft, lock_task, verify_task_hash}
use jarvis_agencyos.Builder.FinishLine.Rows.{find_task-update, find_task-id}

-- The row of a draft after its lock.
abbrev pub locked_row : Runtime → Builder → Task → Task
locked_row env s t = record (seal env s.next_id (task_content_hash env t.task_id t.terms) s.now t) {
  updated_at = s.now;
}

verify-locked_row :
    (env : Runtime) (s : Builder) (t : Task) → verify_task_hash env (locked_row env s t) ≡ ok tt
unfolding verify_task_hash
verify-locked_row env s t = rw (==_self (task_content_hash env t.task_id t.terms))

draft-not_locked : (s : TaskStatus) → is_draft s ≡ true → is_locked s ≡ false
draft-not_locked s d = ground arith

pub leb-one : (n : ℕ) → 1 ≤ n → leb 1 n ≡ true
leb-one n h = ground arith

module _ (env : Runtime) (s : Builder) (t : Task) (found : find_task t.task_id s.tasks ≡ some t)
    (d : is_draft t.status ≡ true) (v : leb 1 t.intent_version ≡ true)
    (m : leb 1 t.max_attempts ≡ true) where
  pub lock_task-ok : (lock_task env t.task_id s).0 ≡ ok (locked_row env s t)
  unfolding lock_task lock_draft get_task new_id update_task append_event ◌>>=◌
  lock_task-ok = rw (found, lock_task, draft-not_locked t.status d, d, found, v, m) refl

  pub lock_task-row :
      find_task t.task_id (lock_task env t.task_id s).1.tasks ≡ some (locked_row env s t)
  unfolding lock_task lock_draft get_task new_id update_task append_event ◌>>=◌
  lock_task-row =
      rw (found, lock_task, draft-not_locked t.status d, d, found, v, m)
        (rw
          (
            find_task-update t.task_id t.task_id (locked_row env s t) s.tasks refl,
            ==_self t.task_id,
            found,
          )
          refl)

-- Locking a draft whose intent version and attempt cap are at least 1 succeeds: the row is then
-- LOCKED with the same terms, stands in the table as it is returned, and its content hash
-- verifies.
pub lock_task-draft :
    (env : Runtime) (s : Builder) (id : ℕ) (t : Task)
    → find_task id s.tasks ≡ some t
    → is_draft t.status ≡ true
    → 1 ≤ t.intent_version
    → 1 ≤ t.max_attempts
    → (u : Task) × ((lock_task env id s).0 ≡ ok u)
      × (find_task id (lock_task env id s).1.tasks ≡ some u)
      × (verify_task_hash env u ≡ ok tt)
      × (u.terms ≡ t.terms)
      × (u.status ≡ TaskStatus.locked)
lock_task-draft env s id t found d v m =
    let same : id ≡ t.task_id = sym (find_task-id id s.tasks t found) in
    let own : find_task t.task_id s.tasks ≡ some t = simp (← same) found in
    let v' = leb-one t.intent_version v in
    let m' = leb-one t.max_attempts m in
    (
      locked_row env s t,
      rw same (lock_task-ok env s t own d v' m'),
      rw same (lock_task-row env s t own d v' m'),
      verify-locked_row env s t,
      refl,
      refl,
    )
