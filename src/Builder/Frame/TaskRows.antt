-- ===== src/Builder/Frame/TaskRows.antt =====
-- Invariants of each row of the tasks.
use jarvis_agencyos.Base.{
  ℕ, ◌≡◌, ◌==◌, ◌&&◌, inl, inr, [], ◌∷◌, ◌++◌, leb, All, All-append, All-find, All-update,
  Option-cases, Bool-cases,
}
use jarvis_agencyos.Exec.{◌>>=◌}
use jarvis_agencyos.Exec.Keeps.{Keeps, Keeps-modify}
use jarvis_agencyos.Builder.State.{Task, Builder}
use jarvis_agencyos.Builder.Store.{find_task, insert_task, update_task}
use jarvis_agencyos.Builder.FinishLine.Rows.{find_task-id}
use jarvis_agencyos.Builder.Frame.Tasks.{OnTasks, task_frame}

module _ (Q : Task → Type 0) where
  pub insert_task-rows : (t : Task) → Q t → Keeps (OnTasks (All Q)) (insert_task t)
  unfolding insert_task
  insert_task-rows t q = search (task_frame, Keeps-modify, added) depth 20
    where
      added : (s : Builder) → All Q s.tasks → All Q (s.tasks ++ t ∷ [])
      added s h = All-append Q s.tasks (t ∷ []) h (q, tt)

  -- The row that is written has the identifier asked for.
  pub update_task-own_rows :
      (id : ℕ) (patch : Task → Task)
      → ((t : Task) (time : ℕ)
          → t.task_id ≡ id
          → Q t
          → Q (record (patch t) { task_id = t.task_id; updated_at = time }))
      → Keeps (OnTasks (All Q)) (update_task id patch)
  unfolding update_task ◌>>=◌
  update_task-own_rows id patch k = record {
    at = λ s h. elim (Option-cases (find_task id s.tasks)) [
      | inl e ↦ rw (e, update_task) h
      | inr (t, e) ↦
          let next : Task = record (patch t) { task_id = t.task_id; updated_at = s.now } in
          elim (Bool-cases (leb 1 next.intent_version && leb 1 next.max_attempts)) [
            | inl fits ↦
                rw (e, update_task, fits)
                  (All-update Q (λ u. u.task_id == id) (λ _. next) s.tasks
                    (λ u qu here.
                      k t s.now (find_task-id id s.tasks t e)
                        (All-find Q (λ u. u.task_id == id) s.tasks t h e))
                    h)
            | inr unfit ↦ rw (e, update_task, unfit) h
          ]
    ];
  }

  pub update_task-rows :
      (id : ℕ) (patch : Task → Task)
      → ((t : Task) (time : ℕ)
          → Q t
          → Q (record (patch t) { task_id = t.task_id; updated_at = time }))
      → Keeps (OnTasks (All Q)) (update_task id patch)
  update_task-rows id patch k = update_task-own_rows id patch (λ t time own. k t time)
