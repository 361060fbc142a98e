-- ===== src/Builder/Acceptance/Fresh.antt =====
-- A task that is created is none of those that are there (src/builder/store.js, insertTask), and a row
-- that is there stays there.
use jarvis_agencyos.Base.{
  ℕ, ◌≡◌, ◌≢◌, sym, ◌∙◌, true, false, none, some, Option, List, [], ◌∷◌, ◌++◌, ◌==◌, is_some, any,
  arith, inl, inr, Bool-cases, Option-cases, leb, update, ◌&&◌,
}
use jarvis_agencyos.Exec.{◌>>=◌}
use jarvis_agencyos.Exec.Keeps.{Keeps, Keeps-modify}
use jarvis_agencyos.Exec.Does.{
  Does, Does-implies, Does-weaken, Does-pure, Does-know, Does-raise, Does-if, Does-Keeps, Does-bind,
  Does-then, Does-gets, Does-lift, Does-some, Does-require,
}
use jarvis_agencyos.Builder.Contracts.{Runtime, is_draft, is_locked}
use jarvis_agencyos.Builder.State.{Task, Builder}
use jarvis_agencyos.Builder.Store.{clashes, find_task, get_task, insert_task, update_task}
use jarvis_agencyos.Builder.Lock.{
  OwnerIntent, id_or_new, create_draft_task, lock_draft, lock_task, create_and_lock_task,
}
use jarvis_agencyos.Builder.FinishLine.Rows.{find_task-id}
use jarvis_agencyos.Builder.Frame.Tasks.{OnTasks, task_frame}

module _ (id : ℕ) where
  -- The task has a row.
  abbrev pub Found : List Task → Type 0
  Found ts = is_some (find_task id ts) ≡ true

  Found-append : (ts us : List Task) → Found ts → Found (ts ++ us)
  Found-append [] us h = ground arith
  Found-append (t ∷ ts) us h = ground (arith, Found-append ts us)

  Found-update :
      (j : ℕ) (n : Task) (ts : List Task)
      → n.task_id ≡ j
      → Found ts
      → Found (update (λ t. t.task_id == j) (λ _. n) ts)
  Found-update j n [] own h = h
  Found-update j n (t ∷ ts) own h = elim (Bool-cases (t.task_id == j)) [
    | inl here ↦ rw here (ground (arith, Found-update j n ts own))
    | inr other ↦ rw other (ground (arith, Found-update j n ts own))
  ]

  pub insert_task-Found : (t : Task) → Keeps (OnTasks Found) (insert_task t)
  unfolding insert_task
  insert_task-Found t = search (task_frame, Keeps-modify, added) depth 20
    where
      added : (s : Builder) → Found s.tasks → Found (s.tasks ++ t ∷ [])
      added s h = Found-append s.tasks (t ∷ []) h

  pub update_task-Found : (j : ℕ) (f : Task → Task) → Keeps (OnTasks Found) (update_task j f)
  unfolding update_task ◌>>=◌
  update_task-Found j f = record {
    at = λ s h. elim (Option-cases (find_task j s.tasks)) [
      | inl e ↦ rw (e, update_task) h
      | inr (t, e) ↦
          let next : Task = record (f t) { task_id = t.task_id; updated_at = s.now } in
          elim (Bool-cases (leb 1 next.intent_version && leb 1 next.max_attempts)) [
            | inl fits ↦
                rw (e, update_task, fits)
                  (Found-update j next s.tasks (find_task-id j s.tasks t e) h)
            | inr unfit ↦ rw (e, update_task, unfit) h
          ]
    ];
  }

  unclashed : (t : Task) (ts : List Task) → Found ts → any (clashes t) ts ≡ false → t.task_id ≢ id
  unclashed t [] h k e = ground arith
  unclashed t (u ∷ ts) h k e = ground (arith, unclashed t ts)

  insert_task-fresh : (t : Task) → Does (OnTasks Found) (λ u _. u.task_id ≢ id) (insert_task t)
  unfolding insert_task
  insert_task-fresh t = Does-gets _ _ λ taken. Does-require _ _ _ λ free.
      Does-know _ (λ s q. unclashed t s.tasks q.0 (q.1 ∙ ground arith))
        λ other. Does-require _ _ _ λ _. Does-then _ _ λ _. Does-pure t (λ s q. other)

  id_or_new-Found : (o : Option ℕ) → Keeps (OnTasks Found) (id_or_new o)
  unfolding id_or_new
  id_or_new-Found none = search task_frame
  id_or_new-Found (some j) = search task_frame

  create_draft_task-fresh :
      (input : OwnerIntent) → Does (OnTasks Found) (λ t _. t.task_id ≢ id) (create_draft_task input)
  unfolding create_draft_task
  create_draft_task-fresh input = Does-lift _ _ λ n _.
      Does-bind _ _ (Does-Keeps _ (id_or_new-Found input.task_id)) λ j. Does-gets _ _ λ time.
        Does-bind _ _ (Does-weaken _ (λ s q. q.0) (insert_task-fresh _))
          λ t. Does-know _ (λ s q. q) λ other. Does-then _ _ λ _. Does-pure t (λ s q. other)

update_task-own :
    {Q : Builder → Type 0} (j : ℕ) (f : Task → Task)
    → Does Q (λ u _. u.task_id ≡ j) (update_task j f)
unfolding update_task
update_task-own j f = Does-gets _ _ λ o. Does-some o _ _ λ t e.
    Does-know _ (λ s q. find_task-id j s.tasks t (q.1 ∙ e))
      λ own.
        Does-gets _ _ λ time. Does-require _ _ _ λ _. Does-then _ _ λ _. Does-pure _ (λ s q. own)

lock_draft-own :
    {Q : Builder → Type 0} (env : Runtime) (t : Task)
    → Does Q (λ u _. u.task_id ≡ t.task_id) (lock_draft env t)
unfolding lock_draft
lock_draft-own env t = Does-then _ _ λ p. Does-gets _ _ λ time.
    Does-bind _ _ (update_task-own t.task_id _)
      λ u. Does-know _ (λ s q. q) λ own. Does-then _ _ λ _. Does-pure u (λ s q. own)

lock_task-own :
    {Q : Builder → Type 0} (env : Runtime) (j : ℕ) → Does Q (λ u _. u.task_id ≡ j) (lock_task env j)
unfolding lock_task get_task
lock_task-own env j = Does-gets _ _ λ o. Does-some o _ _ λ t e.
    Does-know _ (λ s q. find_task-id j s.tasks t (q.1 ∙ e))
      λ own.
        Does-if (is_locked t.status) _ _ (λ _. Does-pure t (λ s q. own))
          λ _.
            Does-if (is_draft t.status) _ _
              (λ _. Does-implies _ (λ u s same. same ∙ own) (lock_draft-own env t))
              (λ _. Does-raise _)

-- A task that is created and locked is not one that has a row before.
pub create_and_lock_task-fresh :
    (id : ℕ) (env : Runtime) (input : OwnerIntent)
    → Does (OnTasks (Found id)) (λ t _. t.task_id ≢ id) (create_and_lock_task env input)
unfolding create_and_lock_task
create_and_lock_task-fresh id env input = Does-bind _ _ (create_draft_task-fresh id input) λ t.
    Does-know _ (λ s q. q)
      λ other. Does-implies _ (λ u s same e. other (sym same ∙ e)) (lock_task-own env t.task_id)
