-- ===== src/Builder/Orchestrator/Status.antt =====
-- The row of the task that is accepted (src/builder/orchestrator.js).
use jarvis_agencyos.Base.{
  ℕ, ◌≡◌, refl, sym, ap, ◌∙◌, Option, none, some, ◌==◌, ==_iff, find-update_row, update,
}
use jarvis_agencyos.Exec.Does.{
  Does, Does-weaken, Does-pure, Does-bind, Does-gets, Does-lift, Does-some, Does-some_last,
  Does-require, Does-modify,
}
use jarvis_agencyos.Builder.Contracts.{TaskStatus, Runtime}
use jarvis_agencyos.Builder.State.{Task, Builder}
use jarvis_agencyos.Builder.Store.{find_task, get_task, update_task, append_event}
use jarvis_agencyos.Builder.Runs.{update_task_status}
use jarvis_agencyos.Builder.FinishLine.Rows.{find_task-id}
use jarvis_agencyos.Builder.Orchestrator.{row_of}

pub some-injective : {A : Type 0} {a b : A} → ◌≡◌ {A = Option A} (some a) (some b) → a ≡ b
some-injective h = cc

pub none≢some : {A : Type 0} {a : A} → ◌≡◌ {A = Option A} none (some a) → ⊥
none≢some h = cc

abbrev pub Nothing : Builder → Type 0
Nothing s = Unit

module _ (id : ℕ) where
  -- The row of the task.
  abbrev pub RowIs : Task → Builder → Type 0
  RowIs t s = find_task id s.tasks ≡ some t

  pub row_of-Row : Does Nothing RowIs (row_of (get_task id))
  unfolding get_task
  row_of-Row = Does-gets _ _ λ o. Does-some_last o _ λ t e s q. q.1 ∙ e

  -- A row with the status, that asks for a review as `t` does.
  abbrev pub StatusIs : TaskStatus → Task → Builder → Type 0
  StatusIs status t s =
      (n : Task) × (find_task id s.tasks ≡ some n)
      × (n.status ≡ status)
      × (n.review_required ≡ t.review_required)

  abbrev marked : TaskStatus → ℕ → Task → Task
  marked status time u = record u { status = status; updated_at = time }

  update_task-status :
      (t : Task) (status : TaskStatus)
      → Does (RowIs t) (λ _. StatusIs status t) (update_task id (λ u. record u { status = status }))
  unfolding update_task
  update_task-status t status = Does-gets _ _ λ o. Does-some o _ _ λ u e.
      Does-gets _ _ λ time.
        Does-require _ _ _ λ _. Does-modify _ _ (written o u time e) (Does-pure _ (λ s q. q))
    where
      written :
          (o : Option Task) (u : Task) (time : ℕ)
          → o ≡ some u
          → (s : Builder) → (RowIs t s × (find_task id s.tasks ≡ o)) × (s.now ≡ time)
          → StatusIs status t (record s {
            tasks = update (λ v. v.task_id == id) (λ _. marked status time u) s.tasks;
          })
      written o u time e s q = (
        marked status time u,
        find-update_row _ (λ _. marked status time u) s.tasks t
            (λ _ _. (==_iff u.task_id id).1 (find_task-id id s.tasks u (q.0.1 ∙ e))) q.0.0,
        refl,
        ap (λ v. v.review_required) (some-injective (sym e ∙ sym q.0.1 ∙ q.0.0)),
      )

  pub update_task_status-status :
      (env : Runtime) (t : Task) (status : TaskStatus)
      → Does (RowIs t) (λ _. StatusIs status t) (update_task_status env id status)
  unfolding update_task_status get_task append_event
  update_task_status-status env t status = Does-gets _ _ λ o. Does-some o _ _ λ u e.
      Does-require _ _ _ λ _. Does-lift _ _ λ _ _.
        Does-bind _ _ (Does-weaken _ (λ s q. q.0) (update_task-status t status))
          λ _. Does-modify _ _ (λ s q. q) (Does-pure _ (λ s q. q))
