-- ===== src/Builder/FinishLine/Rows.antt =====
-- The two statements that write tasks.
use jarvis_agencyos.Base.{
  ℕ, ◌≡◌, false, inl, inr, Option, none, some, List, [], ◌∷◌, ◌==◌, arith, if◌then◌else◌, update,
  Option-cases, Bool-cases, ==_iff, leb, ◌&&◌,
}
use jarvis_agencyos.Exec.{◌>>=◌}
use jarvis_agencyos.Builder.Contracts.{is_draft}
use jarvis_agencyos.Builder.State.{Task, FinishLine, Builder}
use jarvis_agencyos.Builder.Store.{find_task, update_task}
use jarvis_agencyos.Builder.FinishLine.{LineKept, locked_line}

abbrev written : Task → Option Task → Option Task
written n none = none
written n (some t) = some n

pub find_task-update :
    (id j : ℕ) (n : Task) (ts : List Task)
    → n.task_id ≡ id
    → find_task j (update (λ t. t.task_id == id) (λ _. n) ts)
      ≡ (if id == j then written n (find_task j ts) else find_task j ts)
find_task-update id j n [] e = ground arith
find_task-update id j n (t ∷ ts) e = ground (arith, find_task-update id j n ts e)

pub find_task-id : (id : ℕ) (ts : List Task) (t : Task) → find_task id ts ≡ some t → t.task_id ≡ id
find_task-id id [] t h = ground arith
find_task-id id (u ∷ ts) t h = ground (arith, find_task-id id ts t)

none≢some {ℓ} : {A : Type ℓ} {a : A} → ◌≡◌ {A = Option A} none (some a) → ⊥
none≢some h = cc

-- The row that `update_task` writes.
abbrev written_row : Task → ℕ → (Task → Task) → Task
written_row t time patch = record (patch t) { task_id = t.task_id; updated_at = time }

line_kept :
    (n t : Task) (l : FinishLine)
    → (is_draft t.status ≡ false → (n.line ≡ t.line) × (is_draft n.status ≡ false))
    → (if is_draft t.status then none else some t.line) ≡ some l
    → (if is_draft n.status then none else some n.line) ≡ some l
line_kept n t l k q = elim (Bool-cases (is_draft t.status)) [
  | inl draft ↦ absurd (none≢some (rw draft at q))
  | inr sealed ↦ rw ((k sealed).1, (k sealed).0) (rw sealed at q)
]

module _ (id : ℕ) (n t : Task) (ts : List Task) (found : find_task id ts ≡ some t)
    (own : n.task_id ≡ id) where
  locked_line-update :
      (j : ℕ) (l : FinishLine)
      → (is_draft t.status ≡ false → (n.line ≡ t.line) × (is_draft n.status ≡ false))
      → locked_line j ts ≡ some l
      → locked_line j (update (λ u. u.task_id == id) (λ _. n) ts) ≡ some l
  locked_line-update j l k p = elim (Bool-cases (id == j)) [
    | inl same ↦
        let e : id ≡ j = (==_iff id j).0 same in
        rw (find_task-update id j n ts own, same, ← e, found)
          (line_kept n t l k (rw (← e, found) at p))
    | inr other ↦ rw (find_task-update id j n ts own, other) p
  ]

module _ (before : List Task) where
  -- A patch of one row that leaves a locked line alone, or that finds a draft.
  pub update_task-at :
      (id : ℕ) (patch : Task → Task) (s : Builder)
      → LineKept before s.tasks
      → ((t : Task)
          → find_task id s.tasks ≡ some t
          → is_draft t.status ≡ false
          → ((patch t).line ≡ t.line) × (is_draft (patch t).status ≡ false))
      → LineKept before (update_task id patch s).1.tasks
  unfolding update_task ◌>>=◌
  update_task-at id patch s h k = elim (Option-cases (find_task id s.tasks)) [
    | inl e ↦ rw (e, update_task) h
    | inr (t, e) ↦
        elim (Bool-cases (
          leb 1 (written_row t s.now patch).intent_version
          && leb 1 (written_row t s.now patch).max_attempts)) [
            | inl fits ↦
                rw (e, update_task, fits)
                  (record {
                    at = λ j l p.
                        locked_line-update id (written_row t s.now patch) t s.tasks e
                          (find_task-id id s.tasks t e) j l (k t e) (h.at j l p);
                  })
            | inr unfit ↦ rw (e, update_task, unfit) h
          ]
  ]
