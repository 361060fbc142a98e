-- ===== src/Builder/Runs/Exclusive.antt =====
-- The active runs around a launch (launchCodingWorker, src/builder/core.js).
use jarvis_agencyos.Base.{
  ℕ, ◌+◌, ◌≡◌, refl, ap, Option, none, some, List, [], ◌∷◌, ◌++◌, Text, arith, select,
  select-append, get_or, length,
}
use jarvis_agencyos.Exec.{ok}
use jarvis_agencyos.Exec.Does.{
  Does, Does-weaken, Does-pure, Does-raise, Does-if_some, Does-Keeps, Does-bind, Does-gets,
  Does-lift, Does-some, Does-require, Does-modify, Does-rethrow,
}
use jarvis_agencyos.Builder.Contracts.{RunStatus, Runtime, is_active}
use jarvis_agencyos.Builder.State.{Run, Builder}
use jarvis_agencyos.Builder.Store.{insert_run, list_active_runs, get_task, list_runs_for_task}
use jarvis_agencyos.Builder.Frame.Runs.{OnRuns, new_id-runs, append_event-runs, set_current-runs}
use jarvis_agencyos.Builder.Runs.{create_run, pending_run, get_current_coding_run, adopt}
use jarvis_agencyos.Builder.Workers.{launch_check, launch_create}

-- The active runs of a table.
abbrev pub active : List Run → List Run
active = select (λ r. is_active r.status)

module _ (rs : List Run) where
  abbrev pub Same : Builder → Type 0
  Same = OnRuns (λ qs. qs ≡ rs)

  insert_run-returns :
      (r : Run) → Does Same (λ a s. (a ≡ r) × (s.runs ≡ rs ++ (r ∷ []))) (insert_run r)
  unfolding insert_run
  insert_run-returns r = Does-gets _ _ λ taken. Does-require _ _ _ λ _. Does-gets _ _ λ known.
      Does-require _ _ _ λ _. Does-require _ _ _ λ _.
        Does-modify (λ s. record s { runs = s.runs ++ (r ∷ []) }) _ (λ s q. rw q.0.0 refl)
          (Does-pure r (λ s q. (refl, q)))

  -- A run is created as the last row, and it is active.
  pub create_run-returns :
      (env : Runtime) (id : ℕ) (provider : Text) (a b c : Option ℕ)
      → Does Same
          (λ r s. (s.runs ≡ rs ++ (r ∷ [])) × (r.status ≡ RunStatus.pending))
          (create_run env id provider a b c)
  unfolding create_run get_task list_runs_for_task
  create_run-returns env id provider a b c = Does-gets _ _ λ found. Does-some _ _ _ λ task _.
      Does-require _ _ _ λ _. Does-lift _ _ λ _ _. Does-gets _ _ λ existing.
        Does-bind _ _ (Does-weaken _ (λ s q. q.0.0) (Does-Keeps _ (new_id-runs (λ qs. qs ≡ rs))))
          λ fresh. Does-gets _ _ λ time.
            Does-bind _ _ (Does-rethrow _ _ (Does-weaken _ (λ s q. q.0) (insert_run-returns _)))
              λ r.
                let row = pending_run fresh id provider a b (get_or c (length existing + 1)) time in
                Does-bind _ _
                  (Does-Keeps _
                    (append_event-runs (λ qs. (r ≡ row) × (qs ≡ rs ++ (row ∷ []))) _ _ _ _))
                  λ _. Does-pure r (λ s q. (cc, ap (λ x. x.status) q.0))

  abbrev Nothing : Option Run → Builder → Type 0
  Nothing o s = (s.runs ≡ rs) × (o ≡ none → active rs ≡ [])

  some≢none : {r : Run} → ◌≡◌ {A = Option Run} (some r) none → ⊥
  some≢none h = cc

  adopt-none : (qs : List Run) → Does (λ s. Same s × (active s.runs ≡ qs)) Nothing (adopt qs)
  unfolding adopt
  adopt-none [] = Does-pure _ (λ s q. (q.0, λ _. rw (← q.0) q.1))
  adopt-none (r ∷ []) =
      Does-bind _ _ (Does-Keeps _ (set_current-runs (λ ts. (ts ≡ rs) × (active ts ≡ r ∷ [])) _))
        λ _. Does-pure _ (λ s q. (q.0, λ h. absurd (some≢none h)))
  adopt-none (r ∷ q ∷ qs) = Does-raise _

  -- No run is current only if no run is active.
  get_current_coding_run-none : Does Same Nothing get_current_coding_run
  unfolding get_current_coding_run list_active_runs
  get_current_coding_run-none = Does-gets _ _ λ held.
      Does-if_some _ _ _ (λ r e. Does-pure _ (λ s q. (q.0, λ h. absurd (some≢none h))))
        (λ e.
          Does-bind _ _
            (Does-weaken _ (λ s q. q.0) (Does-Keeps _ (set_current-runs (λ qs. qs ≡ rs) none)))
            λ _. Does-gets _ _ λ qs. adopt-none qs)

-- The check of a launch that goes ahead found no active run, whoever's task the launch is for. But its
-- run is created later, from whatever state the calls in between have left, and nothing looks at the
-- active runs again: the new run joins those that are active by then. So a launch that nothing
-- interrupts has the only active run, and launches that overlap each have one.
pub launch_steps-active :
    (env : Runtime) (provider : Option Text) (id : ℕ) (s t : Builder) (name : Text) (r : Run)
    → (launch_check env provider s).0 ≡ ok name
    → (launch_create env name id t).0 ≡ ok r
    → (active s.runs ≡ [])
      × (active (launch_check env provider s).1.runs ≡ [])
      × (active (launch_create env name id t).1.runs ≡ active t.runs ++ (r ∷ []))
unfolding launch_check launch_create
launch_steps-active env provider id s t name r checked created =
    let (idle, same) = checks.at s refl name checked in
    let (runs, pending) =
      (create_run-returns t.runs env id name none none none).at t refl r created in
    (idle, same, joined t.runs r _ runs pending)
  where
    checks :
        Does
          (Same s.runs)
          (λ _ u. (active s.runs ≡ []) × (active u.runs ≡ []))
          (launch_check env provider)
    checks = Does-some _ _ _ λ name _.
        Does-bind _ _ (get_current_coding_run-none s.runs) λ existing.
          Does-require _ _ _
            λ free. Does-pure _ λ u q. (q.1 (ground arith), rw (q.0) (q.1 (ground arith)))

    joined :
        (rs : List Run) (r : Run) (qs : List Run)
        → qs ≡ rs ++ (r ∷ [])
        → r.status ≡ RunStatus.pending
        → active qs ≡ active rs ++ (r ∷ [])
    joined rs r qs e p = rw (e, select-append (λ q. is_active q.status) rs (r ∷ [])) (simp p)
