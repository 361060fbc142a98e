-- ===== src/Builder/Retry/Second.antt =====
-- A repair while another task's run is active (beginRepairAttempt, src/builder/retry.js).
use jarvis_agencyos.Base.{
  ℕ, ◌≡◌, refl, sym, ◌∙◌, ap, Bool, true, false, inl, inr, Option, none, some, List, [], ◌∷◌, ◌++◌,
  Text, ◌==◌, leb, arith, length, select-append, Bool-cases,
}
use jarvis_agencyos.Exec.{ok}
use jarvis_agencyos.Exec.Does.{
  Does, Does-pure, Does-know, Does-weaken, Does-Keeps, Does-bind, Does-gets, Does-if_some,
  Does-when,
}
use jarvis_agencyos.Builder.Contracts.{RunStatus, FailureClass, Runtime, is_active}
use jarvis_agencyos.Builder.State.{Task, Run, Builder}
use jarvis_agencyos.Builder.Store.{find_task}
use jarvis_agencyos.Builder.Runs.{pointed, get_current_coding_run}
use jarvis_agencyos.Builder.Runs.Exclusive.{active, Same, create_run-returns}
use jarvis_agencyos.Builder.Frame.Runs.{run_frame, update_task_status-runs, set_current-runs}
use jarvis_agencyos.Builder.Retry.{
  Repair, allowed, end_run, close_current, start_attempt, begin_repair_attempt, elapsed_runtime_ms,
  is_non_retryable,
}
use jarvis_agencyos.Builder.Retry.Bounds.{
  runs_of, outcome, begin_repair_attempt-outcome, never_allowed, refuse-Returns,
}

some≢none : {r : Run} → ◌≡◌ {A = Option Run} (some r) none → ⊥
some≢none h = cc

some-injective : {q r : Run} → ◌≡◌ {A = Option Run} (some q) (some r) → q ≡ r
some-injective h = cc

true≢false : (b : Bool) → b ≡ true → b ≡ false → ⊥
true≢false b h k = ground arith

-- The run that an outcome begins.
abbrev started : Repair → Option Run
started (allowed run k) = some run
started _ = none

module _ (rs : List Run) (other : Run) (id : ℕ) (foreign : (other.task_id == id) ≡ false) where
  get_current_coding_run-held :
      Does
        (λ s. Same rs s × (pointed s.current s ≡ some other))
        (λ o s. Same rs s × (o ≡ some other))
        get_current_coding_run
  unfolding get_current_coding_run
  get_current_coding_run-held = Does-gets _ _ λ held.
      Does-if_some _ _ _ (λ r e. Does-pure _ (λ s q. (q.0.0, sym e ∙ (sym q.1 ∙ q.0.1))))
        (λ e. Does-know _ (λ s q. some≢none (sym q.0.1 ∙ (q.1 ∙ e))) (λ f. absurd f))

  close_current-foreign :
      (f : FailureClass) (o : Option Run)
      → o ≡ some other
      → Does (Same rs) (λ _. Same rs) (close_current id f o)
  unfolding close_current end_run
  close_current-foreign f o held =
      Does-if_some _ _ _
        (λ c e.
          Does-when _ _
            (λ own. absurd (
              true≢false (c.task_id == id) own
                (ap (λ r. r.task_id == id) (some-injective (sym e ∙ held)) ∙ foreign)))
            (λ _ s q. q))
        (λ e. Does-pure tt (λ s q. q))

  start_attempt-foreign :
      (env : Runtime) (t : Task) (f : FailureClass) (provider : Text) (k : ℕ)
      → Does
          (λ s. Same rs s × (pointed s.current s ≡ some other))
          (λ x s.
            (run : Run)
            → started x ≡ some run
            → (s.runs ≡ rs ++ (run ∷ [])) × (run.status ≡ RunStatus.pending))
          (start_attempt env t id f provider k)
  unfolding start_attempt
  start_attempt-foreign env t f provider k = Does-bind _ _ get_current_coding_run-held λ current.
      Does-know _ (λ s q. q.1)
        λ held.
          Does-bind _ _ (Does-weaken _ (λ s q. q.0) (close_current-foreign f current held)) λ _.
            Does-bind _ _ (create_run-returns rs env id provider none none none) λ fresh.
              Does-bind _ _
                (Does-Keeps _ (
                  set_current-runs
                    (λ qs. (qs ≡ rs ++ (fresh ∷ [])) × (fresh.status ≡ RunStatus.pending)) _))
                λ _.
                  Does-bind _ _
                    (Does-Keeps _ (search (run_frame, update_task_status-runs) depth 20))
                    λ _. Does-bind _ _ (Does-Keeps _ (search run_frame depth 20)) λ _.
                      Does-pure _ (λ s q run e.
                        let same = some-injective e in
                        (q.0 ∙ ap (λ r. rs ++ (r ∷ [])) same, ap (λ r. r.status) (sym same) ∙ q.1))

-- An attempt was begun only by `start_attempt`.
allowed-start :
    (env : Runtime) (s : Builder) (id : ℕ) (failure : FailureClass) (provider : Text) (t : Task)
    (run : Run) (k : ℕ)
    → (outcome env s id failure provider t).0 ≡ ok (allowed run k)
    → outcome env s id failure provider t
      ≡ start_attempt env t id failure provider (length (runs_of id s)) s
allowed-start env s id failure provider t run k o = elim (Bool-cases (is_non_retryable failure)) [
  | inl a ↦ absurd (never_allowed (refuse-Returns env id _ _ _ _ _ _ _) (rw a at o))
  | inr a ↦ elim (Bool-cases (leb t.max_attempts (length (runs_of id s)))) [
    | inl b ↦ absurd (never_allowed (refuse-Returns env id _ _ _ _ _ _ _) (rw (a, b) at o))
    | inr b ↦ elim (Bool-cases (leb t.max_runtime_ms (elapsed_runtime_ms s.now (runs_of id s)))) [
      | inl c ↦ absurd (never_allowed (refuse-Returns env id _ _ _ _ _ _ _) (rw (a, b, c) at o))
      | inr c ↦ rw (a, b, c) refl
    ]
  ]
]

active-append :
    (rs qs : List Run) (r : Run)
    → qs ≡ rs ++ (r ∷ [])
    → r.status ≡ RunStatus.pending
    → active qs ≡ active rs ++ (r ∷ [])
active-append rs qs r e p = rw (e, select-append (λ q. is_active q.status) rs (r ∷ [])) (simp p)

-- A repair that is begun while the current run is another task's adds its run to the active ones
-- and takes none away, so that the other run stays active beside it.
pub begin_repair_attempt-second :
    (env : Runtime) (s : Builder) (id : ℕ) (failure : FailureClass) (provider : Text) (t : Task)
    (other run : Run) (k : ℕ)
    → find_task id s.tasks ≡ some t
    → pointed s.current s ≡ some other
    → (other.task_id == id) ≡ false
    → (begin_repair_attempt env id failure provider s).0 ≡ ok (allowed run k)
    → active (begin_repair_attempt env id failure provider s).1.runs ≡ active s.runs ++ (run ∷ [])
begin_repair_attempt-second env s id failure provider t other run k found held foreign h =
    let o = begin_repair_attempt-outcome env s id failure provider t found in
    let allowed_o = ap (λ x. x.0) (sym o) ∙ h in
    let step = o ∙ allowed-start env s id failure provider t run k allowed_o in
    let returned = ap (λ x. x.0) (sym step) ∙ h in
    let (e, p) =
      (start_attempt-foreign s.runs other id foreign env t failure provider _).at s (refl, held)
        (allowed run k) returned run refl in
    rw step (active-append s.runs _ run e p)
