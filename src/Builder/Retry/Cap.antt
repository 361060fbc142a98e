-- ===== src/Builder/Retry/Cap.antt =====
-- The cap on a task's runs under beginRepairAttempt (src/builder/retry.js).
use jarvis_agencyos.Base.{
  ℕ, ◌+◌, ◌≤◌, ◌≡◌, refl, true, false, not, Option, none, some, inl, inr, List, [], ◌∷◌, ◌++◌, Text,
  ◌==◌, ◌||◌, ◌&&◌, any, leb, arith, Bool-cases,
}
use jarvis_agencyos.Exec.Ends.{
  Ends, Ends-bind, Ends-bind-Keeps, Ends-bind-gets, Ends-bind-require, Ends-rethrow, Ends-modify,
  Keeps-bind-found,
}
use jarvis_agencyos.Exec.Keeps.{
  Keeps, Keeps-pure, Keeps-gets, Keeps-require_some, Keeps-require, Keeps-lift,
}
use jarvis_agencyos.Builder.Contracts.{TaskStatus, FailureClass, EventType, Runtime}
use jarvis_agencyos.Builder.State.{Task, Run, Builder}
use jarvis_agencyos.Builder.Store.{
  find_run, find_task, insert_run, update_run, get_task, list_runs_for_task,
}
use jarvis_agencyos.Builder.Frame.Runs.{
  OnRuns, run_frame, get_current_coding_run-runs, update_task_status-runs, new_id-runs,
}
use jarvis_agencyos.Builder.Runs.{create_run}
use jarvis_agencyos.Builder.Runs.Keys.{
  Keyed, attempts_of, replace, attempts_of-replace, Keyed-replace, Keyed-append, attempts_of-append,
}
use jarvis_agencyos.Builder.Workers.Fencing.{find_run-id}
use jarvis_agencyos.Builder.Retry.{
  Refusal, end_run, close_current, refuse, start_attempt, begin_repair_attempt, is_non_retryable,
  elapsed_runtime_ms,
}
use jarvis_agencyos.Builder.Retry.Bounds.{runs_of, begin_repair_attempt-outcome}

module _ (id : ℕ) where
  -- The runs have keys, and the task has at most `n` of them.
  abbrev pub AtMost : ℕ → List Run → Type 0
  AtMost n rs = Keyed rs × (attempts_of id rs ≤ n)

  unused :
      (r : Run) (rs : List Run)
      → not (
          any
            (λ q.
              (q.factory_run_id == r.factory_run_id)
              || ((q.task_id == r.task_id) && (q.attempt == r.attempt)))
            rs)
        ≡ true
      → find_run r.factory_run_id rs ≡ none
  unused r [] h = refl
  unused r (q ∷ rs) h = ground (arith, unused r rs)

  grown :
      (n : ℕ) (r : Run) (rs : List Run)
      → AtMost n rs
      → find_run r.factory_run_id rs ≡ none
      → AtMost (n + 1) (rs ++ (r ∷ []))
  grown n r rs (k, h) new = (Keyed-append r rs k new, omega (arith, attempts_of-append id r rs))

  more : (n : ℕ) (rs : List Run) → AtMost n rs → AtMost (n + 1) rs
  more n rs (k, h) = (k, omega arith)

  insert_run-cap :
      (n : ℕ) (r : Run) → Ends (OnRuns (AtMost n)) (OnRuns (AtMost (n + 1))) (insert_run r)
  unfolding insert_run
  insert_run-cap n r = Ends-bind-gets _ _ λ taken.
      Ends-bind-require _ _ _ (λ s q. more n s.runs q.0)
        λ free. Ends-bind-gets _ _ λ known.
          Ends-bind-require _ _ _ (λ s q. more n s.runs q.0.0)
            λ _.
              Ends-bind-require _ _ _ (λ s q. more n s.runs q.0.0)
                λ _.
                  Ends-bind-Keeps _ _
                    (Ends-modify _
                      (λ s q. grown n r s.runs q.0.0 (unused r s.runs (rw q.0.1 free))))
                    (λ _. Keeps-pure r)

  create_run-cap :
      (env : Runtime) (n task : ℕ) (provider : Text) (a b c : Option ℕ)
      → Ends (OnRuns (AtMost n)) (OnRuns (AtMost (n + 1))) (create_run env task provider a b c)
  unfolding create_run get_task list_runs_for_task
  create_run-cap env n task provider a b c =
      let w = λ (s : Builder) (q : AtMost n s.runs). more n s.runs q in
      Ends-bind _ _ w (Keeps-gets _) λ found. Ends-bind _ _ w (Keeps-require_some _ _) λ row.
        Ends-bind _ _ w (Keeps-require _ _) λ _. Ends-bind _ _ w (Keeps-lift _) λ _.
          Ends-bind _ _ w (Keeps-gets _) λ existing.
            Ends-bind _ _ w (new_id-runs (AtMost n)) λ fresh. Ends-bind _ _ w (Keeps-gets _) λ time.
              Ends-bind-Keeps _ _ (Ends-rethrow _ _ (insert_run-cap n _)) (λ run. search run_frame)

  rewritten :
      (n j : ℕ) (m r : Run) (rs : List Run)
      → AtMost n rs
      → find_run j rs ≡ some r
      → m.task_id ≡ r.task_id
      → AtMost n (replace j (record m { factory_run_id = r.factory_run_id }) rs)
  rewritten n j m r rs (k, h) found same =
      let row = record m { factory_run_id = r.factory_run_id } in
      (
        Keyed-replace j row rs k (find_run-id j rs r found),
        omega (arith, attempts_of-replace id j row rs r k found same),
      )

  update_run-cap :
      (n j : ℕ) (patch : Run → Run)
      → ((r : Run) → (patch r).task_id ≡ r.task_id)
      → Keeps (OnRuns (AtMost n)) (update_run j patch)
  unfolding update_run
  update_run-cap n j patch same = Keeps-bind-found _ _ _ λ r.
      Ends-bind-Keeps _ _ (Ends-modify _ (λ s q. rewritten n j (patch r) r s.runs q.0 q.1 (same r)))
        (λ _. search run_frame)

  end_run-cap :
      (n task : ℕ) (f : FailureClass) (r : Run) → Keeps (OnRuns (AtMost n)) (end_run task f r)
  unfolding end_run
  end_run-cap n task f r = search (run_frame, update_run-cap) depth 20

  close_current-cap :
      (n task : ℕ) (f : FailureClass) (o : Option Run)
      → Keeps (OnRuns (AtMost n)) (close_current task f o)
  unfolding close_current
  close_current-cap n task f o = search (run_frame, end_run-cap) depth 20

  refuse-cap :
      (env : Runtime) (n task : ℕ) (why : Refusal) (stop : TaskStatus) (event : EventType) (a b : ℕ)
      (f g : FailureClass)
      → Keeps (OnRuns (AtMost n)) (refuse env task why stop event a b f g)
  unfolding refuse
  refuse-cap env n task why stop event a b f g =
      search (run_frame, update_task_status-runs) depth 20

  start_attempt-cap :
      (env : Runtime) (n : ℕ) (t : Task) (task : ℕ) (f : FailureClass) (provider : Text) (k : ℕ)
      → Ends (OnRuns (AtMost n)) (OnRuns (AtMost (n + 1))) (start_attempt env t task f provider k)
  unfolding start_attempt
  start_attempt-cap env n t task f provider k =
      let w = λ (s : Builder) (q : AtMost n s.runs). more n s.runs q in
      Ends-bind _ _ w (get_current_coding_run-runs (AtMost n)) λ current.
        Ends-bind _ _ w (close_current-cap n task f current) λ _.
          Ends-bind-Keeps _ _ (create_run-cap env n task provider none none none)
            λ run. search (run_frame, update_task_status-runs) depth 20

below : (id n m : ℕ) (rs : List Run) → leb n m ≡ false → AtMost id (m + 1) rs → AtMost id n rs
below id n m rs e (k, h) = (k, ground arith)

-- Repairs never take a task beyond its cap: a table of runs with unique identifiers in which the task
-- has at most as many runs as its cap is such a table afterwards, whatever the repair's outcome.
pub begin_repair_attempt-cap :
    (env : Runtime) (s : Builder) (id : ℕ) (failure : FailureClass) (provider : Text) (t : Task)
    → find_task id s.tasks ≡ some t
    → Keyed s.runs
    → attempts_of id s.runs ≤ t.max_attempts
    → Keyed (begin_repair_attempt env id failure provider s).1.runs
      × (attempts_of id (begin_repair_attempt env id failure provider s).1.runs ≤ t.max_attempts)
begin_repair_attempt-cap env s id failure provider t found k h =
    rw (begin_repair_attempt-outcome env s id failure provider t found)
      (elim (Bool-cases (is_non_retryable failure)) [
        | inl a ↦ rw a ((refuse-cap id env t.max_attempts id _ _ _ _ _ _ _).at s (k, h))
        | inr a ↦ elim (Bool-cases (leb t.max_attempts (attempts_of id s.runs))) [
          | inl b ↦ rw (a, b) ((refuse-cap id env t.max_attempts id _ _ _ _ _ _ _).at s (k, h))
          | inr b ↦
              elim (Bool-cases (leb t.max_runtime_ms (elapsed_runtime_ms s.now (runs_of id s)))) [
                | inl c ↦
                    rw (a, b, c) ((refuse-cap id env t.max_attempts id _ _ _ _ _ _ _).at s (k, h))
                | inr c ↦
                    rw (a, b, c)
                      (below id t.max_attempts (attempts_of id s.runs) _ b (
                        (start_attempt-cap id env (attempts_of id s.runs) t id failure provider
                            _).at
                          s (k, omega arith)))
              ]
        ]
      ])
