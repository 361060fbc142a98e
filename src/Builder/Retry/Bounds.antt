-- ===== src/Builder/Retry/Bounds.antt =====
-- The tests that beginRepairAttempt makes (src/builder/retry.js).
use jarvis_agencyos.Base.{
  ℕ, ◌<◌, ◌≡◌, refl, Bool, true, false, inl, inr, some, List, Text, ◌==◌, leb, arith, if◌then◌else◌,
  length, select, Bool-cases,
}
use jarvis_agencyos.Exec.{Result, ok, ◌>>=◌}
use jarvis_agencyos.Builder.Contracts.{TaskStatus, FailureClass, EventType, Runtime}
use jarvis_agencyos.Builder.State.{Action, Task, Run, Builder, Error}
use jarvis_agencyos.Exec.Returns.{Returns, Returns-bind, Returns-pure}
use jarvis_agencyos.Builder.Store.{find_task, get_task, list_runs_for_task}
use jarvis_agencyos.Builder.Retry.{
  is_non_retryable, elapsed_runtime_ms, Refusal, non_retryable_failure_class, attempt_cap,
  runtime_cap, Repair, allowed, refused, refuse, start_attempt, begin_repair_attempt,
}

-- An outcome that begins no attempt.
abbrev pub is_refused : Repair → Bool
is_refused (allowed run k) = false
is_refused (refused why stop failure) = true

-- The runs of a task.
abbrev pub runs_of : ℕ → Builder → List Run
runs_of id s = select (λ r. r.task_id == id) s.runs

pub refuse-Returns :
    (env : Runtime) (id : ℕ) (why : Refusal) (stop : TaskStatus) (event : EventType) (n top : ℕ)
    (recorded reported : FailureClass)
    → Returns (λ r. is_refused r ≡ true) (refuse env id why stop event n top recorded reported)
unfolding refuse
refuse-Returns env id why stop event n top recorded reported =
    Returns-bind _ _ λ _. Returns-bind _ _ λ _. Returns-pure _ refl

pub never_allowed :
    {m : Action Repair} {s : Builder} {run : Run} {k : ℕ}
    → Returns (λ r. is_refused r ≡ true) m
    → (m s).0 ≡ ok (allowed run k)
    → ⊥
never_allowed {s} {run} {k} r h = let e = r.at s (allowed run k) h in ground arith

module _ (env : Runtime) (s : Builder) (id : ℕ) (failure : FailureClass) (provider : Text) where
  -- The three tests, in the order in which they are made.
  abbrev pub outcome : Task → Result Error Repair × Builder
  outcome t =
      if is_non_retryable failure
      then refuse env id non_retryable_failure_class TaskStatus.blocked EventType.retry_denied 0 0
          failure failure s
      else if leb t.max_attempts (length (runs_of id s))
      then refuse env id attempt_cap TaskStatus.needs_owner EventType.retry_exhausted
          (length (runs_of id s)) t.max_attempts failure FailureClass.attempt_cap s
      else if leb t.max_runtime_ms (elapsed_runtime_ms s.now (runs_of id s))
      then refuse env id runtime_cap TaskStatus.blocked EventType.retry_exhausted
          (elapsed_runtime_ms s.now (runs_of id s)) t.max_runtime_ms FailureClass.timeout
          FailureClass.timeout s
      else start_attempt env t id failure provider (length (runs_of id s)) s

  pub begin_repair_attempt-outcome :
      (t : Task)
      → find_task id s.tasks ≡ some t
      → begin_repair_attempt env id failure provider s ≡ outcome t
  unfolding begin_repair_attempt get_task list_runs_for_task ◌>>=◌
  begin_repair_attempt-outcome t found = elim (Bool-cases (is_non_retryable failure)) [
    | inl a ↦ rw (found, begin_repair_attempt, a) refl
    | inr a ↦ elim (Bool-cases (leb t.max_attempts (length (runs_of id s)))) [
      | inl b ↦ rw (found, begin_repair_attempt, a, b) refl
      | inr b ↦ elim (Bool-cases (leb t.max_runtime_ms (elapsed_runtime_ms s.now (runs_of id s)))) [
        | inl c ↦ rw (found, begin_repair_attempt, a, b, c) refl
        | inr c ↦ rw (found, begin_repair_attempt, a, b, c) refl
      ]
    ]
  ]

  -- A repair is begun only for a failure that may be retried, while the task has fewer runs than its
  -- cap and these have taken less than its runtime.
  pub begin_repair_attempt-allowed :
      (t : Task) (run : Run) (k : ℕ)
      → find_task id s.tasks ≡ some t
      → (begin_repair_attempt env id failure provider s).0 ≡ ok (allowed run k)
      → (is_non_retryable failure ≡ false)
        × (length (runs_of id s) < t.max_attempts)
        × (elapsed_runtime_ms s.now (runs_of id s) < t.max_runtime_ms)
  begin_repair_attempt-allowed t run k found h =
      let o : (outcome t).0 ≡ ok (allowed run k) = rw (← begin_repair_attempt-outcome t found) h in
      elim (Bool-cases (is_non_retryable failure)) [
        | inl a ↦ absurd (never_allowed (refuse-Returns env id _ _ _ _ _ _ _) (rw a at o))
        | inr a ↦ elim (Bool-cases (leb t.max_attempts (length (runs_of id s)))) [
          | inl b ↦ absurd (never_allowed (refuse-Returns env id _ _ _ _ _ _ _) (rw (a, b) at o))
          | inr b ↦
              elim (Bool-cases (leb t.max_runtime_ms (elapsed_runtime_ms s.now (runs_of id s)))) [
                | inl c ↦
                    absurd (never_allowed (refuse-Returns env id _ _ _ _ _ _ _) (rw (a, b, c) at o))
                | inr c ↦ (a, ground arith, ground arith)
              ]
        ]
      ]
