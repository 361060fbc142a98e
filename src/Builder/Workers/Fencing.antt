-- ===== src/Builder/Workers/Fencing.antt =====
-- Late answers of a provider (applyProviderResult, refreshWorkerStatus, src/builder/core.js).
use jarvis_agencyos.Base.{
  ℕ, ◌≡◌, refl, sym, ◌∙◌, ◌⊎◌, not, false, true, inl, inr, Option, none, some, List, [], ◌∷◌, ◌==◌,
  arith, if◌then◌else◌, or_else, update, Bool-cases, ==_self, ==_iff,
}
use jarvis_agencyos.Exec.{ok, pure, lift, modify, when, ◌>>=◌}
use jarvis_agencyos.Exec.Keeps.{
  Keeps, Keeps-cases, Keeps-modify, Keeps-bind, Keeps-bind-gets, Keeps-bind_some,
}
use jarvis_agencyos.Builder.Frame.Runs.{OnRuns, run_frame, get_current_coding_run-runs}
use jarvis_agencyos.Builder.Contracts.{RunStatus, is_fenced, is_active, EventType}
use jarvis_agencyos.Builder.State.{Run, Builder}
use jarvis_agencyos.Builder.Store.{
  find_run, get_run, update_run, release_control_lease_by_run, append_event,
}
use jarvis_agencyos.Builder.Runs.{reject_stale, drop_current, is_other, get_current_coding_run}
use jarvis_agencyos.Builder.Provider.{
  PartialResult, ProviderResult, apply_provider_result, apply_provider_observation,
  observed_failure, normalize_provider_result, next_status,
}
use jarvis_agencyos.Builder.Workers.{refresh_settle}

abbrev pub written : Run → Option Run → Option Run
written n none = none
written n (some r) = some n

pub find_run-update :
    (id j : ℕ) (n : Run) (rs : List Run)
    → n.factory_run_id ≡ id
    → find_run j (update (λ r. r.factory_run_id == id) (λ _. n) rs)
      ≡ (if id == j then written n (find_run j rs) else find_run j rs)
find_run-update id j n [] e = ground arith
find_run-update id j n (r ∷ rs) e = ground (arith, find_run-update id j n rs e)

pub find_run-id :
    (id : ℕ) (rs : List Run) (r : Run) → find_run id rs ≡ some r → r.factory_run_id ≡ id
find_run-id id [] r h = ground arith
find_run-id id (q ∷ rs) r h = ground (arith, find_run-id id rs r)

-- Rows of runs that are neither the observed one nor changed.
module _ (j : ℕ) (r : Run) where
  abbrev Stands : List Run → Type 0
  Stands rs = find_run j rs ≡ some r

  update_run-other :
      (id : ℕ) (patch : Run → Run) → (id == j) ≡ false → Keeps (OnRuns Stands) (update_run id patch)
  unfolding update_run
  update_run-other id patch other = Keeps-bind-gets _ _ λ s q.
      (Keeps-bind_some (find_run id s.runs) _ _
          λ current found. written current (find_run-id id s.runs current found)).at
        s q
    where
      written :
          (current : Run)
          → current.factory_run_id ≡ id
          → Keeps (OnRuns Stands) (
              let next = record (patch current) { factory_run_id = current.factory_run_id } in
              modify
                (λ s. record s { runs = update (λ r. r.factory_run_id == id) (λ _. next) s.runs })
              >>= λ _. when (not (is_active next.status)) (release_control_lease_by_run id) >>= λ _.
                  pure next)
      written current own =
          let next : Run = record (patch current) { factory_run_id = current.factory_run_id } in
          Keeps-bind _ _ (Keeps-modify _ λ s q. rw (find_run-update id j next s.runs own, other) q)
            (λ _. search run_frame depth 20)

  module _ (run : Run) (other : (run.factory_run_id == j) ≡ false) where
    observation-Stands :
        (result : ProviderResult) (e : EventType)
        → Keeps (OnRuns Stands) (apply_provider_observation run result e)
    unfolding apply_provider_observation
    observation-Stands result e = search (run_frame, update_run-other) depth 20

    live-Stands :
        (id : ℕ) (answer : Option PartialResult)
        → Keeps (OnRuns Stands) (
            get_current_coding_run >>= λ current.
            if is_other id current
            then reject_stale run current
            else (lift (normalize_provider_result answer) >>= λ result.
                apply_provider_observation run result EventType.worker_status))
    unfolding reject_stale
    live-Stands id answer =
        search (run_frame, get_current_coding_run-runs, observation-Stands) depth 20

  rejected-Stands : (run : Run) → Keeps (OnRuns Stands) (reject_stale {A = Run} run none)
  unfolding reject_stale
  rejected-Stands run = search run_frame depth 20

-- The run's end cannot be taken back.
abbrev pub IsFenced : Run → Type 0
IsFenced r = (r.status ≡ RunStatus.cancelled) ⊎ (r.status ≡ RunStatus.stale)

fenced : (r : Run) → IsFenced r → is_fenced r.status ≡ true
fenced r (inl h) = rw h refl
fenced r (inr h) = rw h refl

some-injective : {a b : Run} → ◌≡◌ {A = Option Run} (some a) (some b) → a ≡ b
some-injective h = cc

false≢true : false ≡ true → ⊥
false≢true h = ground arith

apart :
    (rs : List Run) (id j : ℕ) (run r : Run)
    → find_run id rs ≡ some run
    → find_run j rs ≡ some r
    → is_fenced run.status ≡ false
    → IsFenced r
    → (run.factory_run_id == j) ≡ false
apart rs id j run r found stands live end' = elim (Bool-cases (run.factory_run_id == j)) [
  | inr other ↦ other
  | inl same ↦
      let here : id ≡ j =
        sym (find_run-id id rs run found) ∙ (==_iff run.factory_run_id j).0 same in
      let one : run ≡ r = some-injective (sym found ∙ rw here stands) in
      absurd (false≢true (sym live ∙ rw one (fenced r end')))
]

-- A row that is CANCELLED or STALE stands: whatever a provider's answer says, for whichever run it is
-- applied, and whether it is accepted, refused or not well-formed, the row is the same afterwards.
pub apply_provider_result-fenced :
    (s : Builder) (id j : ℕ) (r : Run) (answer : Option PartialResult)
    → find_run j s.runs ≡ some r
    → IsFenced r
    → find_run j (apply_provider_result id answer s).1.runs ≡ some r
unfolding apply_provider_result get_run
apply_provider_result-fenced s id j r answer stands end' = kept.at s stands
  where
    kept : Keeps (OnRuns (Stands j r)) (apply_provider_result id answer)
    kept = Keeps-bind-gets _ _ λ t q.
        (Keeps-bind_some (find_run id t.runs) _ _ λ run found.
            Keeps-cases (is_fenced run.status) _ _ (λ over. rejected-Stands j r run)
              (λ live.
                live-Stands j r run (apart t.runs id j run r found q live end') id answer)).at
          t q

-- The row that an observation writes.
abbrev pub observed_row : Run → ProviderResult → ℕ → Run → Run
observed_row r result time u = record u {
  factory_run_id = u.factory_run_id;
  provider_run_id = or_else result.provider_run_id r.provider_run_id;
  provider_agent_id = or_else result.provider_agent_id r.provider_agent_id;
  status = next_status r result;
  ended_at = if is_active (next_status r result) then none else or_else r.ended_at (some time);
  failure_class =
      if is_fenced r.status
      then r.failure_class
      else observed_failure result.provider_status r.failure_class;
}

module _ (s : Builder) (r u : Run) (answer : PartialResult) (result : ProviderResult)
    (found : find_run r.factory_run_id s.runs ≡ some u)
    (n : normalize_provider_result (some answer) ≡ ok result)
    (own : (result.factory_run_id == r.factory_run_id) ≡ true) where
  settled_runs : List Run
  settled_runs =
      update (λ q. q.factory_run_id == r.factory_run_id) (λ _. observed_row r result s.now u) s.runs

  refresh_settle-answer :
      ((refresh_settle r (ok (some answer)) s).0 ≡ ok (observed_row r result s.now u))
      × ((refresh_settle r (ok (some answer)) s).1.runs ≡ settled_runs)
  unfolding settled_runs refresh_settle apply_provider_observation update_run drop_current
      append_event release_control_lease_by_run ◌>>=◌
  refresh_settle-answer = elim (Bool-cases (is_active (next_status r result))) [
    | inl running ↦
        rw (n, refresh_settle, own, found, running, refresh_settle, running) (refl, refl)
    | inr over ↦ rw (n, refresh_settle, own, found, over, refresh_settle, over) (refl, refl)
  ]

-- A well-formed answer for the run that was asked about writes the status that the answer and the
-- run as it was read before the provider was asked give, and the row written is the one returned,
-- whatever the row in the table says by then.
pub refresh_settle-row :
    (s : Builder) (r u : Run) (answer : PartialResult) (result : ProviderResult)
    → find_run r.factory_run_id s.runs ≡ some u
    → normalize_provider_result (some answer) ≡ ok result
    → (result.factory_run_id == r.factory_run_id) ≡ true
    → (v : Run) × ((refresh_settle r (ok (some answer)) s).0 ≡ ok v)
      × (find_run r.factory_run_id (refresh_settle r (ok (some answer)) s).1.runs ≡ some v)
      × (v.status ≡ next_status r result)
unfolding settled_runs
refresh_settle-row s r u answer result found n own =
    let (answered, runs) = refresh_settle-answer s r u answer result found n own in
    (
      observed_row r result s.now u,
      answered,
      rw
          (
            runs,
            find_run-update r.factory_run_id r.factory_run_id (observed_row r result s.now u) s.runs
                (find_run-id r.factory_run_id s.runs u found),
            ==_self r.factory_run_id,
            found,
          )
          refl,
      refl,
    )
