-- ===== src/Builder/Runs/Keys.antt =====
-- The primary key of the runs, and how many runs a task has (src/builder/store.js).
use jarvis_agencyos.Base.{
  ℕ, ◌+◌, ◌≤◌, ◌≡◌, refl, sym, ap, ◌∙◌, Option, none, some, inl, inr, List, [], ◌∷◌, ◌++◌, ◌==◌,
  ==_iff, arith, length, select, update, Bool-cases, find-append_none, length-append, select-append,
}
use jarvis_agencyos.Builder.State.{Run}
use jarvis_agencyos.Builder.Store.{find_run}
use jarvis_agencyos.Builder.Workers.Fencing.{find_run-update}

-- No two rows have the same identifier.
abbrev pub Keyed : List Run → Type 0
Keyed [] = Unit
Keyed (r ∷ rs) = (find_run r.factory_run_id rs ≡ none) × Keyed rs

-- The number of runs of a task.
abbrev pub attempts_of : ℕ → List Run → ℕ
attempts_of id rs = length (select (λ r. r.task_id == id) rs)

abbrev pub replace : ℕ → Run → List Run → List Run
replace j n rs = update (λ q. q.factory_run_id == j) (λ _. n) rs

replace-none : (j : ℕ) (n : Run) (rs : List Run) → find_run j rs ≡ none → replace j n rs ≡ rs
replace-none j n [] h = refl
replace-none j n (q ∷ rs) h = ground (arith, replace-none j n rs)

some≢none : {r : Run} → ◌≡◌ {A = Option Run} (some r) none → ⊥
some≢none h = cc

some-injective : {q r : Run} → ◌≡◌ {A = Option Run} (some q) (some r) → q ≡ r
some-injective h = cc

attempts_of-head :
    (id : ℕ) (a b : Run) (rs : List Run)
    → a.task_id ≡ b.task_id
    → attempts_of id (a ∷ rs) ≡ attempts_of id (b ∷ rs)
attempts_of-head id a b rs h = ground arith

pub attempts_of-replace :
    (id j : ℕ) (n : Run) (rs : List Run) (r : Run)
    → Keyed rs
    → find_run j rs ≡ some r
    → n.task_id ≡ r.task_id
    → attempts_of id (replace j n rs) ≡ attempts_of id rs
attempts_of-replace id j n [] r k found same = refl
attempts_of-replace id j n (q ∷ rs) r k found same = elim (Bool-cases (q.factory_run_id == j)) [
  | inl here ↦
      let e = (==_iff q.factory_run_id j).0 here in
      let own : q ≡ r = some-injective (rw here at found) in
      rw (here, replace-none j n rs (rw e at k.0))
        (attempts_of-head id n q rs (same ∙ ap (λ x. x.task_id) (sym own)))
  | inr there ↦
      rw there (ground (arith, attempts_of-replace id j n rs r k.1 (rw there at found) same))
]

find_run-replace :
    (j k : ℕ) (n : Run) (rs : List Run)
    → n.factory_run_id ≡ j
    → find_run k rs ≡ none
    → find_run k (replace j n rs) ≡ none
find_run-replace j k n rs own h = rw (find_run-update j k n rs own, h) (ground arith)

pub Keyed-replace :
    (j : ℕ) (n : Run) (rs : List Run) → Keyed rs → n.factory_run_id ≡ j → Keyed (replace j n rs)
Keyed-replace j n [] k own = tt
Keyed-replace j n (q ∷ rs) k own = elim (Bool-cases (q.factory_run_id == j)) [
  | inl here ↦
      let e : q.factory_run_id ≡ n.factory_run_id = (==_iff q.factory_run_id j).0 here ∙ sym own in
      rw here
        (find_run-replace j n.factory_run_id n rs own (rw e at k.0), Keyed-replace j n rs k.1 own)
  | inr there ↦
      rw there (find_run-replace j q.factory_run_id n rs own k.0, Keyed-replace j n rs k.1 own)
]

pub Keyed-append :
    (r : Run) (rs : List Run)
    → Keyed rs
    → find_run r.factory_run_id rs ≡ none
    → Keyed (rs ++ (r ∷ []))
Keyed-append r [] k new = (refl, tt)
Keyed-append r (q ∷ rs) k new = (
  rw (find-append_none (λ x. x.factory_run_id == q.factory_run_id) rs (r ∷ []) k.0) (ground arith),
  Keyed-append r rs k.1 (ground arith),
)

pub attempts_of-append :
    (id : ℕ) (r : Run) (rs : List Run) → attempts_of id (rs ++ (r ∷ [])) ≤ attempts_of id rs + 1
attempts_of-append id r rs =
    rw
      (
        select-append (λ q. q.task_id == id) rs (r ∷ []),
        length-append (select (λ q. q.task_id == id) rs) (select (λ q. q.task_id == id) (r ∷ [])),
      )
      (ground arith)
