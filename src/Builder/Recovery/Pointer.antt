-- ===== src/Builder/Recovery/Pointer.antt =====
-- The current run after a reconciliation (src/builder/recovery.js).
use jarvis_agencyos.Base.{
  ℕ, Text, ◌≡◌, refl, sym, ap, subst, ◌∙◌, inl, inr, true, false, Option, none, some, List, [], ◌∷◌,
  arith, ◌==◌, ==_self, same_id, if◌then◌else◌, first, length, ltb, select, All, All-select,
  All-map, Bool-cases,
}
use jarvis_agencyos.Exec.{Result, ok, when, ◌>>=◌}
use jarvis_agencyos.Exec.Keeps.{
  Keeps, Keeps-modify, Keeps-when, Keeps-skip, Keeps-for_each-All, Keeps-for_each, Keeps-bind-gets,
  keeps_rules,
}
use jarvis_agencyos.Exec.Does.{
  Does, Does-weaken, Does-implies, Does-pure, Does-know, Does-Keeps, Does-bind, Does-gets, Does-if,
  Does-modify, Does-modify_last,
}
use jarvis_agencyos.Builder.Contracts.{EventType, Runtime, is_active, is_fenced}
use jarvis_agencyos.Builder.State.{Run, Builder, Payload, RecoveryNote, Error}
use jarvis_agencyos.Builder.Store.{
  find_run, list_runs_for_task, list_active_runs, list_tasks, append_event,
}
use jarvis_agencyos.Builder.Runs.{set_current, drop_current}
use jarvis_agencyos.Builder.Runs.Keys.{Keyed}
use jarvis_agencyos.Builder.Runs.Exclusive.{active}
use jarvis_agencyos.Builder.Recovery.{
  TaskSnapshot, Probe, Reconciled, id_of, note_recovery, fence_runs, nonterminal, conclude,
  block_active, reconcile_after_restart, assert_no_duplicate_launch_after_recovery, points_to,
}
use jarvis_agencyos.Builder.Recovery.Rows.{build_snapshots-reads}
use jarvis_agencyos.Builder.Recovery.Returns.{reconcile_after_restart-Total}

-- The run that a table points to: the active one, if there is exactly one.
abbrev pub pointer : List Run → Option ℕ
pointer rs = if ltb 1 (length (active rs)) then none else id_of (first (active rs))

other_ids :
    (j : ℕ) (rs : List Run) → find_run j rs ≡ none → All (λ q. (q.factory_run_id == j) ≡ false) rs
other_ids j [] h = tt
other_ids j (r ∷ rs) h = (ground arith, other_ids j rs (ground arith))

-- A run that is fenced is not the one that an identifier names.
abbrev Unfenced : Option ℕ → Run → Type 0
Unfenced c r = is_fenced r.status ≡ true → same_id c (some r.factory_run_id) ≡ false

first-other :
    (j : ℕ) (rs : List Run)
    → find_run j rs ≡ none
    → same_id (id_of (first (active rs))) (some j) ≡ false
first-other j [] h = refl
first-other j (r ∷ rs) h = elim (Bool-cases (is_active r.status)) [
  | inl on ↦ rw on (ground arith)
  | inr off ↦ rw off (first-other j rs (ground arith))
]

active-not_fenced : (r : Run) → is_active r.status ≡ true → is_fenced r.status ≡ true → ⊥
active-not_fenced r a f = ground arith

symmetric : (a b : ℕ) → (a == b) ≡ false → (b == a) ≡ false
symmetric a b h = ground arith

first-Unfenced : (rs : List Run) → Keyed rs → All (Unfenced (id_of (first (active rs)))) rs
first-Unfenced [] k = tt
first-Unfenced (r ∷ rs) k = elim (Bool-cases (is_active r.status)) [
  | inl on ↦
      let this : some r.factory_run_id ≡ id_of (first (active (r ∷ rs))) = rw on refl in
      subst (λ c. All (Unfenced c) (r ∷ rs)) this
        (
          (λ f. absurd (active-not_fenced r on f)),
          All-map _ _ rs (λ q n _. symmetric q.factory_run_id r.factory_run_id n)
              (other_ids r.factory_run_id rs k.0),
        )
  | inr off ↦
      let later : id_of (first (active rs)) ≡ id_of (first (active (r ∷ rs))) = rw off refl in
      subst (λ c. All (Unfenced c) (r ∷ rs)) later
        ((λ _. first-other r.factory_run_id rs k.0), first-Unfenced rs k.1)
]

module _ (rs : List Run) (c : Option ℕ) where
  -- The table of runs and the current run.
  abbrev At : Builder → Type 0
  At t = (t.runs ≡ rs) × (t.current ≡ c)

  same : (t : Builder) → At t → At t
  same t h = h

  note_recovery-At :
      (n : RecoveryNote) (e : EventType) (o : Option ℕ) (ids : List ℕ)
      → Keeps At (note_recovery n e o ids)
  unfolding note_recovery append_event
  note_recovery-At n e o ids = search (keeps_rules, Keeps-modify, same) depth 20

  conclude-At : (o : Option (Result Error Text)) (l : List TaskSnapshot) → Keeps At (conclude o l)
  unfolding conclude
  conclude-At o l = search (keeps_rules, note_recovery-At) depth 20

  drop_current-At :
      (r : Run)
      → same_id c (some r.factory_run_id) ≡ false
      → Keeps At (drop_current r.factory_run_id)
  unfolding drop_current
  drop_current-At r other = Keeps-modify _ λ t q. (q.0, rw (q.1, other) refl)

  fence_run-At :
      (r : Run)
      → Unfenced c r
      → Keeps At (when (is_fenced r.status) (drop_current r.factory_run_id))
  fence_run-At r h = elim (Bool-cases (is_fenced r.status)) [
    | inl fenced ↦ Keeps-when _ _ (drop_current-At r (h fenced))
    | inr live ↦ rw live (Keeps-skip _)
  ]

  fence_runs-At : All (Unfenced c) rs → (id : ℕ) → Keeps At (fence_runs id)
  unfolding fence_runs list_runs_for_task
  fence_runs-At h id = Keeps-bind-gets _ _ λ t q.
      (Keeps-for_each-All (Unfenced c) _ _ (λ r u. fence_run-At r u)
          (subst (λ qs. All (Unfenced c) (select (λ r. r.task_id == id) qs)) (sym q.0)
            (All-select _ _ rs h))).at
        t q

module _ (env : Runtime) (probe : Probe) (rs : List Run) (keyed : Keyed rs) where
  abbrev Runs : Builder → Type 0
  Runs t = t.runs ≡ rs

  set_current-At : (c : Option ℕ) → Does Runs (λ _. At rs c) (set_current c)
  unfolding set_current
  set_current-At c = Does-modify_last _ (λ t q. (q, refl))

  append_event-Runs :
      (a b : Option ℕ) (e : EventType) (p : Payload) → Keeps Runs (append_event a b e p)
  unfolding append_event
  append_event-Runs a b e p = Keeps-modify _ (λ t q. q)

  block_active-At : (l : List Run) → Does Runs (λ _. At rs none) (block_active l)
  unfolding block_active
  block_active-At l = Does-bind _ _ (Does-Keeps _ (append_event-Runs _ _ _ _)) λ _.
      Does-bind _ _ (set_current-At none) λ _. Does-modify _ _ (λ t q. q) (Does-pure _ (λ t q. q))

  pointer-many : (on : List Run) → active rs ≡ on → ltb 1 (length on) ≡ true → none ≡ pointer rs
  pointer-many on e many = rw (e, many) refl

  pointer-few :
      (on : List Run) → active rs ≡ on → ltb 1 (length on) ≡ false → id_of (first on) ≡ pointer rs
  pointer-few on e few = rw (e, few) refl

  reconcile-At : Does Runs (λ _. At rs (pointer rs)) (reconcile_after_restart env probe)
  unfolding reconcile_after_restart list_active_runs list_tasks
  reconcile-At = Does-gets _ _ λ on.
      Does-know _ (λ t q. ap active (sym q.0) ∙ q.1)
        λ read.
          Does-weaken _ (λ t q. q.0)
            (Does-if (ltb 1 (length on)) _ _
              (λ many.
                Does-implies _ (λ r t q. (q.0, q.1 ∙ pointer-many on read many))
                  (block_active-At on))
              λ few.
                let unfenced : All (Unfenced (id_of (first on))) rs =
                  subst (λ l. All (Unfenced (id_of (first l))) rs) read (first-Unfenced rs keyed) in
                Does-implies _ (λ r t q. (q.0, q.1 ∙ pointer-few on read few))
                  (Does-bind _ _ (set_current-At (id_of (first on))) λ _. Does-gets _ _ λ ts.
                    Does-weaken _ (λ t q. q.0)
                      (Does-bind _ _ (Does-Keeps _ (build_snapshots-reads _ env (nonterminal ts)))
                        λ snapshots.
                          Does-bind _ _
                            (Does-Keeps _ (
                              Keeps-for_each _ _
                                (λ t. fence_runs-At rs (id_of (first on)) unfenced t.task_id)))
                            λ _. Does-Keeps _ (conclude-At rs (id_of (first on)) _ _))))

points-first : (l : List Run) → points_to (id_of (first l)) l ≡ true
points-first [] = refl
points-first (r ∷ l) = ==_self r.factory_run_id

assert-At :
    (rs : List Run) (s : Builder)
    → At rs (pointer rs) s
    → ltb 1 (length (active rs)) ≡ false
    → assert_no_duplicate_launch_after_recovery s ≡ (ok true, s)
unfolding assert_no_duplicate_launch_after_recovery list_active_runs ◌>>=◌
assert-At rs s q few =
    let few' : ltb 1 (length (active s.runs)) ≡ false =
      subst (λ l. ltb 1 (length (active l)) ≡ false) (sym q.0) few in
    let held : points_to s.current (active s.runs) ≡ true =
      subst (λ c. points_to c (active s.runs) ≡ true)
        (ap (λ l. id_of (first (active l))) q.0 ∙ rw few refl ∙ sym q.1)
        (points-first (active s.runs)) in
    rw (assert_no_duplicate_launch_after_recovery, few', held) refl

-- A reconciliation returns, and leaves as the current run the only active run, if there is exactly
-- one, and none otherwise: identifiers of runs are unique. The check against duplicate launches then
-- passes unless more than one run is active.
pub reconcile_after_restart-pointer :
    (env : Runtime) (probe : Probe) (s : Builder)
    → Keyed s.runs
    → (r : Reconciled) × ((reconcile_after_restart env probe s).0 ≡ ok r)
      × ((reconcile_after_restart env probe s).1.current ≡ pointer s.runs)
      × (ltb 1 (length (active s.runs)) ≡ false
          → let s' = (reconcile_after_restart env probe s).1 in
            assert_no_duplicate_launch_after_recovery s' ≡ (ok true, s'))
reconcile_after_restart-pointer env probe s keyed =
    let (r, e) = (reconcile_after_restart-Total env probe).at s in
    let q = (reconcile-At env probe s.runs keyed).at s refl r e in
    (r, e, q.1, λ few. assert-At s.runs (reconcile_after_restart env probe s).1 q few)
