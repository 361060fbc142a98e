-- ===== src/Builder/Recovery/Verdict.antt =====
-- What a reconciliation that is not BLOCKED has checked (src/builder/recovery.js).
use jarvis_agencyos.Base.{
  ℕ, ◌≡◌, ◌≢◌, refl, sym, ap, subst, ◌∙◌, true, false, Option, none, some, List, [], ◌∷◌, Text,
  arith, first, is_some, length, ltb, select, any, All, ◌==◌,
}
use jarvis_agencyos.Exec.{Result, ok}
use jarvis_agencyos.Exec.Keeps.{Keeps, Keeps-modify}
use jarvis_agencyos.Exec.Returns.{Returns, Returns-bind, Returns-pure, Returns-cases}
use jarvis_agencyos.Exec.Does.{
  Does, Does-and, Does-any, Does-weaken, Does-implies, Does-pure, Does-know, Does-Keeps, Does-bind,
  Does-Returns, Does-gets, Does-if, Does-on_result,
}
use jarvis_agencyos.Builder.Contracts.{Runtime, is_active}
use jarvis_agencyos.Builder.State.{
  Task, Run, Builder, Error, RecoveryNote, BlockReason, recovered, blocked,
}
use jarvis_agencyos.Builder.Store.{list_runs_for_task, list_active_runs, list_tasks}
use jarvis_agencyos.Builder.Lock.{verify_task_hash}
use jarvis_agencyos.Builder.Runs.{set_current}
use jarvis_agencyos.Builder.Leases.Insertion.{active_of}
use jarvis_agencyos.Builder.Recovery.{
  TaskSnapshot, Probe, Reconciled, build_task_recovery_snapshot, build_snapshots, is_blocked_task,
  nonterminal, id_of, conclude, block_active, reconcile_after_restart,
}
use jarvis_agencyos.Builder.Recovery.Rows.{build_task_recovery_snapshot-reads}

-- A task whose lock verifies and that has at most one active run.
abbrev pub Sound : Runtime → Builder → Task → Type 0
Sound env s t = (verify_task_hash env t ≡ ok tt) × (ltb 1 (length (active_of t.task_id s)) ≡ false)

none_blocked :
    (os : List TaskSnapshot)
    → first (select is_blocked_task os) ≡ none
    → any is_blocked_task os ≡ false
none_blocked [] h = refl
none_blocked (o ∷ os) h = ground (arith, none_blocked os)

not_some : {A : Type 0} (o : Option A) → is_some o ≡ false → o ≡ none
not_some none h = refl
not_some (some a) h = ground arith

blocked≢recovered :
    {why : BlockReason} {c : Option ℕ} → ◌≡◌ {A = RecoveryNote} (blocked why) (recovered c) → ⊥
blocked≢recovered h = ground arith

conclude-open :
    (status : Option (Result Error Text)) (os : List TaskSnapshot)
    → Returns
        (λ r. (c : Option ℕ) → r.note ≡ recovered c → any is_blocked_task os ≡ false)
        (conclude status os)
unfolding conclude
conclude-open status os = Returns-bind _ _ λ held.
    Returns-cases (is_some (first (select is_blocked_task os))) _ _
      (λ _. Returns-bind _ _ λ _. Returns-pure _ (λ c h. absurd (blocked≢recovered h)))
      (λ free. Returns-bind _ _ λ _. Returns-pure _ (λ c h. none_blocked os (not_some _ free)))

module _ (env : Runtime) (s : Builder) where
  abbrev Start : Builder → Type 0
  Start t = (t.runs ≡ s.runs) × (t.tasks ≡ s.tasks)

  runs_read :
      (id : ℕ) (t : Builder) (runs : List Run)
      → t.runs ≡ s.runs
      → select (λ r. r.task_id == id) t.runs ≡ runs
      → active_of id s ≡ select (λ r. is_active r.status) runs
  runs_read id t runs same read =
      ap (λ l. select (λ r. is_active r.status) (select (λ r. r.task_id == id) l)) (sym same)
      ∙ ap (select (λ r. is_active r.status)) read

  true≢false : true ≢ false
  true≢false h = ground arith

  snapshot-Sound :
      (task : Task)
      → Does Start
          (λ o _. is_blocked_task o ≡ false → Sound env s task)
          (build_task_recovery_snapshot env task)
  unfolding build_task_recovery_snapshot list_runs_for_task
  snapshot-Sound task =
      Does-on_result _ _ _
        (λ _ hash. Does-gets _ _ λ runs.
          Does-know _ (λ t q. runs_read task.task_id t runs q.0.0 q.1)
            λ read.
              Does-if (ltb 1 (length (select (λ r. is_active r.status) runs))) _ _
                (λ many. Does-pure _ (λ t q h. absurd (true≢false h)))
                (λ few.
                  Does-implies _ (λ o t q h. (hash, ap (λ l. ltb 1 (length l)) read ∙ few))
                    (Does-any _)))
        (λ e _. Does-pure _ (λ t q h. absurd (true≢false h)))

  snapshots-Sound :
      (ts : List Task)
      → Does Start
          (λ os _. any is_blocked_task os ≡ false → All (Sound env s) ts)
          (build_snapshots env ts)
  unfolding build_snapshots
  snapshots-Sound [] = Does-pure _ (λ t q h. tt)
  snapshots-Sound (t ∷ ts) =
      Does-bind _ _
        (Does-and _ (Does-Keeps _ (build_task_recovery_snapshot-reads Start env t))
          (snapshot-Sound t))
        λ o.
          Does-know _ (λ u q. q.1)
            λ this.
              Does-bind _ _ (Does-weaken _ (λ u q. q.0) (snapshots-Sound ts))
                λ rest. Does-pure _ (λ u q h. (this (ground (arith, h)), q (ground (arith, h))))

  set_current-Start : (c : Option ℕ) → Keeps Start (set_current c)
  unfolding set_current
  set_current-Start c = Keeps-modify _ (λ t q. q)

  abbrev Checked : Reconciled → Builder → Type 0
  Checked r t = (c : Option ℕ) → r.note ≡ recovered c → All (Sound env s) (nonterminal s.tasks)

  blocked_note :
      (on : List Run) → Returns (λ r. (c : Option ℕ) → r.note ≡ recovered c → ⊥) (block_active on)
  unfolding block_active
  blocked_note on =
      Returns-bind _ _
        λ _. Returns-bind _ _ λ _. Returns-bind _ _ λ _. Returns-pure _ (λ c h. blocked≢recovered h)

  reconcile-Checked : (probe : Probe) → Does Start Checked (reconcile_after_restart env probe)
  unfolding reconcile_after_restart list_active_runs list_tasks
  reconcile-Checked probe = Does-gets _ _ λ on.
      Does-weaken _ (λ t q. q.0)
        (Does-if (ltb 1 (length on)) _ _
          (λ many. Does-implies _ (λ r t k c h. absurd (k c h)) (Does-Returns _ (blocked_note on)))
          λ few. Does-bind _ _ (Does-Keeps _ (set_current-Start (id_of (first on)))) λ _.
            Does-gets _ _ λ ts.
              Does-know _ (λ t q. sym q.0.1 ∙ q.1)
                λ tasks.
                  Does-bind _ _ (Does-weaken _ (λ t q. q.0) (snapshots-Sound (nonterminal ts)))
                    λ os.
                      Does-know _ (λ t q. q)
                        λ sound. Does-bind _ _ (Does-any _) λ _.
                          Does-implies _
                            (λ r t k c h.
                              subst (λ l. All (Sound env s) (nonterminal l)) (sym tasks)
                                (sound (k c h)))
                            (Does-Returns _ (conclude-open _ os)))

-- A reconciliation ends OK only when every task that is not terminal has a content hash that
-- verifies and at most one active run.
pub reconcile_after_restart-recovered :
    (env : Runtime) (probe : Probe) (s : Builder) (r : Reconciled) (c : Option ℕ)
    → (reconcile_after_restart env probe s).0 ≡ ok r
    → r.note ≡ recovered c
    → All
        (λ t. (verify_task_hash env t ≡ ok tt) × (ltb 1 (length (active_of t.task_id s)) ≡ false))
        (nonterminal s.tasks)
reconcile_after_restart-recovered env probe s r c h note =
    (reconcile-Checked env s probe).at s (refl, refl) r h c note
