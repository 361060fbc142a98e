-- ===== src/Builder/Recovery/Rows.antt =====
-- What a reconciliation writes (src/builder/recovery.js).
use jarvis_agencyos.Base.{
  ℕ, ◌≡◌, refl, ap, Option, none, some, List, [], ◌∷◌, ◌++◌, Text, same_id, if◌then◌else◌,
}
use jarvis_agencyos.Exec.{Result, modify}
use jarvis_agencyos.Exec.Keeps.{Keeps, Keeps-pure, Keeps-bind, Keeps-modify, keeps_rules}
use jarvis_agencyos.Builder.Contracts.{EventType, Runtime}
use jarvis_agencyos.Builder.State.{
  Task, Run, Candidate, Verification, Review, Approval, Builder, Payload, RecoveryNote, BlockReason,
  Error, Action,
}
use jarvis_agencyos.Builder.Store.{
  get_run, get_verification, get_review, list_runs_for_task, list_active_runs,
  list_candidates_for_task, list_approvals_for_task, list_tasks, append_event,
}
use jarvis_agencyos.Builder.Runs.{set_current, drop_current}
use jarvis_agencyos.Builder.CiWait.{detect_awaiting_ci, awaiting_of, verification_of}
use jarvis_agencyos.Builder.Recovery.{
  Current, current_of, unclear, TaskSnapshot, Probe, current_candidate_for_task,
  current_approval_for_task, referred, unless_unclear, settle_snapshot, snapshot_rows,
  build_task_recovery_snapshot, build_snapshots, note_recovery, fence_runs, conclude, block_active,
  reconcile_after_restart,
}

-- Snapshots only read, so they keep whatever holds of the state.
module _ (P : Builder → Type 0) where
  pub verification_of-reads : (o : Option ℕ) → Keeps P (verification_of o)
  unfolding verification_of get_verification
  verification_of-reads none = search keeps_rules
  verification_of-reads (some id) = search keeps_rules

  awaiting_of-reads : (c : Candidate) → Keeps P (awaiting_of c)
  unfolding awaiting_of get_run
  awaiting_of-reads c = search (keeps_rules, verification_of-reads) depth 20

  pub detect_awaiting_ci-reads : (id : ℕ) → Keeps P (detect_awaiting_ci id)
  unfolding detect_awaiting_ci list_candidates_for_task
  detect_awaiting_ci-reads id = search (keeps_rules, awaiting_of-reads) depth 20

  settle_snapshot-reads :
      (t : Task) (rs as' : List Run) (c : Option Candidate) (v : Option Verification)
      (r : Option Review) (a : Option Approval)
      → Keeps P (settle_snapshot t rs as' c v r a)
  unfolding settle_snapshot list_runs_for_task
  settle_snapshot-reads t rs as' c v r a = search (keeps_rules, detect_awaiting_ci-reads) depth 20

  unless_unclear-reads :
      {A : Type 0} (id : ℕ) (o : Current A) (rest : Option A → Action TaskSnapshot)
      → ((a : Option A) → Keeps P (rest a))
      → Keeps P (unless_unclear id o rest)
  unless_unclear-reads id (unclear why) rest k = search keeps_rules
  unless_unclear-reads id (current_of o) rest k = k o

  referred-reads :
      {A : Type 0} (o : Option ℕ) (read : ℕ → Action (Option A)) (why : BlockReason)
      → ((id : ℕ) → Keeps P (read id))
      → Keeps P (referred o read why)
  unfolding referred
  referred-reads none read why k = search keeps_rules
  referred-reads (some id) read why k = search (keeps_rules, k) depth 20

  snapshot_rows-reads : (t : Task) (rs as' : List Run) → Keeps P (snapshot_rows t rs as')
  unfolding snapshot_rows current_candidate_for_task list_candidates_for_task
      current_approval_for_task list_approvals_for_task get_verification get_review
  snapshot_rows-reads t rs as' =
      search (keeps_rules, unless_unclear-reads, referred-reads, settle_snapshot-reads) depth 30

  pub build_task_recovery_snapshot-reads :
      (env : Runtime) (t : Task) → Keeps P (build_task_recovery_snapshot env t)
  unfolding build_task_recovery_snapshot list_runs_for_task
  build_task_recovery_snapshot-reads env t = search (keeps_rules, snapshot_rows-reads) depth 20

  pub build_snapshots-reads : (env : Runtime) (ts : List Task) → Keeps P (build_snapshots env ts)
  unfolding build_snapshots
  build_snapshots-reads env [] = search keeps_rules
  build_snapshots-reads env (t ∷ ts) =
      Keeps-bind _ _ (build_task_recovery_snapshot-reads env t)
        (λ a. Keeps-bind _ _ (build_snapshots-reads env ts) (λ rest. Keeps-pure _))

-- The state has the same rows as `s`: it differs in the log, the current run and the recovery note.
abbrev pub SameRows : Builder → Builder → Type 0
SameRows s t = t ≡ record s { events = t.events; current = t.current; recovery = t.recovery }

module _ (s : Builder) where
  append_event-rows :
      (a b : Option ℕ) (e : EventType) (p : Payload) → Keeps (SameRows s) (append_event a b e p)
  unfolding append_event
  append_event-rows a b e p = Keeps-modify _ λ t q.
      ap
        (λ (u : Builder). record u {
          events =
              t.events
              ++ (record {
                task_id = a;
                factory_run_id = b;
                event_type = e;
                payload = p;
                timestamp = t.now;
              }
                  ∷ []);
        })
        q

  set_current-rows : (c : Option ℕ) → Keeps (SameRows s) (set_current c)
  unfolding set_current
  set_current-rows c = Keeps-modify _ (λ t q. ap (λ (u : Builder). record u { current = c }) q)

  drop_current-rows : (id : ℕ) → Keeps (SameRows s) (drop_current id)
  unfolding drop_current
  drop_current-rows id = Keeps-modify _ λ t q.
      ap
        (λ (u : Builder). record u {
          current = if same_id t.current (some id) then none else t.current;
        })
        q

  note-rows :
      (n : Option RecoveryNote)
      → Keeps {E = Error} (SameRows s) (modify (λ t. record t { recovery = n }))
  note-rows n = Keeps-modify _ (λ t q. ap (λ (u : Builder). record u { recovery = n }) q)

  note_recovery-rows :
      (n : RecoveryNote) (e : EventType) (c : Option ℕ) (ids : List ℕ)
      → Keeps (SameRows s) (note_recovery n e c ids)
  unfolding note_recovery
  note_recovery-rows n e c ids =
      Keeps-bind _ _ (append_event-rows _ _ _ _) (λ _. note-rows (some n))

  fence_runs-rows : (id : ℕ) → Keeps (SameRows s) (fence_runs id)
  unfolding fence_runs list_runs_for_task
  fence_runs-rows id = search (keeps_rules, drop_current-rows) depth 20

  conclude-rows :
      (o : Option (Result Error Text)) (l : List TaskSnapshot) → Keeps (SameRows s) (conclude o l)
  unfolding conclude
  conclude-rows o l = search (keeps_rules, note_recovery-rows) depth 20

  block_active-rows : (l : List Run) → Keeps (SameRows s) (block_active l)
  unfolding block_active
  block_active-rows l =
      search (keeps_rules, append_event-rows, set_current-rows, note-rows) depth 20

  reconcile-rows :
      (env : Runtime) (probe : Probe) → Keeps (SameRows s) (reconcile_after_restart env probe)
  unfolding reconcile_after_restart list_active_runs list_tasks
  reconcile-rows env probe =
      search
        (
          keeps_rules, block_active-rows, set_current-rows, build_snapshots-reads, fence_runs-rows,
          conclude-rows,
        )
        depth 30

-- A reconciliation, whether it returns or throws, launches nothing and repairs nothing: it writes no
-- row of any table but the log, and beside that only the current run and the recovery note.
pub reconcile_after_restart-rows :
    (env : Runtime) (probe : Probe) (s : Builder)
    → let s' = (reconcile_after_restart env probe s).1 in
      s' ≡ record s { events = s'.events; current = s'.current; recovery = s'.recovery }
reconcile_after_restart-rows env probe s = (reconcile-rows s env probe).at s refl
