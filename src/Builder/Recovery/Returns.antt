-- ===== src/Builder/Recovery/Returns.antt =====
-- A reconciliation never throws (src/builder/recovery.js).
use jarvis_agencyos.Base.{ℕ, Option, none, some, List, [], ◌∷◌, Text}
use jarvis_agencyos.Exec.{Result}
use jarvis_agencyos.Exec.Total.{Total, Total-bind, Total-pure, total_rules}
use jarvis_agencyos.Builder.Contracts.{EventType, Runtime}
use jarvis_agencyos.Builder.State.{
  Task, Run, Candidate, Verification, Review, Approval, RecoveryNote, BlockReason, Error, Action,
}
use jarvis_agencyos.Builder.Store.{
  get_run, get_verification, get_review, list_runs_for_task, list_active_runs,
  list_candidates_for_task, list_approvals_for_task, list_tasks, append_event,
}
use jarvis_agencyos.Builder.Runs.{set_current, drop_current}
use jarvis_agencyos.Builder.CiWait.{detect_awaiting_ci, awaiting_of, verification_of}
use jarvis_agencyos.Builder.Recovery.{
  Current, current_of, unclear, TaskSnapshot, Probe, current_candidate_for_task,
  current_approval_for_task, referred, unless_unclear, settle_snapshot, snapshot_rows,
  build_task_recovery_snapshot, build_snapshots, note_recovery, fence_runs, conclude, block_active,
  reconcile_after_restart,
}

verification_of-Total : (o : Option ℕ) → Total (verification_of o)
unfolding verification_of get_verification
verification_of-Total none = search total_rules
verification_of-Total (some id) = search total_rules

awaiting_of-Total : (c : Candidate) → Total (awaiting_of c)
unfolding awaiting_of get_run
awaiting_of-Total c = search (total_rules, verification_of-Total) depth 20

detect_awaiting_ci-Total : (id : ℕ) → Total (detect_awaiting_ci id)
unfolding detect_awaiting_ci list_candidates_for_task
detect_awaiting_ci-Total id = search (total_rules, awaiting_of-Total) depth 20

settle_snapshot-Total :
    (t : Task) (runs live : List Run) (c : Option Candidate) (v : Option Verification)
    (r : Option Review) (a : Option Approval)
    → Total (settle_snapshot t runs live c v r a)
unfolding settle_snapshot list_runs_for_task
settle_snapshot-Total t runs live c v r a = search (total_rules, detect_awaiting_ci-Total) depth 20

unless_unclear-Total :
    {A : Type 0} (id : ℕ) (o : Current A) (rest : Option A → Action TaskSnapshot)
    → ((a : Option A) → Total (rest a))
    → Total (unless_unclear id o rest)
unless_unclear-Total id (unclear why) rest k = search total_rules
unless_unclear-Total id (current_of o) rest k = k o

referred-Total :
    {A : Type 0} (o : Option ℕ) (read : ℕ → Action (Option A)) (why : BlockReason)
    → ((id : ℕ) → Total (read id))
    → Total (referred o read why)
unfolding referred
referred-Total none read why k = search total_rules
referred-Total (some id) read why k = search (total_rules, k) depth 20

snapshot_rows-Total : (t : Task) (runs live : List Run) → Total (snapshot_rows t runs live)
unfolding snapshot_rows current_candidate_for_task list_candidates_for_task
    current_approval_for_task list_approvals_for_task get_verification get_review
snapshot_rows-Total t runs live =
    search (total_rules, unless_unclear-Total, referred-Total, settle_snapshot-Total) depth 30

build_task_recovery_snapshot-Total :
    (env : Runtime) (t : Task) → Total (build_task_recovery_snapshot env t)
unfolding build_task_recovery_snapshot list_runs_for_task
build_task_recovery_snapshot-Total env t = search (total_rules, snapshot_rows-Total) depth 20

build_snapshots-Total : (env : Runtime) (ts : List Task) → Total (build_snapshots env ts)
unfolding build_snapshots
build_snapshots-Total env [] = search total_rules
build_snapshots-Total env (t ∷ ts) =
    Total-bind _ _ (build_task_recovery_snapshot-Total env t)
      (λ a. Total-bind _ _ (build_snapshots-Total env ts) (λ rest. Total-pure _))

note_recovery-Total :
    (n : RecoveryNote) (e : EventType) (c : Option ℕ) (ids : List ℕ)
    → Total (note_recovery n e c ids)
unfolding note_recovery append_event
note_recovery-Total n e c ids = search total_rules depth 20

fence_runs-Total : (id : ℕ) → Total (fence_runs id)
unfolding fence_runs list_runs_for_task drop_current
fence_runs-Total id = search total_rules depth 20

conclude-Total : (o : Option (Result Error Text)) (l : List TaskSnapshot) → Total (conclude o l)
unfolding conclude
conclude-Total o l = search (total_rules, note_recovery-Total) depth 20

block_active-Total : (l : List Run) → Total (block_active l)
unfolding block_active append_event set_current
block_active-Total l = search total_rules depth 20

-- From every state a reconciliation returns.
pub reconcile_after_restart-Total :
    (env : Runtime) (probe : Probe) → Total (reconcile_after_restart env probe)
unfolding reconcile_after_restart list_active_runs list_tasks set_current
reconcile_after_restart-Total env probe =
    search
      (total_rules, block_active-Total, build_snapshots-Total, fence_runs-Total, conclude-Total)
      depth 30
