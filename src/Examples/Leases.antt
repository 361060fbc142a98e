-- ===== src/Examples/Leases.antt =====
-- Leases, insertions of active runs and claims.
use jarvis_agencyos.Base.{
  pos, ◌≡◌, ◌≢◌, refl, true, false, none, some, [], ◌∷◌, ◌++◌, Text, codes, arith,
}
use jarvis_agencyos.Exec.{ok, ◌>>=◌}
use jarvis_agencyos.Builder.Contracts.{TaskStatus, normalize_tool_manifest, task_content_hash}
use jarvis_agencyos.Builder.State.{Task, Run, Lease}
use jarvis_agencyos.Builder.Store.{
  new_id, get_task, insert_task, insert_run, update_task, list_runs_for_task, list_active_runs,
  append_event,
}
use jarvis_agencyos.Builder.Lock.{
  OwnerIntent, absent, require_non_empty_string, normalize_allowed_paths, dedupe, trim_all,
  at_least_one, finite, normalize_owner_intent, id_or_new, create_draft_task, lock_draft, lock_task,
  create_and_lock_task,
}
use jarvis_agencyos.Builder.Runs.{pending_run}
use jarvis_agencyos.Builder.Leases.{
  NewRun, inserted, not_inserted, active_run_exists, acquired, held_by_other, claimed,
  already_claimed, active_coding_lease_key, held_by, get_control_lease, insert_lease, bind_lease,
  add_active_run, check_and_insert, clash_of_runs, transaction, try_insert_active_run,
  refresh_lease, take_lease, acquire_control_lease, release_control_lease, find_claimed,
  get_task_by_logical_work_id, check_and_claim, claim_logical_work,
}
use jarvis_agencyos.Builder.Leases.Transactions.{Unwritten}
use jarvis_agencyos.Builder.Leases.Insertion.{
  active_of, coding_lease, Leased, try_insert_active_run-inserted,
  try_insert_active_run-not_inserted,
}
use jarvis_agencyos.Builder.Leases.Claims.{claim_logical_work-again}
use jarvis_agencyos.Builder.Leases.Ownership.{acquire_control_lease-excludes}
use jarvis_agencyos.Examples.Data.{runtime, task, run, locked_board, board, cursor}

abbrev tick : Text
tick = codes "tick"

abbrev other : Text
other = codes "other"

abbrev new_run : NewRun
new_run = record {
  factory_run_id = none;
  provider_run_id = none;
  provider_agent_id = none;
  attempt = none;
}

abbrev first_run : Run
first_run = pending_run 30 1 cursor none none 1 9

inserts : (try_insert_active_run 1 cursor tick new_run locked_board).0 ≡ ok (inserted first_run)
unfolding try_insert_active_run check_and_insert clash_of_runs transaction get_control_lease
    list_runs_for_task list_active_runs add_active_run id_or_new new_id insert_run bind_lease
    insert_lease ◌>>=◌
inserts = refl

try_insert_active_run-inserted_example :
    let s' = (try_insert_active_run 1 cursor tick new_run locked_board).1 in
    (active_of 1 locked_board ≡ [])
    × (held_by tick (coding_lease locked_board) ≡ true)
    × (s'.runs ≡ [] ++ (first_run ∷ []))
    × (active_of 1 s' ≡ first_run ∷ [])
    × Leased tick 1 30 (coding_lease s')
try_insert_active_run-inserted_example =
    try_insert_active_run-inserted locked_board 1 cursor tick new_run first_run inserts

refuses :
    (try_insert_active_run 1 cursor tick new_run (board (run ∷ []))).0
    ≡ ok (not_inserted active_run_exists (some run))
unfolding try_insert_active_run check_and_insert clash_of_runs transaction get_control_lease
    list_runs_for_task list_active_runs ◌>>=◌
refuses = refl

try_insert_active_run-not_inserted_example :
    Unwritten (board (run ∷ [])) (try_insert_active_run 1 cursor tick new_run (board (run ∷ []))).1
try_insert_active_run-not_inserted_example =
    try_insert_active_run-not_inserted (board (run ∷ [])) 1 cursor tick new_run active_run_exists
      (some run) refuses

abbrev held : Lease
held = record {
  lease_key = active_coding_lease_key;
  owner = tick;
  task_id = some 1;
  factory_run_id = none;
  acquired_at = 9;
}

acquires :
    (acquire_control_lease active_coding_lease_key tick (some 1) none locked_board).0
    ≡ ok (acquired false (some held))
unfolding acquire_control_lease transaction get_control_lease refresh_lease take_lease insert_lease
    ◌>>=◌
acquires = refl

tick≢other : tick ≢ other
tick≢other h = ground arith

acquire_control_lease-excludes_example :
    let held_state =
      (acquire_control_lease active_coding_lease_key tick (some 1) none locked_board).1 in
    let rest = (release_control_lease active_coding_lease_key (some other) held_state).1 in
    (l : Lease) × (l.owner ≡ tick)
    × (acquire_control_lease active_coding_lease_key other none none rest
        ≡ (ok (held_by_other l), rest))
acquire_control_lease-excludes_example =
    acquire_control_lease-excludes active_coding_lease_key tick 111 (codes "ther") (some 1) none
      none none locked_board false (some held) tick≢other acquires

abbrev intent : OwnerIntent
intent = record {
  task_id = some 8;
  logical_work_id = some 9;
  intent = some (codes "add a page");
  acceptance_ref = some (codes "page loads");
  allowed_paths = some (codes "src" ∷ []);
  tool_manifest = none;
  review_required = some true;
  priority = absent;
  max_attempts = absent;
  max_runtime_ms = absent;
  cost_budget_status = none;
}

-- The row of the claim.
abbrev claimed_task : Task
claimed_task = record {
  task_id = 8;
  logical_work_id = some 9;
  line = record {
    terms = record {
      intent = codes "add a page";
      intent_version = 1;
      acceptance_ref = codes "page loads";
      allowed_paths = codes "src" ∷ [];
      tool_manifest = record { providers = []; tools = []; mode = codes "build" };
      review_required = true;
    };
    max_attempts = 2;
    max_runtime_ms = 1800000;
    cost_budget_status = codes "UNKNOWN";
    proposal_id = some 30;
    content_hash = some 7;
  };
  status = TaskStatus.locked;
  priority = pos 100;
  locked_at = some 9;
  created_at = 9;
  updated_at = 9;
}

claims : (claim_logical_work runtime intent locked_board).0 ≡ ok (claimed claimed_task)
unfolding claim_logical_work check_and_claim find_claimed get_task_by_logical_work_id transaction
    get_task create_and_lock_task create_draft_task normalize_owner_intent require_non_empty_string
    normalize_allowed_paths dedupe trim_all at_least_one finite normalize_tool_manifest id_or_new
    new_id insert_task append_event lock_task lock_draft update_task task_content_hash ◌>>=◌
claims = refl

claim_logical_work-again_example :
    let s' = (claim_logical_work runtime intent locked_board).1 in
    claim_logical_work runtime intent s' ≡ (ok (already_claimed (some claimed_task)), s')
claim_logical_work-again_example =
    claim_logical_work-again runtime intent locked_board claimed_task claims

-- The task is there already.
abbrev same_intent : OwnerIntent
same_intent = record intent { task_id = some 1 }

finds : (claim_logical_work runtime same_intent locked_board).0 ≡ ok (already_claimed (some task))
unfolding claim_logical_work check_and_claim find_claimed get_task_by_logical_work_id transaction
    get_task ◌>>=◌
finds = refl
