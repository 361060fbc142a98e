-- ===== src/Builder/Leases.antt =====
-- The store's leases, and the two insertions that claim work under them (src/builder/store.js).
pub mod Transactions
pub mod Insertion
pub mod Ownership
pub mod Claims
use jarvis_agencyos.Base.{
  ℕ, ◌+◌, Bool, true, false, not, ◌&&◌, same_id, Option, none, some, List, [], ◌∷◌, ◌++◌, Text,
  codes, first, last, if◌then◌else◌, is_some, or_else, get_or, text_eq, select, find, update,
  length,
}
use jarvis_agencyos.Exec.{
  Result, ok, err, pure, raise, gets, require_some, modify, require, catch, if_some, ◌>>=◌, ◌>>◌,
}
use jarvis_agencyos.Builder.Contracts.{Runtime, is_active}
use jarvis_agencyos.Builder.State.{
  Task, Run, Lease, Builder, Action, Error, unique_violation, unbound_parameter,
}
use jarvis_agencyos.Builder.Store.{
  get_task, get_run, find_task, insert_run, list_runs_for_task, list_active_runs,
}
use jarvis_agencyos.Builder.Lock.{OwnerIntent, id_or_new, create_and_lock_task}
use jarvis_agencyos.Builder.Runs.{pending_run}

-- A rollback takes back every row that was written; identifiers that were drawn stay drawn.
abbrev pub rolled_back : Builder → Builder → Builder
rolled_back s s' = record s { next_id = s'.next_id }

abbrev pub settled : {A : Type 0} → Builder → Result Error A → Builder → Result Error A × Builder
settled s (ok a) s' = (ok a, s')
settled s (err e) s' = (err e, rolled_back s s')

-- `tx`: BEGIN IMMEDIATE, then COMMIT, or ROLLBACK and the error.
unfoldable pub transaction : {A : Type 0} → Action A → Action A
transaction m s = let (r, s') = m s in settled s r s'

-- `ACTIVE_CODING_LEASE_KEY`
abbrev pub active_coding_lease_key : Text
active_coding_lease_key = codes "active_coding_run"

abbrev pub find_lease : Text → List Lease → Option Lease
find_lease key = find (λ l. text_eq l.lease_key key)

unfoldable pub get_control_lease : Text → Action (Option Lease)
get_control_lease key = gets (λ s. find_lease key s.leases)

unfoldable pub insert_lease : Lease → Action Unit
insert_lease lease = do
  taken ← gets (λ s. is_some (find_lease lease.lease_key s.leases))
  require (not taken) unique_violation
  modify (λ s. record s { leases = s.leases ++ lease ∷ [] })

-- `UPDATE builder_leases SET task_id = ?, factory_run_id = ?, acquired_at = ? WHERE lease_key = ?`
unfoldable pub write_lease : Text → Option ℕ → Option ℕ → Action Unit
write_lease key task_id factory_run_id = modify λ s. record s {
  leases =
      update (λ l. text_eq l.lease_key key)
        (λ l. record l { task_id = task_id; factory_run_id = factory_run_id; acquired_at = s.now })
        s.leases;
}

-- What an acquisition answers: the lease, fresh or refreshed, or the lease that another owner holds.
pub data Acquired : Type 0 where
  acquired : Bool → Option Lease → Acquired
  held_by_other : Lease → Acquired

unfoldable pub refresh_lease : Text → Text → Option ℕ → Option ℕ → Lease → Action Acquired
refresh_lease key owner task_id factory_run_id existing =
    if not (text_eq existing.owner owner) then pure (held_by_other existing) else do
      write_lease key (or_else task_id existing.task_id)
          (or_else factory_run_id existing.factory_run_id)
      lease ← get_control_lease key
      pure (acquired true lease)

unfoldable pub take_lease : Text → Text → Option ℕ → Option ℕ → Action Acquired
take_lease key owner task_id factory_run_id = do
  time ← gets (λ s. s.now)
  insert_lease (record {
    lease_key = key;
    owner = owner;
    task_id = task_id;
    factory_run_id = factory_run_id;
    acquired_at = time;
  })
  lease ← get_control_lease key
  pure (acquired false lease)

-- `acquireControlLease`
unfoldable pub acquire_control_lease : Text → Text → Option ℕ → Option ℕ → Action Acquired
acquire_control_lease key owner task_id factory_run_id = transaction do
  existing ← get_control_lease key
  if_some existing (refresh_lease key owner task_id factory_run_id)
      (take_lease key owner task_id factory_run_id)

-- The rows that a release deletes: an owner that is absent or empty releases whoever's lease it is.
abbrev pub is_released : Text → Option Text → Lease → Bool
is_released key none l = text_eq l.lease_key key
is_released key (some []) l = text_eq l.lease_key key
is_released key (some (c ∷ o)) l = text_eq l.lease_key key && text_eq l.owner (c ∷ o)

-- `releaseControlLease`
unfoldable pub release_control_lease : Text → Option Text → Action Unit
release_control_lease key owner =
    modify (λ s. record s { leases = select (λ l. not (is_released key owner l)) s.leases })

-- `getTaskByLogicalWorkId`
unfoldable pub get_task_by_logical_work_id : Option ℕ → Action (Option Task)
get_task_by_logical_work_id none = pure none
get_task_by_logical_work_id (some id) =
    gets (λ s. find (λ t. same_id t.logical_work_id (some id)) s.tasks)

-- `this.getTask(input.task_id) || this.getTaskByLogicalWorkId(input.logical_work_id)`; a statement
-- does not take a parameter that is left out.
unfoldable pub find_claimed : OwnerIntent → Action (Option Task)
find_claimed input = do
  task_id ← require_some input.task_id unbound_parameter
  row ← get_task task_id
  if_some row (λ t. pure (some t)) (get_task_by_logical_work_id input.logical_work_id)

-- What a claim answers: a task of its own, or ALREADY_CLAIMED with the task found.
pub data Claimed : Type 0 where
  claimed : Task → Claimed
  already_claimed : Option Task → Claimed

pub data RefusedRun : Type 0 where
  lease_held active_run_exists unique_constraint : RefusedRun

-- What an insertion of an active run answers; a refusal names the run in the way, if there is one.
pub data Inserted : Type 0 where
  inserted : Run → Inserted
  not_inserted : RefusedRun → Option Run → Inserted

abbrev pub held_by : Text → Option Lease → Bool
held_by owner none = true
held_by owner (some l) = text_eq l.owner owner

-- The run that is reported when another owner holds the lease.
unfoldable pub run_of_lease : Option Lease → Action (Option Run)
run_of_lease none = pure none
run_of_lease (some l) =
    if_some l.factory_run_id get_run do active ← list_active_runs; pure (first active)

-- The lease follows the run that was inserted.
unfoldable pub bind_lease : Option Lease → Text → ℕ → ℕ → Action Unit
bind_lease lease owner task_id run_id =
    if is_some lease && held_by owner lease
    then write_lease active_coding_lease_key (some task_id) (some run_id)
    else do
      time ← gets (λ s. s.now)
      insert_lease (record {
        lease_key = active_coding_lease_key;
        owner = owner;
        task_id = some task_id;
        factory_run_id = some run_id;
        acquired_at = time;
      })

-- Only a broken unique index is answered; any other error goes on.
abbrev pub on_unique : {A : Type 0} → Action A → Error → Action A
on_unique m unique_violation = m
on_unique m e = raise e

-- What `tryInsertActiveRun` is given beside the task, the provider and the owner.
pub record NewRun : Type 0 where
  pub factory_run_id : Option ℕ
  pub provider_run_id : Option ℕ
  pub provider_agent_id : Option ℕ
  pub attempt : Option ℕ

unfoldable pub add_active_run : ℕ → Text → Text → NewRun → Option Lease → Action Inserted
add_active_run task_id provider owner given lease = do
  existing ← list_runs_for_task task_id
  id ← id_or_new given.factory_run_id
  time ← gets (λ s. s.now)
  run ← insert_run (
      pending_run id task_id provider given.provider_run_id given.provider_agent_id
        (get_or given.attempt (length existing + 1)) time)
  bind_lease lease owner task_id run.factory_run_id
  pure (inserted run)

-- The body of the transaction of `tryInsertActiveRun`.
unfoldable pub check_and_insert : ℕ → Text → Text → NewRun → Action Inserted
check_and_insert task_id provider owner given = do
  lease ← get_control_lease active_coding_lease_key
  if not (held_by owner lease)
      then (do existing ← run_of_lease lease; pure (not_inserted lease_held existing))
      else do
        runs ← list_runs_for_task task_id
        if_some (first (select (λ r. is_active r.status) runs))
            (λ r. pure (not_inserted active_run_exists (some r)))
            (add_active_run task_id provider owner given lease)

-- The answer to a broken unique index.
unfoldable pub clash_of_runs : ℕ → Action Inserted
clash_of_runs task_id = do
  active ← list_active_runs
  runs ← list_runs_for_task task_id
  pure (not_inserted unique_constraint (or_else (first active) (last runs)))

-- `tryInsertActiveRun`
unfoldable pub try_insert_active_run : ℕ → Text → Text → NewRun → Action Inserted
try_insert_active_run task_id provider owner given =
    catch (transaction (check_and_insert task_id provider owner given))
      (on_unique (clash_of_runs task_id))

module _ (env : Runtime) where
  -- The body of the transaction of `claimLogicalWork`.
  unfoldable pub check_and_claim : OwnerIntent → Action Claimed
  check_and_claim input = do
    existing ← find_claimed input
    if_some existing (λ t. pure (already_claimed (some t)))
        do task ← create_and_lock_task env input; pure (claimed task)

  unfoldable pub clash_of_work : OwnerIntent → Action Claimed
  clash_of_work input = do task ← find_claimed input; pure (already_claimed task)

  -- `claimLogicalWork`
  unfoldable pub claim_logical_work : OwnerIntent → Action Claimed
  claim_logical_work input =
      catch (transaction (check_and_claim input)) (on_unique (clash_of_work input))
