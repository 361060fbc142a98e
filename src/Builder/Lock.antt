-- ===== src/Builder/Lock.antt =====
-- The task lock (src/builder/task-lock.js): owner intent to a locked task with a content hash.
pub mod Reopen
pub mod Binding
use jarvis_agencyos.Base.{
  ℕ, ℤ, pos, negsuc, Bool, true, false, not, ◌&&◌, ◌||◌, Option, none, some, List, [], ◌∷◌, Text,
  codes, ◌==◌, ltb, if◌then◌else◌, same_id, is_some, get_or, text_eq, has_text, sort_texts, trim,
  select,
}
use jarvis_agencyos.Exec.{
  ◌▹◌, Result, ok, err, pure, raise, lift, gets, require_some, modify, require, ◌>>=◌, ◌>>◌,
}
use jarvis_agencyos.Builder.Contracts.{
  TaskStatus, Manifest, ManifestInput, Terms, Runtime, task_content_hash, normalize_tool_manifest,
  is_draft, is_locked, EventType,
}
use jarvis_agencyos.Builder.State.{
  Task, FinishLine, Builder, Action, Error, Payload, no_payload, lock_record, unknown_task,
  not_draft, immutable_field, not_locked, hash_mismatch, invalid_intent,
}
use jarvis_agencyos.Builder.Store.{new_id, get_task, insert_task, update_task, append_event}

-- The outcome of `Number.parseInt` on a field that may be left out.
pub data NumberInput : Type 0 where
  absent not_a_number : NumberInput
  integer : ℤ → NumberInput

-- What an owner hands over. `none` stands for a value of another type, or for a field left out;
-- `task_id` and `logical_work_id` are never the empty text.
pub record OwnerIntent : Type 0 where
  pub task_id : Option ℕ
  pub logical_work_id : Option ℕ
  pub intent : Option Text
  pub acceptance_ref : Option Text
  pub allowed_paths : Option (List Text)
  pub tool_manifest : Option ManifestInput
  pub review_required : Option Bool
  pub priority : NumberInput
  pub max_attempts : NumberInput
  pub max_runtime_ms : NumberInput
  pub cost_budget_status : Option Text

pub record Normalized : Type 0 where
  pub terms : Terms
  pub priority : ℤ
  pub max_attempts : ℕ
  pub max_runtime_ms : ℕ
  pub cost_budget_status : Text

abbrev is_empty : Text → Bool
is_empty [] = true
is_empty (c ∷ s) = false

-- `x || d`, where a text that is absent or empty gives the default.
abbrev filled_or : Option Text → Text → Text
filled_or none d = d
filled_or (some []) d = d
filled_or (some (c ∷ t)) d = c ∷ t

unfoldable pub require_non_empty_string : Option Text → Result Error Text
require_non_empty_string none = err invalid_intent
require_non_empty_string (some s) = if is_empty (trim s) then err invalid_intent else ok (trim s)

-- `[...new Set(xs)]`
unfoldable pub dedupe : List Text → List Text → List Text
dedupe seen [] = []
dedupe seen (t ∷ ts) =
    let fresh = t ∷ dedupe (t ∷ seen) ts in
    let rest = dedupe seen ts in if has_text t seen then rest else fresh

unfoldable pub trim_all : List Text → List Text
trim_all [] = []
trim_all (t ∷ ts) = trim t ∷ trim_all ts

abbrev non_empty_list : List Text → Result Error (List Text)
non_empty_list [] = err invalid_intent
non_empty_list (t ∷ ts) = ok (sort_texts (t ∷ ts))

unfoldable pub normalize_allowed_paths : Option (List Text) → Result Error (List Text)
unfolding dedupe trim_all
normalize_allowed_paths none = err invalid_intent
normalize_allowed_paths (some paths) =
    non_empty_list (dedupe [] (select (λ t. not (is_empty t)) (trim_all paths)))

-- `x == null ? d : Number.parseInt(x, 10)`, then `Number.isFinite(x) && x >= 1`
unfoldable pub at_least_one : ℕ → NumberInput → Result Error ℕ
at_least_one d absent = ok d
at_least_one d not_a_number = err invalid_intent
at_least_one d (integer (negsuc n)) = err invalid_intent
at_least_one d (integer (pos n)) = if ltb n 1 then err invalid_intent else ok n

unfoldable pub finite : ℤ → NumberInput → Result Error ℤ
finite d absent = ok d
finite d not_a_number = err invalid_intent
finite d (integer z) = ok z

abbrev no_manifest : ManifestInput
no_manifest = record { providers = none; tools = none; mode = none }

unfoldable pub normalize_owner_intent : OwnerIntent → Result Error Normalized
unfolding require_non_empty_string normalize_allowed_paths at_least_one finite
normalize_owner_intent input = require_non_empty_string input.intent ▹ λ intent.
    require_non_empty_string input.acceptance_ref ▹ λ acceptance_ref.
    normalize_allowed_paths input.allowed_paths ▹ λ allowed_paths.
    finite (pos 100) input.priority ▹ λ priority.
    at_least_one 2 input.max_attempts ▹ λ max_attempts.
    at_least_one 1800000 input.max_runtime_ms ▹ λ max_runtime_ms. ok (record {
      terms = record {
        intent = intent;
        intent_version = 1;
        acceptance_ref = acceptance_ref;
        allowed_paths = allowed_paths;
        tool_manifest = normalize_tool_manifest (get_or input.tool_manifest no_manifest);
        review_required = get_or input.review_required true;
      };
      priority = priority;
      max_attempts = max_attempts;
      max_runtime_ms = max_runtime_ms;
      cost_budget_status = filled_or input.cost_budget_status (codes "UNKNOWN");
    })

abbrev pub draft_task : Normalized → ℕ → Option ℕ → ℕ → Task
draft_task n id logical time = record {
  task_id = id;
  logical_work_id = logical;
  line = record {
    terms = n.terms;
    max_attempts = n.max_attempts;
    max_runtime_ms = n.max_runtime_ms;
    cost_budget_status = n.cost_budget_status;
    proposal_id = none;
    content_hash = none;
  };
  status = TaskStatus.draft;
  priority = n.priority;
  locked_at = none;
  created_at = time;
  updated_at = time;
}

-- `input.task_id || newTaskId()`
unfoldable pub id_or_new : Option ℕ → Action ℕ
id_or_new none = new_id
id_or_new (some id) = pure id

unfoldable pub create_draft_task : OwnerIntent → Action Task
create_draft_task input = do
  n ← lift (normalize_owner_intent input)
  id ← id_or_new input.task_id
  time ← gets (λ s. s.now)
  task ← insert_task (draft_task n id input.logical_work_id time)
  append_event (some task.task_id) none EventType.task_created no_payload
  pure task

module _ (env : Runtime) where
  abbrev pub seal : ℕ → ℕ → ℕ → Task → Task
  seal proposal hash time t = record t {
    line = record t.line { proposal_id = some proposal; content_hash = some hash };
    status = TaskStatus.locked;
    locked_at = some time;
  }

  unfoldable pub lock_draft : Task → Action Task
  lock_draft task = do
    proposal ← new_id
    let hash = task_content_hash env task.task_id task.terms
    time ← gets (λ s. s.now)
    locked ← update_task task.task_id (seal proposal hash time)
    append_event (some locked.task_id) none EventType.task_locked (lock_record proposal hash)
    pure locked

  unfoldable pub lock_task : ℕ → Action Task
  lock_task id = do
    found ← get_task id
    task ← require_some found unknown_task
    if is_locked task.status
        then pure task
        else if is_draft task.status
        then lock_draft task
        else raise not_draft

  unfoldable pub create_and_lock_task : OwnerIntent → Action Task
  create_and_lock_task input = do draft ← create_draft_task input; lock_task draft.task_id

  -- `verifyTaskHash`
  unfoldable pub verify_task_hash : Task → Result Error Unit
  verify_task_hash t = elim t.content_hash [
    | none ↦ err not_locked
    | some hash ↦
        if is_some t.proposal_id
        then (if task_content_hash env t.task_id t.terms == hash then ok tt else err hash_mismatch)
        else err not_locked
  ]
