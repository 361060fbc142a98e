-- ===== src/Builder/Patch.antt =====
-- Patches of a task, and the guard of the locked finish line (`assertTaskMutable`,
-- src/builder/task-lock.js; `attemptMutateLockedTask`, src/builder/core.js).
use jarvis_agencyos.Base.{
  ℕ, ℤ, Bool, true, false, ◌&&◌, Option, none, some, List, [], ◌∷◌, Text, ◌==◌, if◌then◌else◌,
  same_id, get_or, text_eq,
}
use jarvis_agencyos.Exec.{Result, ok, err, lift, require_some, ◌>>=◌, ◌>>◌}
use jarvis_agencyos.Builder.Contracts.{TaskStatus, Manifest, is_draft}
use jarvis_agencyos.Builder.State.{Task, FinishLine, Action, Error, unknown_task, immutable_field}
use jarvis_agencyos.Builder.Store.{get_task, update_task}

-- The keys of a patch that are columns of a task; `none` is a key that is not there.
pub record TaskPatch : Type 0 where
  pub logical_work_id : Option (Option ℕ)
  pub intent : Option Text
  pub intent_version : Option ℕ
  pub acceptance_ref : Option Text
  pub allowed_paths : Option (List Text)
  pub tool_manifest : Option Manifest
  pub review_required : Option Bool
  pub max_attempts : Option ℕ
  pub max_runtime_ms : Option ℕ
  pub cost_budget_status : Option Text
  pub proposal_id : Option (Option ℕ)
  pub content_hash : Option (Option ℕ)
  pub status : Option TaskStatus
  pub priority : Option ℤ
  pub locked_at : Option (Option ℕ)

abbrev pub no_patch : TaskPatch
no_patch = record {
  logical_work_id = none;
  intent = none;
  intent_version = none;
  acceptance_ref = none;
  allowed_paths = none;
  tool_manifest = none;
  review_required = none;
  max_attempts = none;
  max_runtime_ms = none;
  cost_budget_status = none;
  proposal_id = none;
  content_hash = none;
  status = none;
  priority = none;
  locked_at = none;
}

unfoldable pub patch_line : TaskPatch → FinishLine → FinishLine
patch_line p l = record {
  terms = record {
    intent = get_or p.intent l.intent;
    intent_version = get_or p.intent_version l.intent_version;
    acceptance_ref = get_or p.acceptance_ref l.acceptance_ref;
    allowed_paths = get_or p.allowed_paths l.allowed_paths;
    tool_manifest = get_or p.tool_manifest l.tool_manifest;
    review_required = get_or p.review_required l.review_required;
  };
  max_attempts = get_or p.max_attempts l.max_attempts;
  max_runtime_ms = get_or p.max_runtime_ms l.max_runtime_ms;
  cost_budget_status = get_or p.cost_budget_status l.cost_budget_status;
  proposal_id = get_or p.proposal_id l.proposal_id;
  content_hash = get_or p.content_hash l.content_hash;
}

-- `{ ...task, ...patch }`
unfoldable pub apply_patch : TaskPatch → Task → Task
apply_patch p t = record t {
  logical_work_id = get_or p.logical_work_id t.logical_work_id;
  line = patch_line p t.line;
  status = get_or p.status t.status;
  priority = get_or p.priority t.priority;
  locked_at = get_or p.locked_at t.locked_at;
}

unfoldable pub texts_eq : List Text → List Text → Bool
texts_eq [] [] = true
texts_eq [] (u ∷ us) = false
texts_eq (t ∷ ts) [] = false
texts_eq (t ∷ ts) (u ∷ us) = text_eq t u && texts_eq ts us

-- Equality of the two JSON texts.
unfoldable pub manifest_eq : Manifest → Manifest → Bool
unfolding texts_eq
manifest_eq m n =
    texts_eq m.providers n.providers && texts_eq m.tools n.tools && text_eq m.mode n.mode

abbrev pub bool_eq : Bool → Bool → Bool
bool_eq true b = b
bool_eq false true = false
bool_eq false false = true

-- A key that is not in the patch changes nothing.
abbrev pub unchanged : {A : Type 0} → (A → A → Bool) → Option A → A → Bool
unchanged eq none old = true
unchanged eq (some new) old = eq old new

-- No key of `IMMUTABLE_WHEN_LOCKED` is given a value other than the present one.
unfoldable pub line_unchanged : TaskPatch → FinishLine → Bool
line_unchanged p l =
    unchanged text_eq p.intent l.intent
    && unchanged ◌==◌ p.intent_version l.intent_version
    && unchanged text_eq p.acceptance_ref l.acceptance_ref
    && unchanged texts_eq p.allowed_paths l.allowed_paths
    && unchanged manifest_eq p.tool_manifest l.tool_manifest
    && unchanged bool_eq p.review_required l.review_required
    && unchanged ◌==◌ p.max_attempts l.max_attempts
    && unchanged ◌==◌ p.max_runtime_ms l.max_runtime_ms
    && unchanged text_eq p.cost_budget_status l.cost_budget_status
    && unchanged same_id p.proposal_id l.proposal_id
    && unchanged same_id p.content_hash l.content_hash

-- `assertTaskMutable`; every status but DRAFT is LOCKED or a later one.
unfoldable pub assert_task_mutable : Task → TaskPatch → Result Error Unit
assert_task_mutable task patch =
    if is_draft task.status
    then ok tt
    else if line_unchanged patch task.line
    then ok tt
    else err immutable_field

unfoldable pub attempt_mutate_locked_task : ℕ → TaskPatch → Action Task
attempt_mutate_locked_task id patch = do
  found ← get_task id
  task ← require_some found unknown_task
  lift (assert_task_mutable task patch)
  update_task id (apply_patch patch)
