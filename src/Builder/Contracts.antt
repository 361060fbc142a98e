-- ===== src/Builder/Contracts.antt =====
-- Builder Core's enums and the lock payload (src/builder/contracts.js, src/builder/worker-provider.js).
use jarvis_agencyos.Base.{
  ℕ, Bool, true, false, Option, none, some, List, Text, codes, sort_texts, get_or,
}
use jarvis_agencyos.Json.{Json, bool, num, str, arr, obj, end, field, texts, canonical_json}

pub data TaskStatus : Type 0 where
  draft locked running awaiting_approval verified accepted blocked needs_owner failed cancelled :
      TaskStatus

pub data RunStatus : Type 0 where
  pending launched running succeeded failed cancelled stale : RunStatus

pub data ApprovalStatus : Type 0 where
  pending approved rejected invalidated consumed : ApprovalStatus

pub data CandidateStatus : Type 0 where
  proposed verifying verified rejected superseded : CandidateStatus

pub data FailureClass : Type 0 where
  worker_crash test_fail ci_fail timeout cost_cap attempt_cap provider_error stale_run
        acceptance_tamper policy_violation unknown :
      FailureClass

pub data EventType : Type 0 where
  task_created task_locked task_status_changed run_created run_status_changed worker_launched
        worker_status worker_cancelled worker_collected stale_run_rejected candidate_recorded
        verification_recorded verification_invalidated review_recorded review_invalidated
        review_bypassed retry_started retry_denied retry_exhausted approval_recorded
        approval_invalidated tool_denied research_recorded recovery_reconciled recovery_blocked
        orchestration_started orchestration_decided ci_wait_started ci_wait_progress
        ci_wait_finished ci_wait_invalidated :
      EventType

pub data VerificationResult : Type 0 where
  pass fail blocked : VerificationResult

pub data ReviewStatus : Type 0 where
  pass request_changes blocked : ReviewStatus

pub data ProviderStatus : Type 0 where
  creating launched running finished error cancelled expired timeout unknown : ProviderStatus

-- `ACTIVE_RUN_STATUSES.includes(status)`
abbrev pub is_active : RunStatus → Bool
is_active pending = true
is_active launched = true
is_active running = true
is_active _ = false

abbrev pub is_draft : TaskStatus → Bool
is_draft draft = true
is_draft _ = false

abbrev pub is_locked : TaskStatus → Bool
is_locked locked = true
is_locked _ = false

abbrev pub is_running_task : TaskStatus → Bool
is_running_task running = true
is_running_task _ = false

abbrev pub is_pending : RunStatus → Bool
is_pending pending = true
is_pending _ = false

-- `status === STALE || status === CANCELLED`
abbrev pub is_fenced : RunStatus → Bool
is_fenced stale = true
is_fenced cancelled = true
is_fenced _ = false

abbrev pub is_stale : RunStatus → Bool
is_stale stale = true
is_stale _ = false

-- A tool manifest as an owner writes it: `none` for what is not an array, or for a mode left out.
pub record ManifestInput : Type 0 where
  pub providers : Option (List Text)
  pub tools : Option (List Text)
  pub mode : Option Text

pub record Manifest : Type 0 where
  pub providers : List Text
  pub tools : List Text
  pub mode : Text

abbrev sorted_or_empty : Option (List Text) → List Text
sorted_or_empty none = List.[]
sorted_or_empty (some ts) = sort_texts ts

unfoldable pub normalize_tool_manifest : ManifestInput → Manifest
normalize_tool_manifest m = record {
  providers = sorted_or_empty m.providers;
  tools = sorted_or_empty m.tools;
  mode = get_or m.mode (codes "build");
}

-- A manifest that is normalized once more.
abbrev pub as_input : Manifest → ManifestInput
as_input m = record { providers = some m.providers; tools = some m.tools; mode = some m.mode }

-- The terms of a task that its lock binds.
pub record Terms : Type 0 where
  pub intent : Text
  pub intent_version : ℕ
  pub acceptance_ref : Text
  pub allowed_paths : List Text
  pub tool_manifest : Manifest
  pub review_required : Bool

-- What the runtime gives: the digest of `node:crypto`, and the text of an identifier. Identifiers,
-- digests and times are numbers here, since the program only compares them.
pub record Runtime : Type 0 where
  pub sha256 : Text → ℕ
  pub id_text : ℕ → Text

abbrev manifest_json : Manifest → Json
manifest_json m = obj (
    field (codes "providers") (arr (texts m.providers))
      (field (codes "tools") (arr (texts m.tools)) (field (codes "mode") (str m.mode) end)))

unfoldable pub build_task_lock_payload : Text → Terms → Json
unfolding normalize_tool_manifest
build_task_lock_payload task_id t = obj (
    field (codes "task_id") (str task_id) (
      field (codes "intent") (str t.intent) (
        field (codes "intent_version") (num t.intent_version) (
          field (codes "acceptance_ref") (str t.acceptance_ref) (
            field (codes "allowed_paths") (arr (texts (sort_texts t.allowed_paths))) (
              field (codes "tool_manifest")
                (manifest_json (normalize_tool_manifest (as_input t.tool_manifest)))
                (field (codes "review_required") (bool t.review_required) end)))))))

-- `taskContentHash(buildTaskLockPayload(task))`
unfoldable pub task_content_hash : Runtime → ℕ → Terms → ℕ
unfolding build_task_lock_payload canonical_json
task_content_hash env task_id t =
    env.sha256 (canonical_json (build_task_lock_payload (env.id_text task_id) t))
