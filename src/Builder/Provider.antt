-- ===== src/Builder/Provider.antt =====
-- The worker-provider seam (src/builder/worker-provider.js) and what Builder Core does with a
-- provider's answer (src/builder/core.js).
use jarvis_agencyos.Base.{
  ℕ, Bool, not, ◌||◌, Option, none, some, Text, ◌==◌, if◌then◌else◌, or_else,
}
use jarvis_agencyos.Exec.{
  Result, ok, err, pure, lift, gets, require_some, require, when, ◌>>=◌, ◌>>◌,
}
use jarvis_agencyos.Builder.Contracts.{
  RunStatus, FailureClass, EventType, ProviderStatus, is_active, is_fenced,
}
use jarvis_agencyos.Builder.State.{
  Run, Action, Error, provider_record, unknown_run, factory_run_mismatch, invalid_result,
  provider_authority_violation,
}
use jarvis_agencyos.Builder.Store.{get_run, update_run, append_event}
use jarvis_agencyos.Builder.Runs.{get_current_coding_run, drop_current, reject_stale, is_other}

-- What a provider hands back: a key left out, or of another type, is `none`. `claims_task` says that
-- the object has a key `task_status` or `task_done`.
pub record PartialResult : Type 0 where
  pub factory_run_id : Option ℕ
  pub provider : Option Text
  pub provider_run_id : Option ℕ
  pub provider_agent_id : Option ℕ
  pub provider_status : Option ProviderStatus
  pub claims_task : Bool
  pub task_accepted : Bool

pub record ProviderResult : Type 0 where
  pub factory_run_id : ℕ
  pub provider : Text
  pub provider_run_id : Option ℕ
  pub provider_agent_id : Option ℕ
  pub provider_status : ProviderStatus

-- The parts that must be there.
abbrev complete :
    PartialResult → Option ℕ → Option Text → Option ProviderStatus → Result Error ProviderResult
complete p (some id) (some provider) (some status) =
    if p.claims_task || p.task_accepted
    then err provider_authority_violation
    else ok (record {
      factory_run_id = id;
      provider = provider;
      provider_run_id = p.provider_run_id;
      provider_agent_id = p.provider_agent_id;
      provider_status = status;
    })
complete p _ _ _ = err invalid_result

-- `normalizeProviderResult`
unfoldable pub normalize_provider_result : Option PartialResult → Result Error ProviderResult
normalize_provider_result none = err invalid_result
normalize_provider_result (some p) = complete p p.factory_run_id p.provider p.provider_status

-- `mapProviderStatusToRunStatus`
unfoldable pub map_provider_status : ProviderStatus → RunStatus
map_provider_status ProviderStatus.creating = RunStatus.launched
map_provider_status ProviderStatus.launched = RunStatus.launched
map_provider_status ProviderStatus.running = RunStatus.running
map_provider_status ProviderStatus.finished = RunStatus.succeeded
map_provider_status ProviderStatus.error = RunStatus.failed
map_provider_status ProviderStatus.timeout = RunStatus.failed
map_provider_status ProviderStatus.expired = RunStatus.failed
map_provider_status ProviderStatus.cancelled = RunStatus.cancelled
map_provider_status ProviderStatus.unknown = RunStatus.running

abbrev pub observed_failure : ProviderStatus → Option FailureClass → Option FailureClass
observed_failure ProviderStatus.timeout old = some FailureClass.timeout
observed_failure ProviderStatus.error old = some FailureClass.provider_error
observed_failure _ old = old

-- The status that a run takes when its provider is observed; CANCELLED and STALE stick.
abbrev pub next_status : Run → ProviderResult → RunStatus
next_status run result =
    if is_fenced run.status then run.status else map_provider_status result.provider_status

-- `_applyProviderObservation`, on the run as it was read before the provider was asked.
unfoldable pub apply_provider_observation : Run → ProviderResult → EventType → Action Run
apply_provider_observation run result event_type = do
  require (result.factory_run_id == run.factory_run_id) factory_run_mismatch
  time ← gets (λ s. s.now)
  let status = next_status run result
  updated ← update_run run.factory_run_id (λ r. record r {
    provider_run_id = or_else result.provider_run_id run.provider_run_id;
    provider_agent_id = or_else result.provider_agent_id run.provider_agent_id;
    status = status;
    ended_at = if is_active status then none else or_else run.ended_at (some time);
    failure_class =
        if is_fenced run.status
        then run.failure_class
        else observed_failure result.provider_status run.failure_class;
  })
  when (not (is_active updated.status)) (drop_current run.factory_run_id)
  append_event (some run.task_id) (some run.factory_run_id) event_type
      (provider_record result.provider_status updated.status)
  pure updated

-- `applyProviderResult`
unfoldable pub apply_provider_result : ℕ → Option PartialResult → Action Run
apply_provider_result id answer = do
  found ← get_run id
  run ← require_some found unknown_run
  if is_fenced run.status then reject_stale run none else do
    current ← get_current_coding_run
    if is_other id current then reject_stale run current else do
      result ← lift (normalize_provider_result answer)
      apply_provider_observation run result EventType.worker_status
