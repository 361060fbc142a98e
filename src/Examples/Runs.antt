-- ===== src/Examples/Runs.antt =====
-- Runs: launches, observations, repairs and tools.
use jarvis_agencyos.Base.{
  inl, ◌≡◌, refl, ◌≤◌, ◌<◌, Bool, true, false, none, some, [], ◌∷◌, ◌++◌, Text, codes, arith,
  length, has_text,
}
use jarvis_agencyos.Exec.{ok, ◌>>=◌}
use jarvis_agencyos.Json.{Json, null, str, obj, end, field}
use jarvis_agencyos.Builder.Contracts.{
  FailureClass, ProviderStatus, normalize_tool_manifest, task_content_hash,
}
use jarvis_agencyos.Builder.State.{Builder, Run}
use jarvis_agencyos.Builder.Store.{
  find_run, new_id, get_task, list_runs_for_task, list_active_runs, insert_run, update_task,
  append_event,
}
use jarvis_agencyos.Builder.Lock.{verify_task_hash}
use jarvis_agencyos.Builder.Runs.{
  set_current, update_task_status, create_run, pending_run, adopt, get_current_coding_run,
}
use jarvis_agencyos.Builder.Runs.Exclusive.{active, launch_steps-active}
use jarvis_agencyos.Builder.Runs.Keys.{Keyed, attempts_of}
use jarvis_agencyos.Builder.Provider.{
  ProviderResult, apply_provider_result, normalize_provider_result, next_status,
}
use jarvis_agencyos.Builder.Workers.{launch_check, launch_create, refresh_settle}
use jarvis_agencyos.Builder.Workers.Fencing.{apply_provider_result-fenced, refresh_settle-row}
use jarvis_agencyos.Builder.Retry.{
  end_run, is_non_retryable, elapsed_runtime_ms, allowed, close_current, start_attempt,
  begin_repair_attempt,
}
use jarvis_agencyos.Builder.Retry.Bounds.{runs_of, begin_repair_attempt-allowed}
use jarvis_agencyos.Builder.Retry.Second.{begin_repair_attempt-second}
use jarvis_agencyos.Builder.Retry.Cap.{begin_repair_attempt-cap}
use jarvis_agencyos.Builder.Tools.{
  get_allowed_tool_manifest, Resolved, resolve_permitted_provider, collect_forbidden, collect_items,
  collect_fields, research_forbidden_authority_keys, assert_research_cannot_mutate_authority,
  is_forbidden_key,
}
use jarvis_agencyos.Builder.Tools.Policy.{
  IsResolved, resolve_permitted_provider-ok, in_object, this_key, assert_research-seen, nest,
  assert_research-nest,
}
use jarvis_agencyos.Examples.Data.{
  runtime, task, run, cancelled_run, failed_run, locked_board, board, cursor, backup, finished,
}

abbrev fresh_run : Run
fresh_run = pending_run 30 1 cursor none none 1 9

checked : (launch_check runtime (some cursor) locked_board).0 ≡ ok cursor
unfolding launch_check get_current_coding_run list_active_runs adopt set_current ◌>>=◌
checked = refl

-- Another launch for the same provider has its run when this one creates its own.
abbrev overlapped : Builder
overlapped = record (board (record run { attempt = 7 } ∷ [])) { next_id = 30 }

abbrev joined_run : Run
joined_run = pending_run 30 1 cursor none none 2 9

created : (launch_create runtime cursor 1 overlapped).0 ≡ ok joined_run
unfolding launch_create create_run get_task verify_task_hash task_content_hash list_runs_for_task
    new_id insert_run append_event ◌>>=◌
created = refl

launch_steps-active_example :
    (active locked_board.runs ≡ [])
    × (active (launch_check runtime (some cursor) locked_board).1.runs ≡ [])
    × (active (launch_create runtime cursor 1 overlapped).1.runs
        ≡ record run { attempt = 7 } ∷ joined_run ∷ [])
launch_steps-active_example =
    launch_steps-active runtime (some cursor) 1 locked_board overlapped cursor joined_run checked
      created

apply_provider_result-fenced_example :
    find_run 2 (apply_provider_result 2 (some finished) (board (cancelled_run ∷ []))).1.runs
    ≡ some cancelled_run
apply_provider_result-fenced_example =
    apply_provider_result-fenced (board (cancelled_run ∷ [])) 2 2 cancelled_run (some finished) refl
      (inl refl)

abbrev result : ProviderResult
result = record {
  factory_run_id = 2;
  provider = cursor;
  provider_run_id = some 20;
  provider_agent_id = some 21;
  provider_status = ProviderStatus.finished;
}

normal : normalize_provider_result (some finished) ≡ ok result
unfolding normalize_provider_result
normal = refl

-- The row was read before the run was cancelled, and the answer arrives afterwards.
refresh_settle-row_example :
    (v : Run) × ((refresh_settle run (ok (some finished)) (board (cancelled_run ∷ []))).0 ≡ ok v)
    × (find_run 2 (refresh_settle run (ok (some finished)) (board (cancelled_run ∷ []))).1.runs
        ≡ some v)
    × (v.status ≡ next_status run result)
refresh_settle-row_example =
    refresh_settle-row (board (cancelled_run ∷ [])) run cancelled_run finished result refl normal
      refl

abbrev second_run : Run
second_run = pending_run 30 1 cursor none none 2 9

repaired :
    (begin_repair_attempt runtime 1 FailureClass.ci_fail cursor (board (failed_run ∷ []))).0
    ≡ ok (allowed second_run 1)
unfolding begin_repair_attempt get_task list_runs_for_task elapsed_runtime_ms start_attempt
    close_current get_current_coding_run adopt list_active_runs set_current create_run
    verify_task_hash task_content_hash new_id insert_run append_event update_task_status update_task
    ◌>>=◌
repaired = refl

begin_repair_attempt-allowed_example :
    (is_non_retryable FailureClass.ci_fail ≡ false)
    × (length (runs_of 1 (board (failed_run ∷ []))) < 2)
    × (elapsed_runtime_ms 9 (runs_of 1 (board (failed_run ∷ []))) < 1000)
begin_repair_attempt-allowed_example =
    begin_repair_attempt-allowed runtime (board (failed_run ∷ [])) 1 FailureClass.ci_fail cursor
      task second_run 1 refl repaired

begin_repair_attempt-cap_example :
    Keyed
      (begin_repair_attempt runtime 1 FailureClass.ci_fail cursor (board (failed_run ∷ []))).1.runs
    × (attempts_of 1
          (begin_repair_attempt runtime 1 FailureClass.ci_fail cursor
            (board (failed_run ∷ []))).1.runs
        ≤ 2)
begin_repair_attempt-cap_example =
    begin_repair_attempt-cap runtime (board (failed_run ∷ [])) 1 FailureClass.ci_fail cursor task
      refl (refl, tt) (omega arith)

abbrev fallback : Resolved
fallback = record { provider = backup; fallback = true }

-- The provider asked for is down.
abbrev only_backup : Text → Bool
only_backup p = has_text p (backup ∷ [])

resolved : resolve_permitted_provider task (some cursor) only_backup ≡ ok fallback
unfolding resolve_permitted_provider get_allowed_tool_manifest normalize_tool_manifest
resolved = refl

resolve_permitted_provider-ok_example : IsResolved task cursor only_backup fallback
resolve_permitted_provider-ok_example =
    resolve_permitted_provider-ok task cursor only_backup fallback resolved

abbrev found : Json
found = obj (field (codes "title") (str (codes "a page")) end)

harmless : assert_research_cannot_mutate_authority found ≡ ok tt
unfolding assert_research_cannot_mutate_authority collect_forbidden collect_items collect_fields
    research_forbidden_authority_keys
harmless = refl

assert_research-seen_example : is_forbidden_key (codes "title") ≡ false
assert_research-seen_example =
    assert_research-seen found (codes "title") harmless (in_object this_key)

abbrev grant : Json
grant = obj (field (codes "grant_approval") null end)

assert_research-nest_example : assert_research_cannot_mutate_authority (nest 7 grant) ≡ ok tt
assert_research-nest_example = assert_research-nest grant

-- Another task's run is the current one.
abbrev other_run : Run
other_run = record run { task_id = 9 }

abbrev busy_board : Builder
busy_board = record (board (other_run ∷ [])) { current = some 2 }

repaired_beside :
    (begin_repair_attempt runtime 1 FailureClass.ci_fail cursor busy_board).0
    ≡ ok (allowed fresh_run 0)
unfolding begin_repair_attempt get_task list_runs_for_task elapsed_runtime_ms start_attempt
    close_current end_run get_current_coding_run adopt list_active_runs set_current create_run
    verify_task_hash task_content_hash new_id insert_run append_event update_task_status update_task
    ◌>>=◌
repaired_beside = refl

begin_repair_attempt-second_example :
    active (begin_repair_attempt runtime 1 FailureClass.ci_fail cursor busy_board).1.runs
    ≡ active (other_run ∷ []) ++ (fresh_run ∷ [])
begin_repair_attempt-second_example =
    begin_repair_attempt-second runtime busy_board 1 FailureClass.ci_fail cursor task other_run
      fresh_run 0 refl refl refl repaired_beside
