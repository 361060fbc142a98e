-- ===== src/Examples/Recoveries.antt =====
-- Reconciliations after a restart.
use jarvis_agencyos.Base.{◌≡◌, refl, true, false, none, some, [], ◌∷◌, ltb, length, All}
use jarvis_agencyos.Exec.{ok, for_each, ◌>>=◌}
use jarvis_agencyos.Builder.Contracts.{normalize_tool_manifest, task_content_hash}
use jarvis_agencyos.Builder.State.{Builder, recovered}
use jarvis_agencyos.Builder.Store.{
  list_runs_for_task, list_active_runs, list_candidates_for_task, list_approvals_for_task,
  list_tasks, append_event,
}
use jarvis_agencyos.Builder.Lock.{verify_task_hash}
use jarvis_agencyos.Builder.Runs.{set_current, drop_current}
use jarvis_agencyos.Builder.Runs.Exclusive.{active}
use jarvis_agencyos.Builder.Tools.{get_allowed_tool_manifest}
use jarvis_agencyos.Builder.CiWait.{detect_awaiting_ci, newest_first}
use jarvis_agencyos.Builder.Leases.Insertion.{active_of}
use jarvis_agencyos.Builder.Recovery.{
  Reconciled, task_recovered, nonterminal, current_candidate_for_task, choose_candidate,
  current_approval_for_task, choose_approval, referred, settle_snapshot, snapshot_rows,
  build_task_recovery_snapshot, build_snapshots, note_recovery, fence_runs, conclude,
  provider_status_of, reconcile_after_restart, assert_no_duplicate_launch_after_recovery,
}
use jarvis_agencyos.Builder.Recovery.Pointer.{reconcile_after_restart-pointer}
use jarvis_agencyos.Builder.Recovery.Rows.{reconcile_after_restart-rows}
use jarvis_agencyos.Builder.Recovery.Verdict.{reconcile_after_restart-recovered}
use jarvis_agencyos.Examples.Data.{runtime, task, run, board}

abbrev running_board : Builder
running_board = board (run ∷ [])

reconcile_after_restart-pointer_example :
    (r : Reconciled) × ((reconcile_after_restart runtime none running_board).0 ≡ ok r)
    × ((reconcile_after_restart runtime none running_board).1.current ≡ some 2)
    × (ltb 1 (length (active running_board.runs)) ≡ false
        → let s' = (reconcile_after_restart runtime none running_board).1 in
          assert_no_duplicate_launch_after_recovery s' ≡ (ok true, s'))
reconcile_after_restart-pointer_example =
    reconcile_after_restart-pointer runtime none running_board (refl, tt)

reconcile_after_restart-rows_example :
    let s' = (reconcile_after_restart runtime none running_board).1 in
    s' ≡ record running_board { events = s'.events; current = s'.current; recovery = s'.recovery }
reconcile_after_restart-rows_example = reconcile_after_restart-rows runtime none running_board

abbrev reconciled : Reconciled
reconciled = record {
  note = recovered (some 2);
  provider_status = none;
  snapshots =
      task_recovered (record {
        task = task;
        allowed_tool_manifest = task.tool_manifest;
        active_run = some run;
        runs = run ∷ [];
        candidate = none;
        verification = none;
        verification_authoritative = false;
        review = none;
        review_authoritative = false;
        approval = none;
        awaiting_ci = false;
        attempts = 1;
      })
      ∷ [];
  active_runs = [];
}

reconciles : (reconcile_after_restart runtime none running_board).0 ≡ ok reconciled
unfolding reconcile_after_restart list_active_runs set_current provider_status_of list_tasks
    build_snapshots build_task_recovery_snapshot verify_task_hash task_content_hash
    list_runs_for_task snapshot_rows current_candidate_for_task list_candidates_for_task
    choose_candidate referred current_approval_for_task list_approvals_for_task choose_approval
    settle_snapshot detect_awaiting_ci newest_first get_allowed_tool_manifest
    normalize_tool_manifest fence_runs drop_current conclude note_recovery append_event for_each
    ◌>>=◌
reconciles = refl

reconcile_after_restart-recovered_example :
    All
      (λ t.
        (verify_task_hash runtime t ≡ ok tt)
        × (ltb 1 (length (active_of t.task_id running_board)) ≡ false))
      (nonterminal running_board.tasks)
reconcile_after_restart-recovered_example =
    reconcile_after_restart-recovered runtime none running_board reconciled (some 2) reconciles refl
