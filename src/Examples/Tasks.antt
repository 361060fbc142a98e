-- ===== src/Examples/Tasks.antt =====
-- Tasks: locks, patches, histories, and the texts that are hashed.
use jarvis_agencyos.Base.{◌≡◌, refl, false, some, List, [], ◌∷◌, codes, arith}
use jarvis_agencyos.Exec.{ok, ◌>>=◌}
use jarvis_agencyos.Json.{Json, num, obj, end, field, canonical_json}
use jarvis_agencyos.Json.Canonical.{objects, swaps, canonical_json-SameValue}
use jarvis_agencyos.Builder.Contracts.{TaskStatus}
use jarvis_agencyos.Builder.State.{Task}
use jarvis_agencyos.Builder.Store.{find_task, get_task, update_task}
use jarvis_agencyos.Builder.Lock.{lock_task, verify_task_hash}
use jarvis_agencyos.Builder.Lock.Binding.{lock_task-draft}
use jarvis_agencyos.Builder.Lock.Reopen.{rewriting, rewrite_locked}
use jarvis_agencyos.Builder.Patch.{
  patch_line, apply_patch, line_unchanged, assert_task_mutable, attempt_mutate_locked_task,
  no_patch,
}
use jarvis_agencyos.Builder.Calls.{Call, lock, set_status, mutate, perform, run_calls}
use jarvis_agencyos.Builder.FinishLine.{locked_line}
use jarvis_agencyos.Builder.FinishLine.History.{locked_line-run_calls}
use jarvis_agencyos.Builder.Acceptance.{Unaccepted-run_calls}
use jarvis_agencyos.Builder.Verifier.{is_accepted}
use jarvis_agencyos.Examples.Data.{
  runtime, line, task, draft, locked_board, draft_board, new_intent, terms,
}

abbrev calls : List Call
calls = lock 1 ∷ mutate 1 new_intent ∷ set_status 1 TaskStatus.running ∷ []

locked_line-run_calls_example :
    locked_line 1 (run_calls runtime locked_board calls).tasks ≡ some line
locked_line-run_calls_example = locked_line-run_calls runtime locked_board calls refl 1 line refl

abbrev raised : Task
raised = record task { status = TaskStatus.blocked; updated_at = 9 }

abbrev blocking : Call
blocking = mutate 1 (record no_patch { status = some TaskStatus.blocked })

blocked_row : find_task 1 (run_calls runtime locked_board (blocking ∷ [])).tasks ≡ some raised
unfolding run_calls perform attempt_mutate_locked_task assert_task_mutable line_unchanged patch_line
    apply_patch get_task update_task ◌>>=◌
blocked_row = refl

Unaccepted-run_calls_example : is_accepted raised.status ≡ false
Unaccepted-run_calls_example =
    Unaccepted-run_calls runtime locked_board (blocking ∷ []) 1 refl refl ((λ e. refl), tt) raised
      blocked_row

lock_task-draft_example :
    (u : Task) × ((lock_task runtime 1 draft_board).0 ≡ ok u)
    × (find_task 1 (lock_task runtime 1 draft_board).1.tasks ≡ some u)
    × (verify_task_hash runtime u ≡ ok tt)
    × (u.terms ≡ terms)
    × (u.status ≡ TaskStatus.locked)
lock_task-draft_example =
    lock_task-draft runtime draft_board 1 draft refl refl (omega arith) (omega arith)

rewrite_locked_example :
    (u : Task) × (find_task 1 (run_calls runtime locked_board (rewriting 1 new_intent)).tasks
      ≡ some u)
    × (verify_task_hash runtime u ≡ ok tt)
    × (u.terms ≡ (patch_line new_intent line).terms)
    × (u.status ≡ TaskStatus.locked)
unfolding patch_line
rewrite_locked_example =
    rewrite_locked runtime locked_board 1 task new_intent refl (omega arith) (omega arith) refl
      (omega arith) (omega arith)

abbrev b_first : Json
b_first = obj (field (codes "b") (num 1) (field (codes "a") (num 2) end))

abbrev a_first : Json
a_first = obj (field (codes "a") (num 2) (field (codes "b") (num 1) end))

canonical_json-SameValue_example : canonical_json b_first ≡ canonical_json a_first
canonical_json-SameValue_example =
    canonical_json-SameValue b_first a_first
      (objects (swaps (codes "b") (codes "a") (num 1) (num 2) end refl))
