-- ===== src/Examples/Orchestrations.antt =====
-- An orchestration from the owner's words to a decision.
use jarvis_agencyos.Base.{ℕ, true, none, some, [], ◌∷◌, codes}
use jarvis_agencyos.Exec.{ok, ◌>>=◌, for_each}
use jarvis_agencyos.Builder.Contracts.{ReviewStatus, TaskStatus, as_input}
use jarvis_agencyos.Builder.Lock.{OwnerIntent, absent}
use jarvis_agencyos.Builder.Checks.{Report}
use jarvis_agencyos.Builder.Workers.{Answer}
use jarvis_agencyos.Builder.Review.Exact.{output}
use jarvis_agencyos.Builder.Orchestrator.{Cycle, Outcome, done, run_owner_software_task}
use jarvis_agencyos.Examples.Waits.{waiting, landing_host}
use jarvis_agencyos.Examples.Data.{sha, branch, finished, terms}
use jarvis_agencyos.Builder.Orchestrator.{run_owner_software_task}
use jarvis_agencyos.Exec.{for_each, ◌>>=◌}

abbrev intent : OwnerIntent
intent = record {
  task_id = none;
  logical_work_id = none;
  intent = some (codes "add a page");
  acceptance_ref = some (codes "page loads");
  allowed_paths = some (codes "src" ∷ []);
  tool_manifest = some (as_input terms.tool_manifest);
  review_required = some true;
  priority = absent;
  max_attempts = absent;
  max_runtime_ms = absent;
  cost_budget_status = none;
}

abbrev tested : Report
tested = record { name = none; passed = true }

abbrev answer : ℕ → Answer
answer id = ok (some (record finished { factory_run_id = some id }))

abbrev cycle : ℕ → Cycle
cycle left = record {
  launch = answer;
  polls = 3;
  answers = answer;
  collect = answer 2;
  landing = record { branch = some branch; commit_sha = some sha; pr_number = none; pr_url = none };
  surround = record {
    host = some landing_host;
    waiting = λ n. waiting;
    tests = some tested;
    build = some tested;
  };
  invoker = some (ok (output (some ReviewStatus.pass)));
}

abbrev outcome : Outcome
outcome = record {
  decision = done;
  task_status = TaskStatus.accepted;
  last = record { factory_run_id = some 2; candidate_id = some 3; commit_sha = some sha };
}
