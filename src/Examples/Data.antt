-- ===== src/Examples/Data.antt =====
-- The inputs of the examples.
use jarvis_agencyos.Base.{pos, true, false, none, some, List, [], ◌∷◌, Text, codes}
use jarvis_agencyos.Exec.{ok}
use jarvis_agencyos.Builder.Contracts.{
  TaskStatus, RunStatus, CandidateStatus, Terms, Runtime, ProviderStatus,
}
use jarvis_agencyos.Builder.State.{Task, FinishLine, Run, Candidate, Builder, empty}
use jarvis_agencyos.Builder.Patch.{TaskPatch, no_patch}
use jarvis_agencyos.Builder.Provider.{PartialResult}
use jarvis_agencyos.Builder.Checks.{PullRequest, CiSummary, GithubClient, Landing}
use jarvis_agencyos.Builder.Verifier.{Surroundings}

-- A digest that takes every text to one number.
abbrev pub runtime : Runtime
runtime = record { sha256 = λ t. 7; id_text = λ n. codes "id" }

abbrev pub cursor : Text
cursor = codes "cursor"

abbrev pub backup : Text
backup = codes "backup"

abbrev pub terms : Terms
terms = record {
  intent = codes "add a page";
  intent_version = 1;
  acceptance_ref = codes "page loads";
  allowed_paths = codes "src" ∷ [];
  tool_manifest = record { providers = backup ∷ cursor ∷ []; tools = []; mode = codes "build" };
  review_required = true;
}

abbrev pub line : FinishLine
line = record {
  terms = terms;
  max_attempts = 2;
  max_runtime_ms = 1000;
  cost_budget_status = codes "UNKNOWN";
  proposal_id = some 3;
  content_hash = some 7;
}

abbrev pub task : Task
task = record {
  task_id = 1;
  logical_work_id = none;
  line = line;
  status = TaskStatus.locked;
  priority = pos 100;
  locked_at = some 5;
  created_at = 4;
  updated_at = 5;
}

abbrev pub draft : Task
draft = record task {
  line = record line { proposal_id = none; content_hash = none };
  status = TaskStatus.draft;
  locked_at = none;
}

abbrev pub run : Run
run = record {
  factory_run_id = 2;
  task_id = 1;
  provider = cursor;
  provider_run_id = some 20;
  provider_agent_id = some 21;
  attempt = 1;
  status = RunStatus.running;
  started_at = some 6;
  ended_at = none;
  failure_class = none;
  created_at = 6;
}

abbrev pub cancelled_run : Run
cancelled_run = record run { status = RunStatus.cancelled; ended_at = some 8 }

abbrev pub failed_run : Run
failed_run = record run { status = RunStatus.failed; ended_at = some 8 }

abbrev pub locked_board : Builder
locked_board = record empty { tasks = task ∷ []; next_id = 30; now = 9 }

abbrev pub draft_board : Builder
draft_board = record empty { tasks = draft ∷ []; next_id = 30; now = 9 }

abbrev pub board : List Run → Builder
board runs = record locked_board { runs = runs }

-- What a provider answers when the work is done.
abbrev pub finished : PartialResult
finished = record {
  factory_run_id = some 2;
  provider = some cursor;
  provider_run_id = some 20;
  provider_agent_id = some 21;
  provider_status = some ProviderStatus.finished;
  claims_task = false;
  task_accepted = false;
}

abbrev pub new_intent : TaskPatch
new_intent = record no_patch { intent = some (codes "add two pages") }

abbrev pub sha : Text
sha = codes "aaaaaaaaaabbbbbbbbbbccccccccccdddddddddd"

abbrev pub branch : Text
branch = codes "work"

abbrev pub candidate : Candidate
candidate = record {
  candidate_id = 4;
  task_id = 1;
  factory_run_id = 2;
  provider_run_id = some 20;
  branch = some branch;
  commit_sha = some sha;
  pr_number = none;
  pr_url = none;
  verification_ref = none;
  review_ref = none;
  ci_status = none;
  ci_conclusion = none;
  evidence_at = none;
  status = CandidateStatus.proposed;
  created_at = 8;
}

abbrev pub pull_request : PullRequest
pull_request = record { number = 12; html_url = codes "url"; head_sha = sha; head_ref = branch }

abbrev pub summary : CiSummary
summary = record {
  ci_status = codes "completed";
  ci_conclusion = some (codes "success");
  captured_at = 9;
}

-- A host on which the commit is the head of one pull request, with CI that succeeded.
abbrev pub host : GithubClient
host = record {
  get_commit = λ t. ok t;
  find_pull_request = λ t. ok (some 12);
  get_pull_request = λ n. ok pull_request;
  ci = λ t. ok summary;
}

abbrev pub landing : Landing
landing = record { branch = branch; pull_request = pull_request; summary = summary }

abbrev pub surroundings : Surroundings
surroundings = record {
  client = some host;
  tests = some (record { name = none; passed = true });
  build = none;
  claimed = true;
}
