-- ===== src/Lib.antt =====
-- Jarvis AgencyOS: the builder core.
--
-- The builder turns an owner's intent into a locked task, has one coding worker at a time work on it,
-- binds what the worker delivers to one exact commit, and verifies that commit. It keeps its rows in a
-- store, so that a restart loses nothing. The program's parts, by file from the repository's root, and
-- the modules that model them:
--
--   Base, Exec        names, Boolean tests, lists and texts (code units) that all modules share; methods
--                     that change an object and may throw, where what was written before a throw stays.
--                     Exec.Keeps, Exec.Ends, Exec.Returns, Exec.Does and Exec.Total are rules for what such methods
--                     keep, return and establish.
--   Json              canonicalJson (src/contracts/ids.js, src/builder/contracts.js).
--   Builder.Contracts the enums, the lock payload and its hash (src/builder/contracts.js).
--   Builder.State     the rows (src/builder/store-mappers.js, src/builder/schema.sql) and the fields of
--                     the BuilderCore object.
--   Builder.Store     the statements of src/builder/store.js: insertTask is insert_task, and so on, with
--                     the uniqueness, foreign key and check constraints of the schema.
--   Builder.Lock      normalizeOwnerIntent, createDraftTask, lockTask, verifyTaskHash
--                     (src/builder/task-lock.js).
--   Builder.Patch     assertTaskMutable and attemptMutateLockedTask.
--   Builder.Runs      updateTaskStatus, createRun, getCurrentCodingRun, assertAuthorizedRun, markRunStale
--                     (src/builder/core.js).
--   Builder.Provider  normalizeProviderResult (src/builder/worker-provider.js), applyProviderResult and
--                     _applyProviderObservation.
--   Builder.Workers   launchCodingWorker, launchCodingWorkerOnRun, refreshWorkerStatus,
--                     cancelCodingWorker, collectCodingWorker.
--   Builder.Tools     the tool policy (src/builder/tool-policy.js).
--   Builder.Retry     beginRepairAttempt (src/builder/retry.js).
--   Builder.Authority invalidation and authority of verifications and reviews (src/builder/verifier.js,
--                     src/builder/codex-review.js).
--   Builder.Candidates registerExactCandidate, in Candidates.Refresh refreshCandidateLanding
--                     (src/builder/candidate-registry.js), recordApproval.
--   Builder.Checks    the checks, the landing evidence and the verdict of verifyExactCandidate.
--   Builder.Verifier  verifyExactCandidate (src/builder/verifier.js).
--   Builder.Review    evaluateReviewGate, and in Review.Exact reviewExactCandidate
--                     (src/builder/codex-review.js).
--   Builder.Leases    leases, transactions, claimLogicalWork and tryInsertActiveRun (src/builder/store.js).
--   Builder.Landing   summarizeCi (src/builder/github-landing.js) over what the API answers.
--   Builder.CiWait    detectAwaitingCi and waitForExactCandidateCi (src/builder/ci-wait.js).
--   Builder.Recovery  reconcileAfterRestart (src/builder/recovery.js).
--   Builder.Landed, Builder.Orchestrator  runOwnerSoftwareTask (src/builder/orchestrator.js): one owner task
--                     from its lock through launches, waits, verification and review to a decision.
--   Builder.Tick      what a tick looks for (src/builder/tick.js): failed CI, requested changes, a handoff to
--                     wait for, a task to continue.
--   Builder.Calls     sequences of calls of the operations on the builder that change its rows: those of
--                     Lock, Patch, Runs, Workers, Retry, Candidates, Authority, Verifier, Review, Leases,
--                     CiWait, Recovery, the invalidation of Tick, and whole orchestrations.
--   Builder.Frame     which tables an operation leaves alone.
--   Builder.FinishLine, Builder.Acceptance  histories of a task.
--   Agency.Approvals  validateApproval (src/contracts/approval.js).
--   Agency.Capabilities  validateCapabilityContract (src/contracts/capability.js).
--   Agency.Effects    classifyAmbiguousOutcomePolicy (src/contracts/capability.js) and the gates of
--                     src/runtime/effect-ambiguity.js: what may follow an ambiguous effect.
--   Agency.Resolver   resolveCapability, resolveExecutableCapability
--                     (src/contracts/capability-resolver.js).
--   Agency.Grants     loadActiveGrant (src/contracts/grants.js).
--   Examples          the program on concrete inputs.
--
-- How the state corresponds. A method is an action on the record Builder: the tables, the field
-- _currentFactoryRunId (`current`), a counter for the identifiers that randomUUID draws, and the clock.
-- An action gives a result or an error, and the state in both cases. `co` (src/builder/thenable.js) runs
-- the steps of a synchronous method in order, so such a method is one action. launchCodingWorker awaits
-- between its steps, so it is launch_check, launch_verify, launch_create, the write of the pointer and
-- launch_settle, and other calls may run in between. The operations that ask a provider about a run are
-- two actions, before and after the answer. The other asynchronous functions are one action each, with
-- what they await as arguments: verifyExactCandidate (its part after the answers is record_verdict),
-- reviewExactCandidate, refreshCandidateLanding, waitForExactCandidateCi, reconcileAfterRestart and
-- runOwnerSoftwareTask. Their theorems say what they do when nothing else runs meanwhile.
--
-- Parameters: the digest and the texts of identifiers (Runtime), the provider's answers, the GitHub
-- client, the reports of test and build commands. Identifiers, digests and times are numbers, as the
-- program only compares them. The canonical JSON of a number prints with its value as the bound on its
-- digits, and the search for forbidden keys has the source's own bound, seven levels. The loop that polls
-- for CI runs on fuel, two steps more than its bound has milliseconds: a poll is followed by a sleep of at
-- least one. The polls of a worker are counted by the time that is left for them, the passes of a
-- registration and the cycles of an orchestration by the source's caps; other loops are structural. A
-- wait reads the clock through arguments, and rows that it writes carry the time of its beginning.
--
-- Where the model is narrower than the source: the unique index on logical_work_id is checked
-- for inserted rows, not for a patch that names another row's; a patch with an empty cost_budget_status keeps it empty; the runs of
-- a task are listed in the order they were inserted, which is the order of their attempts unless a caller
-- gives an attempt of its own.
--
-- Not modelled: evidence and error texts that no operation reads; the second store
-- (src/builder/store-postgres.js), whose statements are the first one's; reconstruct, which only reads; the
-- rest of the tick (src/builder/tick.js, src/builder/tick-lock.js); the reviewer's program and the reading of its output
-- (src/builder/codex-review.js); the shape of a worker's evidence and prompts (src/builder/orchestrator.js);
-- invokeTaskTool; the agency's other contracts and the rest of the runtime (src/contracts, src/runtime); providers, calls
-- of gh, scripts and SQL, which are input and output.
pub mod Base
pub mod Exec
pub mod Json
pub mod Builder
pub mod Agency
pub mod Examples
