-- ===== src/Builder/Orchestrator/Done.antt =====
-- What an orchestration that answers DONE leaves (src/builder/orchestrator.js).
use jarvis_agencyos.Base.{ℕ, ◌≡◌, Option, Text}
use jarvis_agencyos.Exec.Does.{Does}
use jarvis_agencyos.Builder.Contracts.{TaskStatus, Runtime}
use jarvis_agencyos.Builder.State.{Builder}
use jarvis_agencyos.Builder.Orchestrator.{done, Cycle, Outcome}
use jarvis_agencyos.Builder.Orchestrator.Verdicts.{Judged}
use jarvis_agencyos.Builder.Orchestrator.Judged.{DoneAt}

module _ (env : Runtime) (provider : Option Text) (id : ℕ) (cycles : ℕ → Cycle) where
  -- One of the cycles ended in the answer DONE.
  abbrev DoneBy : Outcome → Builder → Type 0
  DoneBy o s =
      o.decision ≡ done
      → (k : ℕ) × (o.task_status ≡ TaskStatus.accepted) × DoneAt id (cycles k) o.last s
