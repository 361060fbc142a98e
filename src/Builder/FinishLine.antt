-- ===== src/Builder/FinishLine.antt =====
-- The locked finish line: what a lock fixes of a task (src/builder/task-lock.js).
pub mod Rows
pub mod History
pub mod Guard
pub mod Locking
use jarvis_agencyos.Base.{ℕ, ◌≡◌, Option, none, some, List, if◌then◌else◌}
use jarvis_agencyos.Builder.Contracts.{is_draft}
use jarvis_agencyos.Builder.State.{Task, FinishLine}
use jarvis_agencyos.Builder.Store.{find_task}

abbrev line_of : Option Task → Option FinishLine
line_of none = none
line_of (some t) = if is_draft t.status then none else some t.line

-- The finish line of a task that is no draft.
abbrev pub locked_line : ℕ → List Task → Option FinishLine
locked_line id tasks = line_of (find_task id tasks)

-- Every finish line that `before` fixes stands unchanged in `after`.
pub record LineKept (before after : List Task) : Type 0 where
  pub at :
      (id : ℕ) (l : FinishLine) → locked_line id before ≡ some l → locked_line id after ≡ some l
