-- ===== src/Bus/Rows.antt =====
-- The rows of bus/schema.py, and what SQLite gives a new row for its id.
use ancalagon.Base.{ℕ, ◌<◌, FilePath, List, All}
use ancalagon.Contracts.Status.{AgentEvent, HarnessTask}

pub record AgentRow : Type 0 where
  pub id : ℕ
  pub task : ℕ
  pub created : ℕ

-- An agent joined to its task and directory.
pub record AgentState : Type 0 where
  pub agent : ℕ
  pub task : ℕ
  pub dir : FilePath

pub record Tables : Type 0 where
  pub tasks : List HarnessTask
  pub agents : List AgentRow
  pub events : List AgentEvent

-- SQLite chooses the id of a new row, from those that the table holds. What the code relies on:
-- ids start at 1, and a new one is greater than those of the rows before it (a row is never
-- deleted).
pub record Database : Type 0 where
  pub new_id : List ℕ → ℕ
  pub new_id_positive : (ids : List ℕ) → 0 < new_id ids
  pub new_id_above : (ids : List ℕ) → All (λ i. i < new_id ids) ids
