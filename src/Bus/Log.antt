-- ===== src/Bus/Log.antt =====
-- The log of agent events, of bus/lifecycle_store.py: a history, the state that it folds to, and
-- `record`, the one way in which an event is written.
use ancalagon.Base.{
  ℕ, ℤ, String, FilePath, same_path, name_of, take_text, text_length, Bool, ◌==◌, leb,
  if◌then◌else◌, Option, none, some, List, [], ◌∷◌, ◌++◌, map, select, find, Result, ok, raise,
  key_error, operational_error, integrity_error, ◌>>=◌, require,
}
use ancalagon.Contracts.Status.{AgentStatus, EventSource, AgentEvent, HarnessTask, LifecycleLine}
use ancalagon.Attempt.{Attempt, next_state, attempt_of}
use ancalagon.Bus.Rows.{AgentRow, Tables, Database}

-- A reading of the clock, named by the row that it is written in.
pub data Reading : Type 0 where
  for_task for_agent for_event : ℕ → Reading

-- The connection: the tables as it sees them, whether a transaction is open, and what has gone out
-- to the sink, each line with the name of its task's directory.
pub record Store : Type 0 where
  pub tables : Tables
  pub begun : Bool
  pub published : List (LifecycleLine × String)

-- The schema's CHECK constraint on a summary.
abbrev pub summary_limit : ℕ
summary_limit = 1000

-- `_HISTORY`.
unfoldable pub history : ℕ → Tables → List AgentEvent
history agent t = select (λ e. e.agent == agent) t.events

unfoldable pub attempt : ℕ → Tables → Result Attempt
unfolding history
attempt agent t = attempt_of (history agent t)

-- `_DIR_OF`: the agent joined to its task.
dir_of_row : Tables → Option AgentRow → Result FilePath
dir_of_row t none = raise key_error
dir_of_row t (some row) = do
  task ← require key_error (find (λ k. k.id == row.task) t.tasks)
  ok task.dir

unfoldable pub dir_of : ℕ → Tables → Result FilePath
unfolding dir_of_row
dir_of agent t = dir_of_row t (find (λ r. r.id == agent) t.agents)

-- `task`, by its directory.
unfoldable pub task_at : FilePath → Tables → Result HarnessTask
task_at dir t = require key_error (find (λ k. same_path k.dir dir) t.tasks)

publish_to : Result FilePath → LifecycleLine → Store → Result (Unit {0}) × Store
publish_to (raise e) line s = (raise e, s)
publish_to (ok dir) line s =
    (ok tt, record s { published = s.published ++ (line, name_of dir) ∷ [] })

unfoldable pub publish :
    ℕ → AgentStatus → EventSource → ℕ → String → Store → Result (Unit {0}) × Store
unfolding publish_to
publish agent status source pid summary s =
    publish_to (dir_of agent s.tables)
      (record {
        agent = agent;
        status = status;
        source = source;
        pid = pid;
        summary = take_text summary_limit summary;
      })
      s

-- An INSERT into agent_events, with the schema's check of its summary.
insert_event : AgentEvent → Tables → Result Tables
insert_event e t =
    if leb (text_length e.summary) summary_limit
    then ok (record t { events = t.events ++ e ∷ [] })
    else raise integrity_error

module _ (db : Database) (now : Reading → ℕ) where
  open db use {new_id}

  abbrev pub event_row : ℕ → AgentStatus → EventSource → ℕ → String → ℤ → Tables → AgentEvent
  event_row agent status source pid summary seen_through t =
      let id = new_id (map (λ e. e.id) t.events) in
      record {
        id = id;
        agent = agent;
        ts = now (for_event id);
        status = status;
        source = source;
        pid = pid;
        summary = take_text summary_limit summary;
        seen_through = seen_through;
      }

  -- `_record`.
  unfoldable pub append_event :
      ℕ → AgentStatus → EventSource → ℕ → String → ℤ → Tables → Result Tables
  unfolding insert_event
  append_event agent status source pid summary seen_through t = do
    current ← attempt agent t
    next ← next_state current status source pid
    insert_event (event_row agent status source pid summary seen_through t) t

  committed :
      ℕ → AgentStatus → EventSource → ℕ → String → Store → Result Tables → Result (Unit {0}) × Store
  committed agent status source pid summary s (raise e) = (raise e, s)
  committed agent status source pid summary s (ok t) =
      publish agent status source pid summary (record s { tables = t })

  -- `record`: one transaction, rolled back when it raises, and then a line to the sink.
  unfoldable pub record_status :
      ℕ → AgentStatus → EventSource → ℕ → String → ℤ → Store → Result (Unit {0}) × Store
  unfolding committed
  record_status agent status source pid summary seen_through s =
      if s.begun
      then (raise operational_error, s)
      else committed agent status source pid summary s
          (append_event agent status source pid summary seen_through s.tables)
