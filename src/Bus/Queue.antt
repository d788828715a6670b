-- ===== src/Bus/Queue.antt =====
-- The task queue of bus/lifecycle_store.py: `enqueue`, `_queued` and `claim`.
use ancalagon.Base.{
  ℕ, pos, FilePath, same_path, Bool, true, false, ◌==◌, if◌then◌else◌, Option, none, some, List, [],
  ◌∷◌, ◌++◌, map, find, take, max?, Result, ok, raise, operational_error, ◌>>=◌, length,
}
use ancalagon.Contracts.Status.{AgentStatus, supervisor, AgentEvent, HarnessTask, same_status}
use ancalagon.Attempt.{Attempt}
use ancalagon.Bus.Rows.{AgentRow, AgentState, Tables, Database}
use ancalagon.Bus.Log.{Store, Reading, for_task, for_agent, history, attempt, append_event, publish}

-- `attempt == Queued()`.
abbrev pub is_queued : Attempt → Bool
is_queued Attempt.queued = true
is_queued _ = false

-- `_LATEST` with `_E.c.status == "queued"`, for one agent: its task's row, and its event of the
-- greatest id.
unfoldable pub waiting_row : AgentRow → Option HarnessTask → Option AgentEvent → List AgentState
waiting_row row (some task) (some e) =
    if same_status e.status AgentStatus.queued
    then (record { agent = row.id; task = row.task; dir = task.dir }) ∷ []
    else []
waiting_row row _ _ = []

unfoldable pub latest_event_row : Tables → Option ℕ → Option AgentEvent
latest_event_row t none = none
latest_event_row t (some id) = find (λ e. e.id == id) t.events

unfoldable pub latest_queued : Tables → List AgentRow → List AgentState
latest_queued t [] = []
latest_queued t (row ∷ rows) =
    waiting_row row (find (λ k. k.id == row.task) t.tasks)
      (latest_event_row t (max? (map (λ e. e.id) (history row.id t))))
    ++ latest_queued t rows

-- The comprehension of `_queued` over those rows, which asks for each agent's state.
unfoldable pub still_queued : Tables → List AgentState → Result (List AgentState)
still_queued t [] = ok []
still_queued t (state ∷ states) = do
  current ← attempt state.agent t
  rest ← still_queued t states
  ok (if is_queued current then state ∷ rest else rest)

unfoldable pub queued : Tables → Result (List AgentState)
queued t = still_queued t (latest_queued t t.agents)

-- `queued_count`.
unfoldable pub queued_count : Store → Result ℕ
queued_count s = do states ← queued s.tables; ok (length states)

after_publish :
    (Store → Result (Unit {0}) × Store) → Result (Unit {0}) × Store → Result (Unit {0}) × Store
after_publish rest (raise e, s) = (raise e, s)
after_publish rest (ok _, s) = rest s

-- The second loop: a line to the sink for each agent.
unfoldable pub publish_each : List AgentState → Store → Result (Unit {0}) × Store
unfolding after_publish
publish_each [] s = (ok tt, s)
publish_each (state ∷ states) s =
    after_publish (λ s'. publish_each states s')
      (publish state.agent AgentStatus.claimed supervisor 0 "" s)

module _ (db : Database) (now : Reading → ℕ) where
  open db use {new_id}

  -- `_INSERT_TASK`: the row of this directory, new or old, and its id.
  unfoldable pub inserted_task : FilePath → ℕ → Tables → Option HarnessTask → ℕ × Tables
  inserted_task dir parent t (some task) = (task.id, t)
  inserted_task dir parent t none =
      let id = new_id (map (λ k. k.id) t.tasks) in
      (
        id,
        record t {
          tasks =
              t.tasks
              ++ (record { id = id; dir = dir; parent_agent = parent; created = now (for_task id) })
                ∷ [];
        },
      )

  unfoldable pub insert_task : FilePath → ℕ → Tables → ℕ × Tables
  unfolding inserted_task
  insert_task dir parent t = inserted_task dir parent t (find (λ k. same_path k.dir dir) t.tasks)

  -- `_INSERT_AGENT`.
  unfoldable pub insert_agent : ℕ → Tables → ℕ × Tables
  insert_agent task t =
      let id = new_id (map (λ r. r.id) t.agents) in
      (
        id,
        record t {
          agents = t.agents ++ (record { id = id; task = task; created = now (for_agent id) }) ∷ [];
        },
      )

  unfoldable pub enqueued : ℕ → Tables → Store → Result Tables → Result ℕ × Store
  enqueued agent t s (raise e) = (raise e, record s { tables = t; begun = true })
  enqueued agent _ s (ok t) =
      let (sent, s') = publish agent AgentStatus.queued supervisor 0 "" (record s { tables = t }) in
      (sent >>= λ _. ok agent, s')

  -- `enqueue`: the id of the new agent.
  unfoldable pub enqueue : FilePath → ℕ → Store → Result ℕ × Store
  enqueue dir parent s =
      let (task, t₁) = insert_task dir parent s.tables in
      let (agent, t₂) = insert_agent task t₁ in
      if s.begun
      then (raise operational_error, s)
      else enqueued agent t₂ s
          (append_event db now agent AgentStatus.queued supervisor 0 "" (pos 0) t₂)

  after_claim :
      Tables → (Tables → Result (Unit {0}) × Tables) → Result Tables → Result (Unit {0}) × Tables
  after_claim t rest (raise e) = (raise e, t)
  after_claim t rest (ok t') = rest t'

  -- The loop of `claim`. An exception ends it, with what it had written.
  unfoldable pub claim_each : List AgentState → Tables → Result (Unit {0}) × Tables
  unfolding after_claim
  claim_each [] t = (ok tt, t)
  claim_each (state ∷ states) t =
      after_claim t (λ t'. claim_each states t')
        (append_event db now state.agent AgentStatus.claimed supervisor 0 "" (pos 0) t)

  unfoldable pub claimed :
      List AgentState → Store → Result (Unit {0}) × Tables → Result (List AgentState) × Store
  claimed waiting s (raise e, t) = (raise e, record s { tables = t; begun = true })
  claimed waiting s (ok _, t) =
      let (sent, s') = publish_each waiting (record s { tables = t }) in
      (sent >>= λ _. ok waiting, s')

  unfoldable pub claim_first :
      ℕ → Store → Result (List AgentState) → Result (List AgentState) × Store
  claim_first limit s (raise e) = (raise e, record s { begun = true })
  claim_first limit s (ok states) =
      let waiting = take limit states in claimed waiting s (claim_each waiting s.tables)

  -- `claim`: neither it nor `enqueue` rolls back, so an exception leaves the transaction open.
  unfoldable pub claim : ℕ → Store → Result (List AgentState) × Store
  claim limit s =
      if s.begun then (raise operational_error, s) else claim_first limit s (queued s.tables)
