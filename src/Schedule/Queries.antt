-- ===== src/Schedule/Queries.antt =====
-- schedule/newest_agent.py, task_of.py, addressed.py, latest_event.py, outstanding.py,
-- live_children.py, uncollected.py, unreaped.py and active_for.py.
use ancalagon.Base.{
  ℕ, ltb, Bool, true, false, ◌&&◌, ◌==◌, if◌then◌else◌, Option, none, some, List, [], ◌∷◌, elem,
  find, lookup, max?, Result, ok, raise, require, key_error, value_error, stop_iteration, ◌>>=◌,
  collect_result, FilePath, same_path,
}
use ancalagon.Contracts.Status.{AgentStatus, AgentEvent, HarnessTask, same_status}
use ancalagon.Attempt.{Attempt}
use ancalagon.Bus.Snapshots.{Snapshot}

-- `snapshot.attempts[agent]` and its like.
abbrev pub attempt_in : Snapshot → ℕ → Result Attempt
attempt_in snap agent = require key_error (lookup agent snap.attempts)

abbrev pub events_in : Snapshot → ℕ → Result (List AgentEvent)
events_in snap agent = require key_error (lookup agent snap.events)

unfoldable pub newest_agent : Snapshot → ℕ → Result ℕ
newest_agent snap task = do
  agents ← require key_error (lookup task snap.agents_by_task)
  require value_error (max? agents)

unfoldable pub task_of : Snapshot → ℕ → Result HarnessTask
task_of snap agent = do
  task ← require key_error (lookup agent snap.task_by_agent)
  require stop_iteration (find (λ t. t.id == task) snap.tasks)

unfoldable pub addressed : Snapshot → ℕ → Result ℕ
unfolding newest_agent
addressed snap agent = do
  task ← require key_error (lookup agent snap.task_by_agent)
  newest_agent snap task

-- `max(events, key=BY_ID)`: the first of the greatest id.
unfoldable pub latest_from : AgentEvent → List AgentEvent → AgentEvent
latest_from best [] = best
latest_from best (e ∷ events) = latest_from (if ltb best.id e.id then e else best) events

unfoldable pub latest_of : List AgentEvent → Result AgentEvent
unfolding latest_from
latest_of [] = raise value_error
latest_of (e ∷ events) = ok (latest_from e events)

unfoldable pub latest_event : Snapshot → ℕ → Result AgentEvent
unfolding latest_of
latest_event snap agent = do events ← events_in snap agent; latest_of events

-- The match of `outstanding`.
unfoldable pub is_outstanding : Attempt → Bool
is_outstanding (Attempt.closed verdict) = same_status verdict AgentStatus.idling
is_outstanding (Attempt.collected verdict spoke) = same_status verdict AgentStatus.idling
is_outstanding (Attempt.lost close) = false
is_outstanding _ = true

unfoldable pub outstanding : Snapshot → ℕ → Result Bool
unfolding newest_agent is_outstanding
outstanding snap task = do
  newest ← newest_agent snap task
  attempt ← attempt_in snap newest
  ok (is_outstanding attempt)

-- A child of the task, if it passes: the comprehension's conditions, in order.
abbrev pub child_if : Snapshot → ℕ → (ℕ → Result Bool) → HarnessTask → Result (Option ℕ)
child_if snap task passes t =
    let passing = (do
      passed ← passes t.id
      newest ← newest_agent snap t.id
      ok (if passed then some newest else none)) in
    do
      mine ← require key_error (lookup task snap.agents_by_task)
      if elem t.parent_agent mine then passing else ok none

unfoldable pub live_children : Snapshot → ℕ → Result (List ℕ)
unfolding task_of outstanding
live_children snap agent = do
  task ← task_of snap agent
  collect_result (child_if snap task.id (outstanding snap)) snap.tasks

abbrev pub is_closed_or_lost : Attempt → Bool
is_closed_or_lost (Attempt.closed verdict) = true
is_closed_or_lost (Attempt.lost close) = true
is_closed_or_lost _ = false

abbrev newest_is : (Attempt → Bool) → Snapshot → ℕ → Result Bool
newest_is test snap task = do
  newest ← newest_agent snap task
  attempt ← attempt_in snap newest
  ok (test attempt)

unfoldable pub uncollected : Snapshot → ℕ → Result (List ℕ)
unfolding newest_agent
uncollected snap task =
    collect_result (child_if snap task (newest_is is_closed_or_lost snap)) snap.tasks

abbrev pub is_unreaped : Attempt → Bool
is_unreaped Attempt.claimed = true
is_unreaped (Attempt.running pid) = true
is_unreaped _ = false

-- The agents of the items of a mapping whose attempts pass.
abbrev pub agents_if : (Attempt → Bool) → List (ℕ × Attempt) → List ℕ
agents_if test [] = []
agents_if test ((agent, a) ∷ rest) =
    let others = agents_if test rest in if test a then agent ∷ others else others

unfoldable pub unreaped : Snapshot → List ℕ
unreaped snap = agents_if is_unreaped snap.attempts

abbrev pub is_active : Attempt → Bool
is_active Attempt.queued = true
is_active Attempt.claimed = true
is_active (Attempt.running pid) = true
is_active _ = false

abbrev active_if : Snapshot → FilePath → ℕ × Attempt → Result (Option ℕ)
active_if snap dir (agent, a) = do
  task ← task_of snap agent
  ok (if same_path task.dir dir && is_active a then some agent else none)

unfoldable pub active_for : Snapshot → FilePath → Result (List ℕ)
unfolding task_of
active_for snap dir = collect_result (active_if snap dir) snap.attempts
