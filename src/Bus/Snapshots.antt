-- ===== src/Bus/Snapshots.antt =====
-- `snapshot` of bus/lifecycle_store.py, and attempt/snapshot.py: everything about a run, read once
-- and folded once.
use ancalagon.Base.{
  ℕ, ◌==◌, if◌then◌else◌, List, map, select, Result, ok, raise, operational_error, ◌>>=◌,
  map_result,
}
use ancalagon.Contracts.Status.{AgentEvent, HarnessTask}
use ancalagon.Attempt.{Attempt, attempt_of}
use ancalagon.Bus.Rows.{AgentRow, Tables}
use ancalagon.Bus.Log.{Store, history}

-- A mapping is the list of its items, in the order in which the code builds it.
pub record Snapshot : Type 0 where
  pub tasks : List HarnessTask
  pub agents_by_task : List (ℕ × List ℕ)
  pub task_by_agent : List (ℕ × ℕ)
  pub events : List (ℕ × List AgentEvent)
  pub attempts : List (ℕ × Attempt)

folded : ℕ × List AgentEvent → Result (ℕ × Attempt)
folded (agent, found) = do a ← attempt_of found; ok (agent, a)

unfoldable pub snapshot_of : Tables → Result Snapshot
unfolding folded history
snapshot_of t =
    let events = map (λ (r : AgentRow). (r.id, history r.id t)) t.agents in
    do
      attempts ← map_result folded events
      ok (record {
        tasks = t.tasks;
        agents_by_task =
            map
              (λ (k : HarnessTask). (k.id, map (λ r. r.id) (select (λ r. r.task == k.id) t.agents)))
              t.tasks;
        task_by_agent = map (λ (r : AgentRow). (r.id, r.task)) t.agents;
        events = events;
        attempts = attempts;
      })

-- A read: the store is left as it was, whatever comes of it.
unfoldable pub snapshot : Store → Result Snapshot
unfolding snapshot_of
snapshot s = if s.begun then raise operational_error else snapshot_of s.tables
