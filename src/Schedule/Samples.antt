-- ===== src/Schedule/Samples.antt =====
-- A child of a child of the agent that a person started, and the theorem at it.
use ancalagon.Base.{ℕ, ◌≤◌, ◌≡◌, refl, ◌↔◌, ok, [], ◌∷◌}
use ancalagon.Contracts.Status.{HarnessTask}
use ancalagon.Bus.Snapshots.{Snapshot}
use ancalagon.Schedule.Queries.{task_of}
use ancalagon.Schedule.Depth.{depth_of, depth_from, Lineage, max_hops, depth_of-Lineage}

abbrev task : ℕ → ℕ → HarnessTask
task id parent_agent = record {
  id = id;
  dir = "runs" ∷ [];
  parent_agent = parent_agent;
  created = 0;
}

abbrev family : Snapshot
family = record {
  tasks = task 1 0 ∷ task 2 1 ∷ task 3 2 ∷ [];
  agents_by_task = (1, 1 ∷ []) ∷ (2, 2 ∷ []) ∷ (3, 3 ∷ []) ∷ [];
  task_by_agent = (1, 1) ∷ (2, 2) ∷ (3, 3) ∷ [];
  events = [];
  attempts = [];
}

depth_of-family : depth_of family 3 ≡ ok 2
unfolding depth_of depth_from task_of
depth_of-family = refl

depth_of-Lineage_example : (depth_of family 3 ≡ ok 2) ↔ (
    (t : HarnessTask) × (task_of family 3 ≡ ok t)
    × Lineage family t.parent_agent 2
    × (2 ≤ max_hops))
depth_of-Lineage_example = depth_of-Lineage family 3 2
