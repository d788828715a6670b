-- ===== src/Trace/Samples.antt =====
-- A task of two agents, the first of which delegates another task, and the theorem at it.
use ancalagon.Base.{ℕ, pos, [], ◌∷◌, Result, ok, ◌≡◌, refl, map, ◌>>=◌, String}
use ancalagon.Contracts.Status.{AgentStatus, supervisor, AgentEvent, HarnessTask}
use ancalagon.Contracts.Messages.{MessageRole, tool_use}
use ancalagon.Bus.Snapshots.{Snapshot}
use ancalagon.Trace.Nodes.{EdgeKind, Trace}
use ancalagon.Trace.Graph.{
  Messages, graph_of, agent_nodes, agent_node, call_nodes, call_node, answered, started_in, spawned,
  woke, called, delegated, collected, all_uses, uses_of, results_of, in_order, insert_edge,
  is_before,
}
use ancalagon.Trace.Whole.{IsTrace, graph_of-IsTrace}

abbrev event : ℕ → ℕ → ℕ → AgentEvent
event id agent ts = record {
  id = id;
  agent = agent;
  ts = ts;
  status = AgentStatus.queued;
  source = supervisor;
  pid = 0;
  summary = "";
  seen_through = pos 0;
}

abbrev task : ℕ → ℕ → ℕ → HarnessTask
task id parent_agent created = record {
  id = id;
  dir = "runs" ∷ [];
  parent_agent = parent_agent;
  created = created;
}

abbrev snap : Snapshot
snap = record {
  tasks = task 1 0 1 ∷ task 2 1 4 ∷ [];
  agents_by_task = (1, 1 ∷ 3 ∷ []) ∷ (2, 2 ∷ []) ∷ [];
  task_by_agent = (1, 1) ∷ (3, 1) ∷ (2, 2) ∷ [];
  events = (1, event 1 1 2 ∷ []) ∷ (3, event 3 3 9 ∷ []) ∷ (2, event 2 2 5 ∷ []) ∷ [];
  attempts = [];
}

abbrev messages : Messages
messages =
    (
      1,
      (record {
        role = MessageRole.assistant;
        blocks = tool_use (record { id = "a"; name = "collect_task"; arguments = "2" }) ∷ [];
        agent = 3;
        seq = 0;
        ts = 11;
      })
          ∷ [],
    )
    ∷ []

abbrev read_task : String → Result ℕ
read_task arguments = ok 2

trace : Result Trace
trace = graph_of read_task snap messages

trace-kinds :
    (trace >>= λ t. ok (map (λ e. e.kind) t.edges))
    ≡ ok (
        EdgeKind.spawned ∷ EdgeKind.delegated ∷ EdgeKind.spawned ∷ EdgeKind.woke ∷ EdgeKind.called
        ∷ EdgeKind.collected ∷ [])
unfolding trace graph_of agent_nodes agent_node call_nodes call_node answered started_in spawned
    woke called delegated collected all_uses uses_of results_of in_order insert_edge is_before
trace-kinds = refl

graph_of-total : (t : Trace) × (graph_of read_task snap messages ≡ ok t)
unfolding graph_of agent_nodes agent_node call_nodes call_node answered started_in spawned woke
    called delegated collected all_uses uses_of results_of in_order insert_edge is_before
graph_of-total = (_, refl)

graph_of-IsTrace_example : IsTrace (graph_of-total.0)
graph_of-IsTrace_example =
    graph_of-IsTrace read_task snap messages (graph_of-total.0) (graph_of-total.1)
