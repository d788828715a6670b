-- ===== src/Trace/Graph.antt =====
-- trace/graph_of.py: the nodes and edges of a run, from its snapshot and its transcripts.
use ancalagon.Base.{
  ℕ, String, same_text, ltb, Bool, false, not, ◌&&◌, ◌||◌, ◌==◌, if◌then◌else◌, Option, none, some,
  List, [], ◌∷◌, ◌++◌, map, select, take, first, last, enumerate_from, concat_map, lookup, has_key,
  Result, ok, require, key_error, index_error, ◌>>=◌, map_result, concat_result,
}
use ancalagon.Contracts.Status.{HarnessTask}
use ancalagon.Contracts.Messages.{
  Message, Block, tool_use, tool_result, ToolUseFromModel, ToolResultBlock,
}
use ancalagon.Bus.Snapshots.{Snapshot}
use ancalagon.Schedule.Queries.{events_in}
use ancalagon.Trace.Nodes.{NodeKind, NodeRef, EdgeKind, Edge, AgentNode, ToolCallNode, Trace}

-- A call of a tool, with the agent that made it and when.
pub record Use : Type 0 where
  pub agent : ℕ
  pub ts : ℕ
  pub use_block : ToolUseFromModel

abbrev pub Messages : Type 0
Messages = List (ℕ × List Message)

-- `messages.get(task.id, ())`.
abbrev pub messages_of : Messages → ℕ → List Message
messages_of messages task = elim (lookup task messages) [ none ↦ [] | some ms ↦ ms ]

abbrev pub task_ref : ℕ → NodeRef
task_ref id = record { kind = NodeKind.task; id = id }

abbrev pub agent_ref : ℕ → NodeRef
agent_ref id = record { kind = NodeKind.agent; id = id }

abbrev uses_in : Message → Block → List Use
uses_in m (tool_use u) = (record { agent = m.agent; ts = m.ts; use_block = u }) ∷ []
uses_in m _ = []

-- `_uses`.
unfoldable pub uses_of : List Message → List Use
uses_of messages = concat_map (λ (m : Message). concat_map (uses_in m) m.blocks) messages

abbrev results_in : Block → List ToolResultBlock
results_in (tool_result r) = r ∷ []
results_in _ = []

-- The items of `_results`, before a later one takes an earlier one's place.
unfoldable pub results_of : List Message → List ToolResultBlock
results_of messages = concat_map (λ (m : Message). concat_map results_in m.blocks) messages

-- `_all_uses`.
unfoldable pub all_uses : Snapshot → Messages → List Use
unfolding uses_of
all_uses snap messages =
    concat_map (λ (t : HarnessTask). uses_of (messages_of messages t.id)) snap.tasks

-- `_agent_node`.
unfoldable pub agent_node : Snapshot → ℕ → ℕ → Result AgentNode
agent_node snap task agent = do
  events ← events_in snap agent
  newest ← require index_error (last events)
  oldest ← require index_error (first events)
  ok (record {
    id = agent;
    task = task;
    last_status = newest.status;
    started = oldest.ts;
    ended = newest.ts;
  })

abbrev pub agents_of : Snapshot → ℕ → Result (List ℕ)
agents_of snap task = require key_error (lookup task snap.agents_by_task)

-- `_agent_nodes`.
unfoldable pub agent_nodes : Snapshot → List HarnessTask → Result (List AgentNode)
unfolding agent_node
agent_nodes snap tasks =
    concat_result (λ t. do agents ← agents_of snap t.id; map_result (agent_node snap t.id) agents)
      tasks

-- `answered.get(use.id, UNANSWERED)`: the last result with that id is the one that the dict holds.
unfoldable pub answered : List ToolResultBlock → String → ToolResultBlock
answered results id = elim (last (select (λ r. same_text r.tool_use_id id) results)) [
  | some r ↦ r
  | none ↦ record { tool_use_id = ""; content = ""; is_error = false; path = ""; byte_count = 0 }
]

unfoldable pub call_node : List ToolResultBlock → ℕ × Use → ToolCallNode
unfolding answered
call_node results (number, u) = record {
  id = number;
  agent = u.agent;
  name = u.use_block.name;
  ts = u.ts;
  is_ok = not (answered results u.use_block.id).is_error;
  path = (answered results u.use_block.id).path;
}

-- `_call_nodes`.
unfoldable pub call_nodes : Snapshot → Messages → List ToolCallNode
unfolding call_node all_uses results_of
call_nodes snap messages =
    let results =
      concat_map (λ (t : HarnessTask). results_of (messages_of messages t.id)) snap.tasks in
    map (call_node results) (enumerate_from 1 (all_uses snap messages))

-- `{agent.id: agent.started for agent in agents}`: the last of an id is the one held.
unfoldable pub started_in : List AgentNode → ℕ → Option ℕ
started_in [] agent = none
started_in (n ∷ nodes) agent = elim (started_in nodes agent) [
  | some t ↦ some t
  | none ↦ if n.id == agent then some n.started else none
]

abbrev pub edge_to : EdgeKind → NodeRef → (ℕ → Option ℕ) → ℕ → Result Edge
edge_to kind source started agent = do
  ts ← require key_error (started agent)
  ok (record { kind = kind; source = source; target = agent_ref agent; ts = ts })

-- `_spawned`.
unfoldable pub spawned : Snapshot → (ℕ → Option ℕ) → List HarnessTask → Result (List Edge)
spawned snap started tasks =
    concat_result
      (λ t. do
        agents ← agents_of snap t.id
        map_result (edge_to EdgeKind.spawned (task_ref t.id) started) (take 1 agents))
      tasks

-- `zip(agents, agents[1:])`.
abbrev pub pairs : List ℕ → List (ℕ × ℕ)
pairs [] = []
pairs (a ∷ []) = []
pairs (a ∷ b ∷ agents) = (a, b) ∷ pairs (b ∷ agents)

-- `_woke`.
unfoldable pub woke : Snapshot → (ℕ → Option ℕ) → List HarnessTask → Result (List Edge)
woke snap started tasks =
    concat_result
      (λ t. do
        agents ← agents_of snap t.id
        map_result (λ (p : ℕ × ℕ). edge_to EdgeKind.woke (agent_ref p.0) started p.1)
            (pairs agents))
      tasks

-- `_called`.
unfoldable pub called : List ToolCallNode → List Edge
called calls =
    map
      (λ (c : ToolCallNode). record {
        kind = EdgeKind.called;
        source = agent_ref c.agent;
        target = record { kind = NodeKind.tool_call; id = c.id };
        ts = c.ts;
      })
      calls

-- `_delegated`.
unfoldable pub delegated : Snapshot → List Edge
delegated snap =
    map
      (λ (t : HarnessTask). record {
        kind = EdgeKind.delegated;
        source = agent_ref t.parent_agent;
        target = task_ref t.id;
        ts = t.created;
      })
      (select (λ t. has_key t.parent_agent snap.task_by_agent) snap.tasks)

-- `_collected`. Reading the arguments of a call is pydantic's.
unfoldable pub collected : (String → Result ℕ) → List Use → Result (List Edge)
collected task_of_arguments uses =
    map_result
      (λ (u : Use). do
        task ← task_of_arguments u.use_block.arguments
        ok (record {
          kind = EdgeKind.collected;
          source = agent_ref u.agent;
          target = task_ref task;
          ts = u.ts;
        }))
      (select (λ u. same_text u.use_block.name "collect_task") uses)

-- `ORDER.index`.
abbrev pub order : EdgeKind → ℕ
order EdgeKind.spawned = 0
order EdgeKind.woke = 1
order EdgeKind.called = 2
order EdgeKind.delegated = 3
order EdgeKind.collected = 4

-- `_when(a) < _when(b)`, as tuples are compared.
unfoldable pub is_before : Edge → Edge → Bool
is_before a b =
    ltb a.ts b.ts
    || a.ts == b.ts
      && (ltb (order a.kind) (order b.kind)
          || order a.kind == order b.kind
            && (ltb a.source.id b.source.id
                || a.source.id == b.source.id && ltb a.target.id b.target.id))

-- `sorted`, whose places break the ties: an edge goes before those that are not before it.
unfoldable pub insert_edge : Edge → List Edge → List Edge
unfolding is_before
insert_edge e [] = e ∷ []
insert_edge e (f ∷ edges) =
    let rest = insert_edge e edges in if is_before f e then f ∷ rest else e ∷ f ∷ edges

unfoldable pub in_order : List Edge → List Edge
unfolding insert_edge
in_order [] = []
in_order (e ∷ edges) = insert_edge e (in_order edges)

-- `graph_of`.
unfoldable pub graph_of : (String → Result ℕ) → Snapshot → Messages → Result Trace
unfolding agent_nodes call_nodes started_in spawned woke called delegated collected all_uses
    in_order
graph_of task_of_arguments snap messages = do
  agents ← agent_nodes snap snap.tasks
  spawns ← spawned snap (started_in agents) snap.tasks
  wakes ← woke snap (started_in agents) snap.tasks
  collects ← collected task_of_arguments (all_uses snap messages)
  ok (record {
    tasks =
        map (λ (t : HarnessTask). record { id = t.id; dir = t.dir; parent_agent = t.parent_agent })
          snap.tasks;
    agents = agents;
    calls = call_nodes snap messages;
    edges =
        in_order
          (spawns ++ wakes ++ called (call_nodes snap messages) ++ delegated snap ++ collects);
  })
