-- ===== src/Trace/Nodes.antt =====
-- The nodes and edges of trace/: node_kind.py, node_ref.py, task_node.py, agent_node.py,
-- tool_call_node.py, edge_kind.py, edge.py and trace.py. A time is a number.
use ancalagon.Base.{ℕ, String, Bool, List, FilePath}
use ancalagon.Contracts.Status.{AgentStatus}

pub data NodeKind : Type 0 where
  task agent tool_call : NodeKind

pub record NodeRef : Type 0 where
  pub kind : NodeKind
  pub id : ℕ

pub data EdgeKind : Type 0 where
  spawned woke called delegated collected : EdgeKind

pub record Edge : Type 0 where
  pub kind : EdgeKind
  pub source : NodeRef
  pub target : NodeRef
  pub ts : ℕ

pub record TaskNode : Type 0 where
  pub id : ℕ
  pub dir : FilePath
  pub parent_agent : ℕ

pub record AgentNode : Type 0 where
  pub id : ℕ
  pub task : ℕ
  pub last_status : AgentStatus
  pub started : ℕ
  pub ended : ℕ

pub record ToolCallNode : Type 0 where
  pub id : ℕ
  pub agent : ℕ
  pub name : String
  pub ts : ℕ
  pub is_ok : Bool
  pub path : String

-- The nodes in the order in which they are listed: tasks, agents, calls.
pub record Trace : Type 0 where
  pub tasks : List TaskNode
  pub agents : List AgentNode
  pub calls : List ToolCallNode
  pub edges : List Edge
