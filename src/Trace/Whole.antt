-- ===== src/Trace/Whole.antt =====
-- `graph_of` of trace/graph_of.py as a whole: its order, and how each agent was started.
use ancalagon.Base.{
  ℕ, ◌+◌, String, ◌==◌, List, ◌++◌, Result, ok, >>=-eq-ok, ◌≡◌, subst, ◌∙◌, arith, ok-injective,
}
use ancalagon.Bus.Snapshots.{Snapshot}
use ancalagon.Trace.Nodes.{Edge, AgentNode, Trace}
use ancalagon.Trace.Graph.{
  Messages, agent_nodes, call_nodes, started_in, spawned, woke, called, delegated, collected,
  all_uses, in_order, graph_of,
}
use ancalagon.Trace.Ordering.{count, count-append, count-in_order, IsInOrder, in_order-IsInOrder}
use ancalagon.Trace.Starts.{starts, starts-nodes, count-called, count-delegated, count-collected}

-- What a trace of a run is.
pub record IsTrace (t : Trace) : Type 0 where
  pub ordered : IsInOrder t.edges
  pub started_once :
      (a : ℕ) → count (starts a) t.edges ≡ count (λ (n : AgentNode). n.id == a) t.agents

count-five :
    (a : ℕ) (spawns wakes calls delegates collects : List Edge) (n : ℕ)
    → count (starts a) spawns + count (starts a) wakes ≡ n
    → count (starts a) calls ≡ 0
    → count (starts a) delegates ≡ 0
    → count (starts a) collects ≡ 0
    → count (starts a) (in_order (spawns ++ wakes ++ calls ++ delegates ++ collects)) ≡ n
count-five a spawns wakes calls delegates collects n h c d k =
    count-in_order (starts a) (spawns ++ wakes ++ calls ++ delegates ++ collects)
    ∙ (rw (count-append (starts a) (spawns ++ wakes ++ calls ++ delegates) collects) (
        rw (count-append (starts a) (spawns ++ wakes ++ calls) delegates) (
          rw (count-append (starts a) (spawns ++ wakes) calls)
            (rw (count-append (starts a) spawns wakes) (omega (arith, h, c, d, k))))))

-- Whatever the snapshot and the transcripts, if `graph_of` returns a trace then no edge of it comes
-- before the one that it follows, by time, kind and ends; and the edges by which a task spawns an
-- agent or an agent wakes the next one start each agent just as often as it is a node.
pub graph_of-IsTrace :
    (task_of_arguments : String → Result ℕ) (snap : Snapshot) (messages : Messages) (t : Trace)
    → graph_of task_of_arguments snap messages ≡ ok t
    → IsTrace t
unfolding graph_of
graph_of-IsTrace task_of_arguments snap messages t h =
    let (agents, ha, h₁) = >>=-eq-ok (agent_nodes snap snap.tasks) _ h in
    let (spawns, hs, h₂) = >>=-eq-ok (spawned snap (started_in agents) snap.tasks) _ h₁ in
    let (wakes, hw, h₃) = >>=-eq-ok (woke snap (started_in agents) snap.tasks) _ h₂ in
    let (collects, hc, h₄) =
      >>=-eq-ok (collected task_of_arguments (all_uses snap messages)) _ h₃ in
    subst IsTrace (ok-injective h₄) (record {
      ordered =
          in_order-IsInOrder
            (spawns ++ wakes ++ called (call_nodes snap messages) ++ delegated snap ++ collects);
      started_once = λ a.
          count-five a spawns wakes (called (call_nodes snap messages)) (delegated snap) collects
            (count (λ (n : AgentNode). n.id == a) agents)
            (starts-nodes a snap (started_in agents) snap.tasks agents spawns wakes ha hs hw)
            (count-called a (call_nodes snap messages)) (count-delegated a snap)
            (count-collected a task_of_arguments (all_uses snap messages) collects hc);
    })
