-- ===== src/Trace/Starts.antt =====
-- How often the edges of each kind start an agent, and how often an agent is a node.
use ancalagon.Base.{
  ℕ, ◌+◌, Bool, true, false, ◌&&◌, ◌==◌, String, same_text, has_key, Option, List, [], ◌∷◌, ◌++◌,
  map, select, take, Result, ok, ◌>>=◌, map_result, concat_result, >>=-eq-ok, ◌≡◌, refl, sym, ◌∙◌,
  arith, ok-injective, ap, subst, require, key_error, index_error, first, last,
}
use ancalagon.Contracts.Status.{HarnessTask}
use ancalagon.Bus.Snapshots.{Snapshot}
use ancalagon.Schedule.Queries.{events_in}
use ancalagon.Trace.Nodes.{NodeRef, EdgeKind, Edge, AgentNode, ToolCallNode}
use ancalagon.Trace.Graph.{
  Use, agent_node, agent_nodes, agents_of, edge_to, task_ref, agent_ref, spawned, pairs, woke,
  called, delegated, collected,
}
use ancalagon.Trace.Ordering.{count, count-append}

abbrev pub is_start : EdgeKind → Bool
is_start EdgeKind.spawned = true
is_start EdgeKind.woke = true
is_start _ = false

-- An edge that starts the agent.
abbrev pub starts : ℕ → Edge → Bool
starts a e = is_start e.kind && e.target.id == a

count-cons :
    {A B : Type 0} (test : B → Bool) (test' : A → Bool) (x : A) (y : B) (xs : List A) (ys : List B)
    → test y ≡ test' x
    → count test ys ≡ count test' xs
    → count test (y ∷ ys) ≡ count test' (x ∷ xs)
count-cons test test' x y xs ys h n = ground (arith, h, n)

module _ {A B : Type 0} (f : A → Result B) (test : B → Bool) (test' : A → Bool)
    (same : (x : A) (y : B) → f x ≡ ok y → test y ≡ test' x) where
  count-map_result :
      (xs : List A) (ys : List B) → map_result f xs ≡ ok ys → count test ys ≡ count test' xs
  count-map_result [] ys h = ap (count test) (sym (ok-injective h))
  count-map_result (x ∷ xs) ys h =
      let (y, made, h₁) = >>=-eq-ok (f x) _ h in
      let (zs, rest, h₂) = >>=-eq-ok (map_result f xs) _ h₁ in
      ap (count test) (sym (ok-injective h₂))
      ∙ count-cons test test' x y xs zs (same x y made) (count-map_result xs zs rest)

count-none :
    {A : Type 0} (test : A → Bool) → ((x : A) → test x ≡ false) → (xs : List A) → count test xs ≡ 0
count-none test h [] = refl
count-none test h (x ∷ xs) = rw (h x) (count-none test h xs)

-- One task's part of a comprehension over tasks, and what the others give.
record IsTaken {B C : Type 0} (snap : Snapshot) (view : List ℕ → List C)
    (g : HarnessTask → C → Result B) (t : HarnessTask) (tasks : List HarnessTask) (ys : List B)
    : Type 0 where
  agents : List ℕ
  head : List B
  tail : List B
  listed : agents_of snap t.id ≡ ok agents
  made : map_result (g t) (view agents) ≡ ok head
  rest :
      concat_result (λ t. agents_of snap t.id >>= λ agents. map_result (g t) (view agents)) tasks
      ≡ ok tail
  parts : head ++ tail ≡ ys

taken :
    {B C : Type 0} (snap : Snapshot) (view : List ℕ → List C) (g : HarnessTask → C → Result B)
    (t : HarnessTask) (tasks : List HarnessTask) (ys : List B)
    → concat_result
        (λ t. agents_of snap t.id >>= λ agents. map_result (g t) (view agents))
        (t ∷ tasks)
      ≡ ok ys
    → IsTaken snap view g t tasks ys
taken snap view g t tasks ys h =
    let f = λ (t : HarnessTask). agents_of snap t.id >>= λ agents. map_result (g t) (view agents) in
    let (y, here, h₁) = >>=-eq-ok (f t) _ h in
    let (zs, rest, h₂) = >>=-eq-ok (concat_result f tasks) _ h₁ in
    let (agents, listed, made) = >>=-eq-ok (agents_of snap t.id) _ here in
    record {
      agents = agents;
      head = y;
      tail = zs;
      listed = listed;
      made = made;
      rest = rest;
      parts = ok-injective h₂;
    }

module _ (a : ℕ) where
  count-pairs :
      (agents : List ℕ)
      → count (λ b. b == a) (take 1 agents) + count (λ (p : ℕ × ℕ). p.1 == a) (pairs agents)
        ≡ count (λ b. b == a) agents
  count-pairs [] = refl
  count-pairs (x ∷ []) = omega arith
  count-pairs (x ∷ y ∷ agents) = ground (arith, count-pairs (y ∷ agents))

  starts-edge_to :
      (kind : EdgeKind) (source : NodeRef) (started : ℕ → Option ℕ) (b : ℕ) (e : Edge)
      → is_start kind ≡ true
      → edge_to kind source started b ≡ ok e
      → starts a e ≡ (b == a)
  starts-edge_to kind source started b e k h =
      let (ts, at, h₁) = >>=-eq-ok (require key_error (started b)) _ h in
      ap (starts a) (sym (ok-injective h₁)) ∙ rw k refl

  agent_node-id :
      (snap : Snapshot) (task b : ℕ) (n : AgentNode)
      → agent_node snap task b ≡ ok n
      → (n.id == a) ≡ (b == a)
  unfolding agent_node
  agent_node-id snap task b n h =
      let (events, e₁, h₁) = >>=-eq-ok (events_in snap b) _ h in
      let (newest, e₂, h₂) = >>=-eq-ok (require index_error (last events)) _ h₁ in
      let (oldest, e₃, h₃) = >>=-eq-ok (require index_error (first events)) _ h₂ in
      ap (λ (n : AgentNode). n.id == a) (sym (ok-injective h₃))

  module _ (snap : Snapshot) (started : ℕ → Option ℕ) (t : HarnessTask) (agents : List ℕ) where
    task-nodes :
        (nodes : List AgentNode)
        → map_result (agent_node snap t.id) agents ≡ ok nodes
        → count (λ (n : AgentNode). n.id == a) nodes ≡ count (λ b. b == a) agents
    task-nodes nodes h =
        count-map_result (agent_node snap t.id) (λ (n : AgentNode). n.id == a) (λ b. b == a)
          (agent_node-id snap t.id) agents nodes h

    task-spawned :
        (edges : List Edge)
        → map_result (edge_to EdgeKind.spawned (task_ref t.id) started) (take 1 agents) ≡ ok edges
        → count (starts a) edges ≡ count (λ b. b == a) (take 1 agents)
    task-spawned edges h =
        count-map_result (edge_to EdgeKind.spawned (task_ref t.id) started) (starts a) (λ b. b == a)
          (λ b e made. starts-edge_to EdgeKind.spawned (task_ref t.id) started b e refl made)
          (take 1 agents) edges h

    task-woke :
        (edges : List Edge)
        → map_result
            (λ (p : ℕ × ℕ). edge_to EdgeKind.woke (agent_ref p.0) started p.1)
            (pairs agents)
          ≡ ok edges
        → count (starts a) edges ≡ count (λ (p : ℕ × ℕ). p.1 == a) (pairs agents)
    task-woke edges h =
        count-map_result (λ (p : ℕ × ℕ). edge_to EdgeKind.woke (agent_ref p.0) started p.1)
          (starts a) (λ (p : ℕ × ℕ). p.1 == a)
          (λ p e made. starts-edge_to EdgeKind.woke (agent_ref p.0) started p.1 e refl made)
          (pairs agents) edges h

    task-counts :
        (nodes : List AgentNode) (spawns wakes : List Edge)
        → map_result (agent_node snap t.id) agents ≡ ok nodes
        → map_result (edge_to EdgeKind.spawned (task_ref t.id) started) (take 1 agents) ≡ ok spawns
        → map_result
            (λ (p : ℕ × ℕ). edge_to EdgeKind.woke (agent_ref p.0) started p.1)
            (pairs agents)
          ≡ ok wakes
        → count (starts a) spawns + count (starts a) wakes
          ≡ count (λ (n : AgentNode). n.id == a) nodes
    task-counts nodes spawns wakes hn hs hw =
        omega (
          arith,
          task-nodes nodes hn,
          task-spawned spawns hs,
          task-woke wakes hw,
          count-pairs agents,
        )

  sum_up :
      (nodes₁ nodes₂ : List AgentNode) (spawns₁ spawns₂ wakes₁ wakes₂ : List Edge)
      → count (starts a) spawns₁ + count (starts a) wakes₁
        ≡ count (λ (n : AgentNode). n.id == a) nodes₁
      → count (starts a) spawns₂ + count (starts a) wakes₂
        ≡ count (λ (n : AgentNode). n.id == a) nodes₂
      → count (starts a) (spawns₁ ++ spawns₂) + count (starts a) (wakes₁ ++ wakes₂)
        ≡ count (λ (n : AgentNode). n.id == a) (nodes₁ ++ nodes₂)
  sum_up nodes₁ nodes₂ spawns₁ spawns₂ wakes₁ wakes₂ h₁ h₂ =
      rw (count-append (starts a) spawns₁ spawns₂) (
        rw (count-append (starts a) wakes₁ wakes₂)
          (rw (count-append (λ (n : AgentNode). n.id == a) nodes₁ nodes₂) (omega (arith, h₁, h₂))))

  -- The edges that start an agent are as many as its nodes.
  pub starts-nodes :
      (snap : Snapshot) (started : ℕ → Option ℕ) (tasks : List HarnessTask) (nodes : List AgentNode)
      (spawns wakes : List Edge)
      → agent_nodes snap tasks ≡ ok nodes
      → spawned snap started tasks ≡ ok spawns
      → woke snap started tasks ≡ ok wakes
      → count (starts a) spawns + count (starts a) wakes
        ≡ count (λ (n : AgentNode). n.id == a) nodes
  unfolding agent_nodes spawned woke
  starts-nodes snap started [] nodes spawns wakes hn hs hw =
      rw (← ok-injective hn) (rw (← ok-injective hs) (rw (← ok-injective hw) refl))
  starts-nodes snap started (t ∷ tasks) nodes spawns wakes hn hs hw =
      let n = taken snap (λ l. l) (λ t. agent_node snap t.id) t tasks nodes hn in
      let s =
        taken snap (take 1) (λ t. edge_to EdgeKind.spawned (task_ref t.id) started) t tasks spawns
          hs in
      let w =
        taken snap pairs (λ t p. edge_to EdgeKind.woke (agent_ref p.0) started p.1) t tasks wakes
          hw in
      let same_s : s.agents ≡ n.agents = ok-injective (sym s.listed ∙ n.listed) in
      let same_w : w.agents ≡ n.agents = ok-injective (sym w.listed ∙ n.listed) in
      let here =
        task-counts snap started t n.agents n.head s.head w.head n.made
          (subst
            (λ l.
              map_result (edge_to EdgeKind.spawned (task_ref t.id) started) (take 1 l) ≡ ok s.head)
            same_s s.made)
          (subst
            (λ l.
              map_result (λ (p : ℕ × ℕ). edge_to EdgeKind.woke (agent_ref p.0) started p.1)
                (pairs l)
              ≡ ok w.head)
            same_w w.made) in
      let rest = starts-nodes snap started tasks n.tail s.tail w.tail n.rest s.rest w.rest in
      rw (← n.parts) (
        rw (← s.parts)
          (rw (← w.parts) (sum_up n.head n.tail s.head s.tail w.head w.tail here rest)))

  pub count-called : (calls : List ToolCallNode) → count (starts a) (called calls) ≡ 0
  unfolding called
  count-called [] = refl
  count-called (c ∷ calls) = count-called calls

  pub count-delegated : (snap : Snapshot) → count (starts a) (delegated snap) ≡ 0
  unfolding delegated
  count-delegated snap = go (select (λ t. has_key t.parent_agent snap.task_by_agent) snap.tasks)
    where
      go :
          (tasks : List HarnessTask)
          → count (starts a) (
              map
                (λ (t : HarnessTask). record {
                  kind = EdgeKind.delegated;
                  source = agent_ref t.parent_agent;
                  target = task_ref t.id;
                  ts = t.created;
                })
                tasks)
            ≡ 0
      go [] = refl
      go (t ∷ tasks) = go tasks

  pub count-collected :
      (task_of_arguments : String → Result ℕ) (uses : List Use) (edges : List Edge)
      → collected task_of_arguments uses ≡ ok edges
      → count (starts a) edges ≡ 0
  unfolding collected
  count-collected task_of_arguments uses edges h =
      count-map_result _ (starts a) (λ _. false)
        (λ u e made.
          let (task, _, h₁) = >>=-eq-ok (task_of_arguments u.use_block.arguments) _ made in
          ap (starts a) (sym (ok-injective h₁)))
        (select (λ u. same_text u.use_block.name "collect_task") uses) edges h
      ∙ count-none (λ _. false) (λ _. refl)
          (select (λ u. same_text u.use_block.name "collect_task") uses)
