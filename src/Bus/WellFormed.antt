-- ===== src/Bus/WellFormed.antt =====
-- The invariant of the bus's tables, which every transaction keeps.
use ancalagon.Base.{
  ℕ, ℤ, ◌<◌, String, ◌≡◌, ◌≢◌, refl, true, false, ◌==◌, ==_refl, ==_iff, List, [], ◌∷◌, ◌++◌, map,
  All, find, select-append, some, elem, arith, Bool-cases, inl, inr, ok, text_length-take_text, ◌∙◌,
  ap, >>=-eq-ok, sym, subst,
}
use mathlib.Core.List.{append-nil, map-append}
use ancalagon.Base.Order.{IsAscending, IsAscending-snoc, All-append, All-mono}
use ancalagon.Contracts.Status.{AgentStatus, EventSource, AgentEvent, HarnessTask}
use ancalagon.Attempt.{Attempt, next_state, attempt_of}
use ancalagon.Attempt.Table.{
  Legal, enqueue, claim, spawn, speak, lose, abandon, collect_closed, collect_lost,
  next_state-Legal,
}
use ancalagon.Attempt.Folds.{attempt_of-snoc}
use ancalagon.Bus.Rows.{AgentRow, Tables, Database}
use ancalagon.Bus.Log.{Reading, history, attempt, event_row, append_event}

-- All of it but that each agent has its first event, which `enqueue` breaks for a moment.
pub record IsSound (t : Tables) : Type 0 where
  -- every history folds: no illegal transition was ever written
  pub folds : (a : ℕ) → (x : Attempt) × (attempt a t ≡ ok x)
  -- events are of agents, agents are of tasks
  pub known : All (λ e. elem e.agent (map (λ r. r.id) t.agents) ≡ true) t.events
  pub placed : All (λ r. (k : HarnessTask) × (find (λ k. k.id == r.task) t.tasks ≡ some k)) t.agents
  pub tasks_ascend : IsAscending (map (λ k. k.id) t.tasks)
  pub agents_ascend : IsAscending (map (λ r. r.id) t.agents)
  pub events_ascend : IsAscending (map (λ e. e.id) t.events)

pub record WellFormed (t : Tables) : Type 0 where
  pub sound : IsSound t
  pub open sound use *
  pub begun : All (λ r. attempt r.id t ≢ ok Attempt.nascent) t.agents

abbrev pub with_event : AgentEvent → Tables → Tables
with_event e t = record t { events = t.events ++ e ∷ [] }

-- An event of another agent leaves a history as it was.
pub attempt-with_event_ne :
    (a : ℕ) (e : AgentEvent) (t : Tables)
    → (e.agent == a) ≡ false
    → attempt a (with_event e t) ≡ attempt a t
unfolding attempt
attempt-with_event_ne a e t h =
    ap attempt_of
      (select-append (λ x. x.agent == a) t.events (e ∷ []) ∙ rw h (append-nil (history a t)))

pub attempt-with_event_eq :
    (a : ℕ) (e : AgentEvent) (t : Tables) (x : Attempt)
    → (e.agent == a) ≡ true
    → attempt a t ≡ ok x
    → attempt a (with_event e t) ≡ next_state x e.status e.source e.pid
unfolding attempt
attempt-with_event_eq a e t x h folded =
    ap attempt_of (select-append (λ y. y.agent == a) t.events (e ∷ []) ∙ rw h refl)
    ∙ attempt_of-snoc (history a t) e x folded

module _ (db : Database) (now : Reading → ℕ) where
  -- The truncated summary fits the schema's check, so a legal event is always written.
  pub append_event_legal :
      (a : ℕ) (s : AgentStatus) (src : EventSource) (pid : ℕ) (summary : String) (seen : ℤ)
      (t : Tables) (x y : Attempt)
      → attempt a t ≡ ok x
      → next_state x s src pid ≡ ok y
      → append_event db now a s src pid summary seen t
        ≡ ok (with_event (event_row db now a s src pid summary seen t) t)
  unfolding append_event
  append_event_legal a s src pid summary seen t x y folded legal =
      rw folded (rw legal (ground (arith, text_length-take_text 1000 summary)))

  -- What a successful write found and wrote.
  pub append_event-eq-ok :
      (a : ℕ) (s : AgentStatus) (src : EventSource) (pid : ℕ) (summary : String) (seen : ℤ)
      (t t' : Tables)
      → append_event db now a s src pid summary seen t ≡ ok t'
      → (x y : Attempt) × (attempt a t ≡ ok x)
        × (next_state x s src pid ≡ ok y)
        × (t' ≡ with_event (event_row db now a s src pid summary seen t) t)
  unfolding append_event
  append_event-eq-ok a s src pid summary seen t t' h =
      let (x, folded, h₁) = >>=-eq-ok (attempt a t) _ h in
      let (y, legal, h₂) = >>=-eq-ok (next_state x s src pid) _ h₁ in
      (x, y, folded, legal, ground (arith, text_length-take_text 1000 summary))

Legal-ne-nascent :
    {x y : Attempt} {s : AgentStatus} {src : EventSource} {pid : ℕ}
    → Legal x s src pid y
    → y ≢ Attempt.nascent
Legal-ne-nascent (enqueue p) h = cc
Legal-ne-nascent (claim p) h = cc
Legal-ne-nascent (spawn p) h = cc
Legal-ne-nascent (speak s q p v) h = cc
Legal-ne-nascent (lose s q p v) h = cc
Legal-ne-nascent (abandon s p v) h = cc
Legal-ne-nascent (collect_closed s p) h = cc
Legal-ne-nascent (collect_lost s p) h = cc

next_state-ne-nascent :
    (x : Attempt) (s : AgentStatus) (src : EventSource) (pid : ℕ)
    → next_state x s src pid ≢ ok Attempt.nascent
next_state-ne-nascent x s src pid h =
    Legal-ne-nascent ((next_state-Legal x s src pid Attempt.nascent).0 h) refl

module _ (e : AgentEvent) (t : Tables) (x y : Attempt) (found : attempt e.agent t ≡ ok x)
    (legal : next_state x e.status e.source e.pid ≡ ok y) where
  pub attempt-with_event_self : attempt e.agent (with_event e t) ≡ ok y
  attempt-with_event_self = attempt-with_event_eq e.agent e t x (==_refl e.agent) found ∙ legal

  with_event-folds :
      ((a : ℕ) → (z : Attempt) × (attempt a t ≡ ok z))
      → (a : ℕ) → (z : Attempt) × (attempt a (with_event e t) ≡ ok z)
  with_event-folds folds a = elim (Bool-cases (e.agent == a)) [
    | inl same ↦ (y, rw (← (==_iff e.agent a).0 same) attempt-with_event_self)
    | inr other ↦ let (z, h) = folds a in (z, attempt-with_event_ne a e t other ∙ h)
  ]

  pub with_event-IsSound :
      elem e.agent (map (λ r. r.id) t.agents) ≡ true
      → All (λ i. i < e.id) (map (λ e. e.id) t.events)
      → IsSound t
      → IsSound (with_event e t)
  with_event-IsSound is_agent above w = record {
    folds = with_event-folds w.folds;
    known =
        All-append (λ z. elem z.agent (map (λ r. r.id) t.agents) ≡ true) t.events (e ∷ []) w.known
          (is_agent, tt);
    placed = w.placed;
    tasks_ascend = w.tasks_ascend;
    agents_ascend = w.agents_ascend;
    events_ascend =
        rw map-append (IsAscending-snoc (map (λ e. e.id) t.events) e.id w.events_ascend above);
  }

  -- An agent has begun once it has an event, be it this one.
  pub with_event-begun :
      (rows : List AgentRow)
      → All (λ r. (e.agent == r.id) ≡ false → attempt r.id t ≢ ok Attempt.nascent) rows
      → All (λ r. attempt r.id (with_event e t) ≢ ok Attempt.nascent) rows
  with_event-begun [] h = tt
  with_event-begun (r ∷ rows) h = (begins, with_event-begun rows h.1)
    where
      begins : attempt r.id (with_event e t) ≢ ok Attempt.nascent
      begins n = elim (Bool-cases (e.agent == r.id)) [
        | inl same ↦ next_state-ne-nascent x e.status e.source e.pid (
            legal
            ∙ sym attempt-with_event_self
            ∙ subst (λ b. attempt b (with_event e t) ≡ ok Attempt.nascent)
                (sym ((==_iff e.agent r.id).0 same)) n)
        | inr other ↦ h.0 other (sym (attempt-with_event_ne r.id e t other) ∙ n)
      ]

-- A recorded event keeps the invariant, whoever records it, if it is of an agent of the table.
pub append_event-WellFormed :
    (db : Database) (now : Reading → ℕ) (a : ℕ) (s : AgentStatus) (src : EventSource) (pid : ℕ)
    (summary : String) (seen : ℤ) (t t' : Tables)
    → elem a (map (λ r. r.id) t.agents) ≡ true
    → WellFormed t
    → append_event db now a s src pid summary seen t ≡ ok t'
    → WellFormed t'
append_event-WellFormed db now a s src pid summary seen t t' is_agent w h =
    let e : AgentEvent = event_row db now a s src pid summary seen t in
    let (x, y, found, legal, eq) = append_event-eq-ok db now a s src pid summary seen t t' h in
    subst WellFormed (sym eq) (record {
      sound =
          with_event-IsSound e t x y found legal is_agent
            (db.new_id_above (map (λ e. e.id) t.events)) w.sound;
      begun =
          with_event-begun e t x y found legal t.agents
            (All-mono (λ r. attempt r.id t ≢ ok Attempt.nascent) (λ r n _. n) t.agents w.begun);
    })
