-- ===== src/Bus/Claiming.antt =====
-- `claim` of bus/lifecycle_store.py: on a well-formed bus it never raises, and the agents that it
-- returns are claimed, once each.
use ancalagon.Base.{
  ℕ, pos, ◌<◌, ◌≡◌, refl, true, false, ◌==◌, if-false, List, [], ◌∷◌, map, All, elem, take, arith,
  Bool-cases, inl, inr, ok, ◌∙◌, sym, subst, String,
}
use ancalagon.Base.Order.{IsAscending}
use ancalagon.Base.Keys.{All-take, IsAscending-take}
use ancalagon.Contracts.Status.{AgentStatus, supervisor, AgentEvent, LifecycleLine}
use ancalagon.Attempt.{Attempt, next_state}
use ancalagon.Bus.Rows.{AgentRow, AgentState, Tables, Database}
use ancalagon.Bus.Log.{Store, Reading, attempt, event_row}
use ancalagon.Bus.Queue.{claim_each, publish_each, claimed, claim_first, claim}
use ancalagon.Bus.WellFormed.{
  IsSound, WellFormed, with_event, append_event_legal, append_event-WellFormed,
  attempt-with_event_ne, attempt-with_event_self,
}
use ancalagon.Bus.Publishing.{publish-ok}
use ancalagon.Bus.Waiting.{IsQueue, queued-IsQueue}

-- What is claimed, and what else is as it was.
pub record IsClaimed (states : List AgentState) (t t' : Tables) : Type 0 where
  pub well_formed : WellFormed t'
  pub all_claimed : All (λ s. attempt s.agent t' ≡ ok Attempt.claimed) states
  pub others : (b : ℕ) → elem b (map (λ s. s.agent) states) ≡ false → attempt b t' ≡ attempt b t
  pub same_agents : t'.agents ≡ t.agents
  pub same_tasks : t'.tasks ≡ t.tasks

module _ (db : Database) (now : Reading → ℕ) where
  abbrev claim_event : ℕ → Tables → AgentEvent
  claim_event a t = event_row db now a AgentStatus.claimed supervisor 0 "" (pos 0) t

  legal : next_state Attempt.queued AgentStatus.claimed supervisor 0 ≡ ok Attempt.claimed
  unfolding next_state
  legal = refl

  lt-not_elem : (a : ℕ) (xs : List ℕ) → All (λ i. a < i) xs → elem a xs ≡ false
  lt-not_elem a [] h = refl
  lt-not_elem a (x ∷ xs) h =
      let other : (x == a) ≡ false = ground arith in rw other (lt-not_elem a xs h.1)

  still-queued :
      (e : AgentEvent) (t : Tables) (states : List AgentState)
      → All (λ i. e.agent < i) (map (λ s. s.agent) states)
      → All (λ s. attempt s.agent t ≡ ok Attempt.queued) states
      → All (λ s. attempt s.agent (with_event e t) ≡ ok Attempt.queued) states
  still-queued e t [] b q = tt
  still-queued e t (s ∷ states) b q =
      let other : (e.agent == s.agent) ≡ false = ground arith in
      (attempt-with_event_ne s.agent e t other ∙ q.0, still-queued e t states b.1 q.1)

  claim_each-IsClaimed :
      (states : List AgentState) (t : Tables)
      → WellFormed t
      → IsAscending (map (λ s. s.agent) states)
      → All (λ s. elem s.agent (map (λ r. r.id) t.agents) ≡ true) states
      → All (λ s. attempt s.agent t ≡ ok Attempt.queued) states
      → (t' : Tables) × (claim_each db now states t ≡ (ok tt, t')) × IsClaimed states t t'
  unfolding claim_each
  claim_each-IsClaimed [] t w a m q = (
    t,
    refl,
    record {
      well_formed = w;
      all_claimed = tt;
      others = λ b h. refl;
      same_agents = refl;
      same_tasks = refl;
    },
  )
  claim_each-IsClaimed (s ∷ states) t w a m q =
      let e : AgentEvent = claim_event s.agent t in
      let written =
        append_event_legal db now s.agent AgentStatus.claimed supervisor 0 "" (pos 0) t
          Attempt.queued Attempt.claimed q.0 legal in
      let w₁ =
        append_event-WellFormed db now s.agent AgentStatus.claimed supervisor 0 "" (pos 0) t
          (with_event e t) m.0 w written in
      let (t', done, c) =
        claim_each-IsClaimed states (with_event e t) w₁ a.1 m.1 (still-queued e t states a.0 q.1) in
      (
        t',
        rw written done,
        record {
          well_formed = c.well_formed;
          all_claimed = (
            c.others s.agent (lt-not_elem s.agent (map (λ s. s.agent) states) a.0)
                ∙ attempt-with_event_self e t Attempt.queued Attempt.claimed q.0 legal,
            c.all_claimed,
          );
          others = λ b h. elim (Bool-cases (s.agent == b)) [
            | inl same ↦ absurd (ground arith)
            | inr other ↦ c.others b (rw other at h) ∙ attempt-with_event_ne b e t other
          ];
          same_agents = c.same_agents;
          same_tasks = c.same_tasks;
        },
      )

-- The second loop sends its lines: each agent has a task, and the task a directory.
publish_each-ok :
    (states : List AgentState) (s : Store)
    → IsSound s.tables
    → All (λ x. elem x.agent (map (λ r. r.id) s.tables.agents) ≡ true) states
    → (out : List (LifecycleLine × String)) × (publish_each states s
        ≡ (ok tt, record s { published = out }))
unfolding publish_each
publish_each-ok [] s w m = (s.published, refl)
publish_each-ok (x ∷ states) s w m =
    let (out, sent) = publish-ok x.agent AgentStatus.claimed supervisor 0 "" s w m.0 in
    let (out', rest) = publish_each-ok states (record s { published = out }) w m.1 in
    (out', simp sent rest)

-- On a well-formed bus with no transaction open, `claim` raises nothing. It returns the first agents
-- that are queued, as many as `limit` allows, has claimed each of them, leaves every other agent's
-- state as it was, and leaves the bus well-formed with its transaction closed.
pub claim_total :
    (db : Database) (now : Reading → ℕ) (limit : ℕ) (s : Store)
    → WellFormed s.tables
    → s.begun ≡ false
    → (states : List AgentState) × (s' : Store) × IsQueue s.tables s.tables.agents states
      × (claim db now limit s ≡ (ok (take limit states), s'))
      × IsClaimed (take limit states) s.tables s'.tables
      × (s'.begun ≡ false)
unfolding claim claim_first claimed
claim_total db now limit s w open' =
    let (states, found, q) = queued-IsQueue s.tables w.sound in
    let listed =
      All-take (λ x. elem x.agent (map (λ r. r.id) s.tables.agents) ≡ true) limit states q.listed in
    let (t', written, c) =
      claim_each-IsClaimed db now (take limit states) s.tables w
        (IsAscending-take (λ x. x.agent) limit states q.ascend) listed
        (All-take (λ x. attempt x.agent s.tables ≡ ok Attempt.queued) limit states q.all_queued) in
    let (out, sent) =
      publish_each-ok (take limit states) (record s { tables = t' }) c.well_formed.sound
        (subst
          (λ (ags : List AgentRow).
            All (λ x. elem x.agent (map (λ r. r.id) ags) ≡ true) (take limit states))
          (sym c.same_agents) listed) in
    (
      states,
      record s { tables = t'; published = out },
      q,
      if-false _ _ open' ∙ rw found (rw written (rw sent refl)),
      c,
      open',
    )
