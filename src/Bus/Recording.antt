-- ===== src/Bus/Recording.antt =====
-- `record` of bus/lifecycle_store.py, on every branch.
use ancalagon.Base.{
  ℕ, ℤ, String, ◌≡◌, refl, true, false, ◌==◌, if-false, map, elem, Result, ok, raise, Exception,
  ◌∙◌,
}
use ancalagon.Contracts.Status.{AgentStatus, EventSource, AgentEvent}
use ancalagon.Attempt.{Attempt, next_state}
use ancalagon.Bus.Rows.{Database}
use ancalagon.Bus.Log.{Store, Reading, attempt, event_row, append_event, record_status}
use ancalagon.Bus.Publishing.{publish-ok}
use ancalagon.Bus.WellFormed.{
  WellFormed, with_event, append_event_legal, append_event-WellFormed, attempt-with_event_ne,
  attempt-with_event_self,
}

-- What a recorded event leaves behind: the agent in its next state, and the others as they were.
pub record IsRecorded (a : ℕ) (y : Attempt) (s s' : Store) : Type 0 where
  pub well_formed : WellFormed s'.tables
  pub closed : s'.begun ≡ false
  pub moved : attempt a s'.tables ≡ ok y
  pub others : (b : ℕ) → (a == b) ≡ false → attempt b s'.tables ≡ attempt b s.tables

module _ (db : Database) (now : Reading → ℕ) (a : ℕ) (status : AgentStatus) (source : EventSource)
    (pid : ℕ) (summary : String) (seen : ℤ) (s : Store) where
  abbrev does : Result (Unit {0}) × Store
  does = record_status db now a status source pid summary seen s

  -- What `record` does by what the transition table says.
  abbrev pub Does : Result Attempt → Type 0
  Does (raise e) = record_status db now a status source pid summary seen s ≡ (raise e, s)
  Does (ok y) =
      (s' : Store) × (record_status db now a status source pid summary seen s ≡ (ok tt, s'))
      × IsRecorded a y s s'

  refused :
      (x : Attempt) (e : Exception)
      → s.begun ≡ false
      → attempt a s.tables ≡ ok x
      → next_state x status source pid ≡ raise e
      → record_status db now a status source pid summary seen s ≡ (raise e, s)
  unfolding record_status append_event
  refused x e open' at not = if-false _ _ open' ∙ rw at (rw not refl)

  accepted :
      (x y : Attempt)
      → WellFormed s.tables
      → s.begun ≡ false
      → elem a (map (λ r. r.id) s.tables.agents) ≡ true
      → attempt a s.tables ≡ ok x
      → next_state x status source pid ≡ ok y
      → (s' : Store) × (record_status db now a status source pid summary seen s ≡ (ok tt, s'))
        × IsRecorded a y s s'
  unfolding record_status
  accepted x y w open' m at legal =
      let e : AgentEvent = event_row db now a status source pid summary seen s.tables in
      let t' = with_event e s.tables in
      let written =
        append_event_legal db now a status source pid summary seen s.tables x y at legal in
      let w' =
        append_event-WellFormed db now a status source pid summary seen s.tables t' m w written in
      let (out, sent) =
        publish-ok a status source pid summary (record s { tables = t' }) w'.sound m in
      (
        record s { tables = t'; published = out },
        if-false _ _ open' ∙ rw written (rw sent refl),
        record {
          well_formed = w';
          closed = open';
          moved = attempt-with_event_self e s.tables x y at legal;
          others = λ b other. attempt-with_event_ne b e s.tables other;
        },
      )

-- On a well-formed bus with no transaction open, for an agent of the table: where the transition
-- table refuses the status, `record` raises what the table raises and changes nothing; where it
-- allows it, `record` returns, the agent is in the state that the table gives, every other agent is
-- as it was, and the bus is well-formed with its transaction closed.
pub record_status-next_state :
    (db : Database) (now : Reading → ℕ) (a : ℕ) (status : AgentStatus) (source : EventSource)
    (pid : ℕ) (summary : String) (seen : ℤ) (s : Store) (x : Attempt)
    → WellFormed s.tables
    → s.begun ≡ false
    → elem a (map (λ r. r.id) s.tables.agents) ≡ true
    → attempt a s.tables ≡ ok x
    → Does db now a status source pid summary seen s (next_state x status source pid)
record_status-next_state db now a status source pid summary seen s x w open' m at =
    go (next_state x status source pid) refl
  where
    go :
        (r : Result Attempt)
        → next_state x status source pid ≡ r
        → Does db now a status source pid summary seen s r
    go (raise e) not = refused db now a status source pid summary seen s x e open' at not
    go (ok y) legal = accepted db now a status source pid summary seen s x y w open' m at legal
