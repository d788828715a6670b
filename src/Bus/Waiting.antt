-- ===== src/Bus/Waiting.antt =====
-- `_queued` of bus/lifecycle_store.py: its join and its filter name the agents that are queued.
use ancalagon.Base.{
  ℕ, ◌<◌, ◌≡◌, refl, Bool, true, false, ◌==◌, ==_refl, ==_iff, if◌then◌else◌, List, [], ◌∷◌, ◌++◌,
  map, All, find, select, some, none, Option, elem, max?, max, arith, Bool-cases, inl, inr, ◌⊎◌,
  Result, ok, raise, ◌∙◌, ap, ◌>>=◌, sym,
}
use ancalagon.Base.Order.{IsAscending, All-mono}
use ancalagon.Base.Keys.{find-key}
use ancalagon.Contracts.Status.{AgentStatus, AgentEvent, HarnessTask, same_status}
use ancalagon.Attempt.{Attempt}
use ancalagon.Attempt.Folds.{attempt_of-Told}
use ancalagon.Bus.Rows.{AgentRow, AgentState, Tables}
use ancalagon.Bus.Log.{history, attempt}
use ancalagon.Bus.Queue.{
  is_queued, waiting_row, latest_event_row, latest_queued, still_queued, queued,
}
use ancalagon.Bus.WellFormed.{IsSound}

-- What a list of states says of the rows that it was made from: every agent that is queued and no
-- other, in order, each with the directory of its task.
pub record IsQueue (t : Tables) (rows : List AgentRow) (states : List AgentState) : Type 0 where
  pub all_queued : All (λ s. attempt s.agent t ≡ ok Attempt.queued) states
  pub within :
      (b : ℕ)
      → All (λ i. b < i) (map (λ r. r.id) rows)
      → All (λ i. b < i) (map (λ s. s.agent) states)
  pub ascend : IsAscending (map (λ s. s.agent) states)
  pub listed : All (λ s. elem s.agent (map (λ r. r.id) rows) ≡ true) states
  pub complete :
      (a : ℕ)
      → elem a (map (λ r. r.id) rows) ≡ true
      → attempt a t ≡ ok Attempt.queued
      → elem a (map (λ s. s.agent) states) ≡ true

is_queued→eq : (x : Attempt) → is_queued x ≡ true → x ≡ Attempt.queued
is_queued→eq x h = ground arith

not_queued : (x : Attempt) → ok x ≡ ok Attempt.queued → is_queued x ≡ false → ⊥
not_queued x e h = ground arith

one_of :
    (l : List AgentEvent)
    → map (λ e. e.status) l ≡ AgentStatus.queued ∷ []
    → (e : AgentEvent) × (l ≡ e ∷ []) × (e.status ≡ AgentStatus.queued)
one_of [] h = absurd (ground arith)
one_of (e ∷ []) h = (e, refl, ground arith)
one_of (e ∷ f ∷ l) h = absurd (ground arith)

find-select :
    (test : AgentEvent → Bool) (l rest : List AgentEvent) (e : AgentEvent)
    → select test l ≡ e ∷ rest
    → find test l ≡ some e
find-select test [] rest e h = absurd (ground arith)
find-select test (x ∷ l) rest e h = elim (Bool-cases (test x)) [
  | inl found ↦ ground arith
  | inr other ↦ rw other (find-select test l rest e (rw other at h))
]

abbrev state_of : AgentRow → HarnessTask → AgentState
state_of row k = record { agent = row.id; task = row.task; dir = k.dir }

module _ (t : Tables) (row : AgentRow) where
  abbrev row_states : List AgentState
  row_states =
      waiting_row row (find (λ k. k.id == row.task) t.tasks)
        (latest_event_row t (max? (map (λ e. e.id) (history row.id t))))

  module _ (k : HarnessTask) (placed : find (λ k. k.id == row.task) t.tasks ≡ some k) where
    row_states-cases : (row_states ≡ []) ⊎ (row_states ≡ state_of row k ∷ [])
    unfolding waiting_row
    row_states-cases =
        rw placed (go (latest_event_row t (max? (map (λ e. e.id) (history row.id t)))))
      where
        go :
            (o : Option AgentEvent)
            → (waiting_row row (some k) o ≡ []) ⊎ (waiting_row row (some k) o ≡ state_of row k ∷ [])
        go none = inl refl
        go (some e) = elim (Bool-cases (same_status e.status AgentStatus.queued)) [
          | inl same ↦ inr (rw same)
          | inr other ↦ inl (rw other)
        ]

    -- A queued agent has one event, so the event of the greatest id is that one.
    row_states-queued :
        IsAscending (map (λ e. e.id) t.events)
        → attempt row.id t ≡ ok Attempt.queued
        → row_states ≡ state_of row k ∷ []
    unfolding waiting_row latest_event_row attempt history
    row_states-queued ascend q =
        let (e, one, is_q) =
          one_of (history row.id t) (attempt_of-Told (history row.id t) Attempt.queued q) in
        let found : find (λ x. x.id == e.id) t.events ≡ some e =
          find-key (λ x. x.id) (λ x. x.agent == row.id) t.events ascend
            (find-select (λ x. x.agent == row.id) t.events [] e one) in
        let greatest : max e.id 0 ≡ e.id = omega arith in
        rw placed (rw one (rw greatest (rw found (rw is_q refl))))

-- Which rows the queries skip, the filter would skip too.
still_queued-row :
    (t : Tables) (row : AgentRow) (k : HarnessTask) (x : Attempt) (rest : List AgentState)
    → find (λ k. k.id == row.task) t.tasks ≡ some k
    → IsAscending (map (λ e. e.id) t.events)
    → attempt row.id t ≡ ok x
    → still_queued t (row_states t row ++ rest) ≡ (
        still_queued t rest >>= λ states.
        ok (if is_queued x then state_of row k ∷ states else states))
unfolding still_queued
still_queued-row t row k x rest placed ascend at = elim (Bool-cases (is_queued x)) [
  | inl is ↦
      let q : attempt row.id t ≡ ok Attempt.queued = at ∙ ap ok (is_queued→eq x is) in
      rw (row_states-queued t row k placed ascend q) (rw at refl)
  | inr isnt ↦ elim (row_states-cases t row k placed) [
    | inl none' ↦ rw none' (rw isnt (sym (again (still_queued t rest))))
    | inr one ↦ rw one (rw at refl)
  ]
]
  where
    again : (r : Result (List AgentState)) → (r >>= λ states. ok states) ≡ r
    again (ok a) = refl
    again (raise e) = refl

elem-head : (a : ℕ) (xs : List ℕ) → elem a (a ∷ xs) ≡ true
elem-head a xs = rw (==_refl a)

wider :
    (row : AgentRow) (rows : List AgentRow) (states : List AgentState)
    → All (λ s. elem s.agent (map (λ r. r.id) rows) ≡ true) states
    → All (λ s. elem s.agent (map (λ r. r.id) (row ∷ rows)) ≡ true) states
wider row rows states h =
    All-mono (λ s. elem s.agent (map (λ r. r.id) rows) ≡ true) (λ s e. ground (arith, e)) states h

module _ (t : Tables) (w : IsSound t) where
  states_of :
      (rows : List AgentRow)
      → All (λ r. (k : HarnessTask) × (find (λ k. k.id == r.task) t.tasks ≡ some k)) rows
      → IsAscending (map (λ r. r.id) rows)
      → (states : List AgentState) × (still_queued t (latest_queued t rows) ≡ ok states)
        × IsQueue t rows states
  unfolding still_queued latest_queued
  states_of [] p a = (
    [],
    refl,
    record { all_queued = tt; within = λ b h. tt; ascend = tt; listed = tt; complete = λ a h q. h },
  )
  states_of (row ∷ rows) ((k, placed), p) a =
      let (states, e, i) = states_of rows p a.1 in
      let (x, at) = w.folds row.id in
      let step = still_queued-row t row k x (latest_queued t rows) placed w.events_ascend at in
      elim (Bool-cases (is_queued x)) [
        | inl is ↦ (
          state_of row k ∷ states,
          step ∙ rw e (rw is refl),
          record {
            all_queued = (at ∙ ap ok (is_queued→eq x is), i.all_queued);
            within = λ b h. (h.0, i.within b h.1);
            ascend = (i.within row.id a.0, i.ascend);
            listed = (elem-head row.id (map (λ r. r.id) rows), wider row rows states i.listed);
            complete = λ b h q. elim (Bool-cases (row.id == b)) [
              | inl same ↦ rw same
              | inr other ↦ rw other (i.complete b (rw other at h) q)
            ];
          },
        )
        | inr isnt ↦ (
          states,
          step ∙ rw e (rw isnt refl),
          record {
            all_queued = i.all_queued;
            within = λ b h. i.within b h.1;
            ascend = i.ascend;
            listed = wider row rows states i.listed;
            complete = λ b h q. elim (Bool-cases (row.id == b)) [
              | inl same ↦ absurd (
                  not_queued x (sym at ∙ ap (λ i. attempt i t) ((==_iff row.id b).0 same) ∙ q) isnt)
              | inr other ↦ i.complete b (rw other at h) q
            ];
          },
        )
      ]

-- On sound tables `_queued` raises nothing, and names the agents whose attempt is queued, all of them
-- and no other, in ascending order.
pub queued-IsQueue :
    (t : Tables)
    → IsSound t
    → (states : List AgentState) × (queued t ≡ ok states) × IsQueue t t.agents states
unfolding queued
queued-IsQueue t w = states_of t w t.agents w.placed w.agents_ascend
