-- ===== src/Bus/Enqueueing.antt =====
-- `enqueue` of bus/lifecycle_store.py: on a well-formed bus it never raises, and queues a new agent
-- for the task of its directory.
use ancalagon.Base.{
  ℕ, pos, String, FilePath, same_path, same_path_iff, name_of, take_text, ◌≡◌, ◌≢◌, refl, true,
  false, ◌==◌, ==_refl, if-false, List, [], ◌∷◌, ◌++◌, map, All, find, some, none, Option, elem,
  arith, ok, ◌∙◌, ap, sym, subst,
}
use mathlib.Core.List.{map-append}
use ancalagon.Base.Order.{
  IsAscending, IsAscending-snoc, All-append, All-mono, elem-lt, find-append_some, find-test,
}
use ancalagon.Base.Keys.{select-nil, find-key, find-key_snoc, elem-key_snoc, elem-key_append}
use ancalagon.Contracts.Status.{AgentStatus, supervisor, AgentEvent, HarnessTask, LifecycleLine}
use ancalagon.Attempt.{Attempt, next_state, attempt_of, fold_from}
use ancalagon.Bus.Rows.{AgentRow, Tables, Database}
use ancalagon.Bus.Log.{
  Store, Reading, for_task, for_agent, attempt, dir_of, publish, event_row, append_event,
}
use ancalagon.Bus.Queue.{inserted_task, insert_task, insert_agent, enqueued, enqueue}
use ancalagon.Bus.WellFormed.{
  IsSound, WellFormed, with_event, append_event_legal, attempt-with_event_ne,
  attempt-with_event_self, with_event-IsSound, with_event-begun,
}

-- The row of the task is there, it has the directory, and nothing else has changed.
record IsTasked (dir : FilePath) (t : Tables) (r : ℕ × Tables) : Type 0 where
  row : HarnessTask
  at_dir : row.dir ≡ dir
  by_id : find (λ k. k.id == r.0) r.1.tasks ≡ some row
  ascend : IsAscending (map (λ k. k.id) r.1.tasks)
  kept :
      (i : ℕ) (k : HarnessTask)
      → find (λ k. k.id == i) t.tasks ≡ some k
      → find (λ k. k.id == i) r.1.tasks ≡ some k
  same : r.1 ≡ record t { tasks = r.1.tasks }

module _ (db : Database) (now : Reading → ℕ) (dir : FilePath) (parent : ℕ) (t : Tables) where
  inserted_task-IsTasked :
      (o : Option HarnessTask)
      → find (λ k. same_path k.dir dir) t.tasks ≡ o
      → IsAscending (map (λ k. k.id) t.tasks)
      → IsTasked dir t (inserted_task db now dir parent t o)
  unfolding inserted_task
  inserted_task-IsTasked (some k) e a = record {
    row = k;
    at_dir = (same_path_iff k.dir dir).0 (find-test (λ k. same_path k.dir dir) t.tasks k e);
    by_id = find-key (λ k. k.id) (λ k. same_path k.dir dir) t.tasks a e;
    ascend = a;
    kept = λ i k h. h;
    same = refl;
  }
  inserted_task-IsTasked none e a =
      let id = db.new_id (map (λ k. k.id) t.tasks) in
      let above = db.new_id_above (map (λ k. k.id) t.tasks) in
      let row : HarnessTask = record {
        id = id;
        dir = dir;
        parent_agent = parent;
        created = now (for_task id);
      } in
      record {
        row = row;
        at_dir = refl;
        by_id = find-key_snoc (λ k. k.id) t.tasks row above;
        ascend = rw map-append (IsAscending-snoc (map (λ k. k.id) t.tasks) id a above);
        kept = λ i k h. find-append_some (λ k. k.id == i) t.tasks (row ∷ []) k h;
        same = refl;
      }

IsTasked-IsSound :
    (dir : FilePath) (t : Tables) (r : ℕ × Tables) → IsTasked dir t r → IsSound t → IsSound r.1
unfolding attempt
IsTasked-IsSound dir t r i w = subst IsSound (sym i.same) (record {
  folds = w.folds;
  known = w.known;
  placed =
      All-mono (λ r. (k : HarnessTask) × (find (λ k. k.id == r.task) t.tasks ≡ some k))
        (λ a (k, e). (k, i.kept a.task k e)) t.agents w.placed;
  tasks_ascend = i.ascend;
  agents_ascend = w.agents_ascend;
  events_ascend = w.events_ascend;
})

module _ (db : Database) (now : Reading → ℕ) (task : ℕ) (t : Tables) where
  abbrev new_agent : ℕ
  new_agent = db.new_id (map (λ r. r.id) t.agents)

  abbrev agent_row : AgentRow
  agent_row = record { id = new_agent; task = task; created = now (for_agent new_agent) }

  abbrev with_agent : Tables
  with_agent = record t { agents = t.agents ++ agent_row ∷ [] }

  -- A new agent has no history yet.
  new_agent-nascent :
      All (λ e. elem e.agent (map (λ r. r.id) t.agents) ≡ true) t.events
      → attempt new_agent t ≡ ok Attempt.nascent
  unfolding attempt attempt_of fold_from
  new_agent-nascent known = ap attempt_of (
      select-nil (λ e. e.agent == new_agent) t.events
        (All-mono (λ e. elem e.agent (map (λ r. r.id) t.agents) ≡ true) older t.events known))
    where
      older :
          (e : AgentEvent)
          → elem e.agent (map (λ r. r.id) t.agents) ≡ true
          → (e.agent == new_agent) ≡ false
      older e h = ground (
        arith,
        elem-lt e.agent new_agent (map (λ r. r.id) t.agents)
            (db.new_id_above (map (λ r. r.id) t.agents)) h,
      )

  with_agent-IsSound :
      (k : HarnessTask) → find (λ k. k.id == task) t.tasks ≡ some k → IsSound t → IsSound with_agent
  unfolding attempt
  with_agent-IsSound k e w = record {
    folds = w.folds;
    known =
        All-mono (λ e. elem e.agent (map (λ r. r.id) t.agents) ≡ true)
          (λ e h. elem-key_append (λ r. r.id) e.agent t.agents (agent_row ∷ []) h) t.events w.known;
    placed =
        All-append (λ r. (k : HarnessTask) × (find (λ k. k.id == r.task) t.tasks ≡ some k)) t.agents
          (agent_row ∷ []) w.placed ((k, e), tt);
    tasks_ascend = w.tasks_ascend;
    agents_ascend = rw map-append (
        IsAscending-snoc (map (λ r. r.id) t.agents) new_agent w.agents_ascend
          (db.new_id_above (map (λ r. r.id) t.agents)));
    events_ascend = w.events_ascend;
  }

-- What `enqueue` leaves behind: a well-formed bus with one agent more, which is queued at the
-- directory, and whose id no agent had.
pub record IsEnqueued (dir : FilePath) (s : Store) (agent : ℕ) (s' : Store) : Type 0 where
  pub well_formed : WellFormed s'.tables
  pub closed : s'.begun ≡ false
  pub is_queued : attempt agent s'.tables ≡ ok Attempt.queued
  pub is_at : dir_of agent s'.tables ≡ ok dir
  pub was_new : attempt agent s.tables ≡ ok Attempt.nascent
  pub others : (b : ℕ) → (agent == b) ≡ false → attempt b s'.tables ≡ attempt b s.tables

module _ (db : Database) (now : Reading → ℕ) (dir : FilePath) (s : Store) (r : ℕ × Tables)
    (i : IsTasked dir s.tables r) (w : WellFormed s.tables) (open' : s.begun ≡ false) where
  abbrev agent : ℕ
  agent = new_agent db now r.0 r.1

  abbrev staffed : Tables
  staffed = with_agent db now r.0 r.1

  abbrev first_event : AgentEvent
  first_event = event_row db now agent AgentStatus.queued supervisor 0 "" (pos 0) staffed

  abbrev final : Store
  final = record s { tables = with_event first_event staffed }

  tasked-IsSound : IsSound r.1
  tasked-IsSound = IsTasked-IsSound dir s.tables r i w.sound

  staffed-IsSound : IsSound staffed
  staffed-IsSound = with_agent-IsSound db now r.0 r.1 i.row i.by_id tasked-IsSound

  staffed-nascent : attempt agent staffed ≡ ok Attempt.nascent
  unfolding attempt
  staffed-nascent = new_agent-nascent db now r.0 r.1 tasked-IsSound.known

  staffed-same : (b : ℕ) → attempt b staffed ≡ attempt b s.tables
  unfolding attempt
  staffed-same b = ap (λ (t : Tables). attempt b t) i.same

  legal : next_state Attempt.nascent AgentStatus.queued supervisor 0 ≡ ok Attempt.queued
  unfolding next_state
  legal = refl

  final-dir_of : dir_of agent (with_event first_event staffed) ≡ ok dir
  unfolding dir_of
  final-dir_of =
      rw
        (find-key_snoc (λ r. r.id) r.1.agents (agent_row db now r.0 r.1)
          (db.new_id_above (map (λ r. r.id) r.1.agents)))
        (rw i.by_id (ap ok i.at_dir))

  abbrev Begins : AgentRow → Type 0
  Begins a = (agent == a.id) ≡ false → attempt a.id staffed ≢ ok Attempt.nascent

  final-begun :
      All (λ r. attempt r.id (with_event first_event staffed) ≢ ok Attempt.nascent) staffed.agents
  final-begun =
      with_event-begun first_event staffed Attempt.nascent Attempt.queued staffed-nascent legal
        staffed.agents
        (All-append Begins r.1.agents (agent_row db now r.0 r.1 ∷ [])
          (subst (All Begins) (sym (ap (λ (t : Tables). t.agents) i.same)) (
            All-mono (λ r. attempt r.id s.tables ≢ ok Attempt.nascent)
              (λ a h _ n. h (sym (staffed-same a.id) ∙ n)) s.tables.agents w.begun))
          ((λ other. absurd (ground (arith, ==_refl agent))), tt))

  staffed-IsEnqueued :
      (published : List (LifecycleLine × String))
      → IsEnqueued dir s agent (record final { published = published })
  staffed-IsEnqueued published = record {
    well_formed = record {
      sound =
          with_event-IsSound first_event staffed Attempt.nascent Attempt.queued staffed-nascent
            legal (elem-key_snoc (λ r. r.id) r.1.agents (agent_row db now r.0 r.1))
            (db.new_id_above (map (λ e. e.id) staffed.events)) staffed-IsSound;
      begun = final-begun;
    };
    closed = open';
    is_queued =
        attempt-with_event_self first_event staffed Attempt.nascent Attempt.queued staffed-nascent
          legal;
    is_at = final-dir_of;
    was_new = sym (staffed-same agent) ∙ staffed-nascent;
    others = λ b other. attempt-with_event_ne b first_event staffed other ∙ staffed-same b;
  }

  abbrev line : LifecycleLine
  line = record {
    agent = agent;
    status = AgentStatus.queued;
    source = supervisor;
    pid = 0;
    summary = "";
  }

  enqueued-final :
      enqueued db now agent staffed s
        (append_event db now agent AgentStatus.queued supervisor 0 "" (pos 0) staffed)
      ≡ (ok agent, record final { published = s.published ++ (line, name_of dir) ∷ [] })
  unfolding enqueued publish take_text
  enqueued-final =
      rw
        (append_event_legal db now agent AgentStatus.queued supervisor 0 "" (pos 0) staffed
          Attempt.nascent Attempt.queued staffed-nascent legal)
        (rw final-dir_of)

-- On a well-formed bus with no transaction open, `enqueue` raises nothing. It returns an agent that
-- was not there before and is queued for the task of its directory, leaves every other agent's state
-- as it was, and leaves the bus well-formed with its transaction closed.
pub enqueue_total :
    (db : Database) (now : Reading → ℕ) (dir : FilePath) (parent : ℕ) (s : Store)
    → WellFormed s.tables
    → s.begun ≡ false
    → (agent : ℕ) × (s' : Store) × (enqueue db now dir parent s ≡ (ok agent, s'))
      × IsEnqueued dir s agent s'
unfolding enqueue insert_task insert_agent
enqueue_total db now dir parent s w open' =
    let o = find (λ k. same_path k.dir dir) s.tables.tasks in
    let r = inserted_task db now dir parent s.tables o in
    let i : IsTasked dir s.tables r =
      inserted_task-IsTasked db now dir parent s.tables o refl w.tasks_ascend in
    (
      agent db now dir s r i w open',
      record (final db now dir s r i w open') {
        published = s.published ++ (line db now dir s r i w open', name_of dir) ∷ [];
      },
      if-false _ _ open' ∙ enqueued-final db now dir s r i w open',
      staffed-IsEnqueued db now dir s r i w open' _,
    )
