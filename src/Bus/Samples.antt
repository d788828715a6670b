-- ===== src/Bus/Samples.antt =====
-- Small runs of the bus, and the theorems at them.
use ancalagon.Base.{
  ℕ, suc, pos, ◌≤◌, ◌<◌, ◌≡◌, refl, false, List, [], ◌∷◌, All, elem, maximum, ok, raise,
  illegal_transition, arith, take, FilePath, take_text, text_length, same_path, name_of, lookup,
  some,
}
use ancalagon.Base.Order.{le-maximum, All-mono}
use ancalagon.Contracts.Status.{AgentStatus, worker}
use ancalagon.Attempt.{Attempt, next_state, attempt_of}
use ancalagon.Bus.Rows.{Database, AgentState}
use ancalagon.Bus.Log.{Store, Reading, attempt, append_event, record_status, publish, dir_of}
use ancalagon.Bus.Queue.{
  enqueue, claim, queued, insert_task, insert_agent, enqueued, claim_first, claimed, claim_each,
  publish_each, latest_queued, still_queued, waiting_row, latest_event_row,
}
use ancalagon.Bus.Meter.{
  CallUsage, ModelCall, record_call, tokens_by_agent, total_row, total_from, plus_usage, calls_of,
  grouped_agents, put_agent,
}
use ancalagon.Bus.Totals.{added, tokens_by_agent-record_call}
use ancalagon.Bus.WellFormed.{WellFormed}
use ancalagon.Bus.Enqueueing.{IsEnqueued, enqueue_total}
use ancalagon.Bus.Claiming.{IsClaimed, claim_total}
use ancalagon.Bus.Waiting.{IsQueue, queued-IsQueue}
use ancalagon.Bus.Recording.{Does, record_status-next_state}
use ancalagon.Bus.Runs.{Steps, here, next, enqueues, Goes, Steps-Goes, claim-claim_disjoint}

unfoldable pub next_id : List ℕ → ℕ
next_id ids = suc (maximum ids)

pub next_id_positive : (ids : List ℕ) → 0 < next_id ids
unfolding next_id
next_id_positive ids = omega arith

pub next_id_above : (ids : List ℕ) → All (λ i. i < next_id ids) ids
unfolding next_id
next_id_above ids = All-mono (λ i. i ≤ maximum ids) (λ i h. omega arith) ids (le-maximum ids)

-- SQLite's rule for a table of which no row was deleted.
abbrev pub rowids : Database
rowids = record {
  new_id = next_id;
  new_id_positive = next_id_positive;
  new_id_above = next_id_above;
}

abbrev pub noon : Reading → ℕ
noon r = 43200

abbrev pub empty : Store
empty = record {
  tables = record { tasks = []; agents = []; events = [] };
  begun = false;
  published = [];
}

pub empty-WellFormed : WellFormed empty.tables
unfolding attempt attempt_of
empty-WellFormed = record {
  sound = record {
    folds = λ a. (Attempt.nascent, refl);
    known = tt;
    placed = tt;
    tasks_ascend = tt;
    agents_ascend = tt;
    events_ascend = tt;
  };
  begun = tt;
}

abbrev root_dir : FilePath
root_dir = "run" ∷ "tasks" ∷ "root" ∷ []

abbrev leaf_dir : FilePath
leaf_dir = "run" ∷ "tasks" ∷ "leaf" ∷ []

-- Two tasks queued, by the person and by the first agent.
abbrev one : Store
one = (enqueue rowids noon root_dir 0 empty).1

abbrev pub two : Store
two = (enqueue rowids noon leaf_dir 1 one).1

unfoldable pub program : Unit {0}
unfolding next_id enqueue insert_task insert_agent enqueued claim claim_first claimed claim_each
    publish_each queued latest_queued still_queued waiting_row latest_event_row append_event
    record_status publish attempt attempt_of next_state take_text text_length same_path name_of
    dir_of
program = tt

pub two-closed : two.begun ≡ false
unfolding program
two-closed = refl

queued-two :
    queued two.tables
    ≡ ok (
        (record { agent = 1; task = 1; dir = root_dir })
        ∷ (record { agent = 2; task = 2; dir = leaf_dir })
        ∷ [])
unfolding program
queued-two = refl

steps : Steps rowids empty.tables two.tables
unfolding program
steps =
    next (next here (enqueues noon root_dir 0 empty refl refl refl))
      (enqueues noon leaf_dir 1 one refl refl refl)

Steps-Goes_example : Goes empty.tables two.tables
Steps-Goes_example = Steps-Goes rowids empty.tables two.tables empty-WellFormed steps

pub two-WellFormed : WellFormed two.tables
two-WellFormed = (Steps-Goes rowids empty.tables two.tables empty-WellFormed steps).well_formed

enqueue_total_example :
    (agent : ℕ) × (s' : Store) × (enqueue rowids noon root_dir 0 empty ≡ (ok agent, s'))
    × IsEnqueued root_dir empty agent s'
enqueue_total_example = enqueue_total rowids noon root_dir 0 empty empty-WellFormed refl

queued-IsQueue_example :
    (states : List AgentState) × (queued two.tables ≡ ok states)
    × IsQueue two.tables two.tables.agents states
queued-IsQueue_example = queued-IsQueue two.tables two-WellFormed.sound

claim_total_example :
    (states : List AgentState) × (s' : Store) × IsQueue two.tables two.tables.agents states
    × (claim rowids noon 1 two ≡ (ok (take 1 states), s'))
    × IsClaimed (take 1 states) two.tables s'.tables
    × (s'.begun ≡ false)
unfolding program
claim_total_example = claim_total rowids noon 1 two two-WellFormed refl

-- The worker may not collect an agent that is queued.
record_status-next_state_example :
    Does rowids noon 1 AgentStatus.collected worker 0 "" (pos 0) two (raise illegal_transition)
unfolding program
record_status-next_state_example =
    record_status-next_state rowids noon 1 AgentStatus.collected worker 0 "" (pos 0) two
      Attempt.queued two-WellFormed refl refl refl

abbrev three : Store
three = (claim rowids noon 1 two).1

abbrev root_state : AgentState
root_state = record { agent = 1; task = 1; dir = root_dir }

abbrev leaf_state : AgentState
leaf_state = record { agent = 2; task = 2; dir = leaf_dir }

claim-claim_disjoint_example : elem 1 (2 ∷ []) ≡ false
unfolding program
claim-claim_disjoint_example =
    claim-claim_disjoint rowids noon noon 1 5 two three three (claim rowids noon 5 three).1
      (root_state ∷ []) (leaf_state ∷ []) two-WellFormed refl refl here refl refl 1 refl

-- The model of the first call is kept.
abbrev spent_tokens : ℕ → CallUsage
spent_tokens n = record {
  model = "small";
  prompt_tokens = n;
  completion_tokens = 1;
  cache_creation_tokens = 0;
  cache_read_tokens = 0;
}

abbrev metered : List ModelCall
metered = record_call rowids 0 2 (spent_tokens 5) (record_call rowids 0 1 (spent_tokens 3) [])

metered_total : lookup 1 (tokens_by_agent (λ x y. x) metered) ≡ some (spent_tokens 3)
unfolding tokens_by_agent record_call total_row total_from plus_usage calls_of grouped_agents
    put_agent next_id
metered_total = refl

tokens_by_agent-record_call_example :
    lookup 1 (tokens_by_agent (λ x y. x) (record_call rowids 0 1 (spent_tokens 4) metered))
    ≡ some (added (λ x y. x) (lookup 1 (tokens_by_agent (λ x y. x) metered)) (spent_tokens 4))
tokens_by_agent-record_call_example =
    tokens_by_agent-record_call (λ x y. x) rowids 0 1 1 (spent_tokens 4) metered
