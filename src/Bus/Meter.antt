-- ===== src/Bus/Meter.antt =====
-- bus/meter_store.py, the model_calls table of bus/schema.py, contracts/call_usage.py and
-- bus/bus_meter.py: what the calls of the model consumed.
use ancalagon.Base.{ℕ, ◌+◌, ltb, String, ◌==◌, if◌then◌else◌, List, [], ◌∷◌, ◌++◌, map, select}
use ancalagon.Bus.Rows.{Database}

pub record CallUsage : Type 0 where
  pub model : String
  pub prompt_tokens : ℕ
  pub completion_tokens : ℕ
  pub cache_creation_tokens : ℕ
  pub cache_read_tokens : ℕ

-- A row of `model_calls`; the rows are in the order of their ids.
pub record ModelCall : Type 0 where
  pub id : ℕ
  pub agent : ℕ
  pub ts : ℕ
  pub usage : CallUsage

-- SQL's order of texts, as the greater of two.
module _ (greater : String → String → String) where
  -- `max` of the model and `sum` of each count, over a row and those that follow it.
  unfoldable pub plus_usage : CallUsage → CallUsage → CallUsage
  plus_usage u v = record {
    model = greater u.model v.model;
    prompt_tokens = u.prompt_tokens + v.prompt_tokens;
    completion_tokens = u.completion_tokens + v.completion_tokens;
    cache_creation_tokens = u.cache_creation_tokens + v.cache_creation_tokens;
    cache_read_tokens = u.cache_read_tokens + v.cache_read_tokens;
  }

  unfoldable pub total_from : CallUsage → List CallUsage → CallUsage
  unfolding plus_usage
  total_from u [] = u
  total_from u (v ∷ usages) = total_from (plus_usage u v) usages

  -- A group's row, of a group that has rows.
  unfoldable pub total_row : ℕ → List CallUsage → List (ℕ × CallUsage)
  unfolding total_from
  total_row agent [] = []
  total_row agent (u ∷ usages) = (agent, total_from u usages) ∷ []

-- `GROUP BY agent ORDER BY agent`: the agents that have rows, ascending, each once.
unfoldable pub put_agent : ℕ → List ℕ → List ℕ
put_agent agent [] = agent ∷ []
put_agent agent (a ∷ agents) =
    let rest = put_agent agent agents in
    if agent == a then a ∷ agents else if ltb agent a then agent ∷ a ∷ agents else a ∷ rest

unfoldable pub grouped_agents : List ModelCall → List ℕ
unfolding put_agent
grouped_agents [] = []
grouped_agents (c ∷ calls) = put_agent c.agent (grouped_agents calls)

-- `calls`, with `_CALLS`.
unfoldable pub calls_of : ℕ → List ModelCall → List CallUsage
calls_of agent rows = map (λ (c : ModelCall). c.usage) (select (λ c. c.agent == agent) rows)

-- `record_call`, with `_INSERT_CALL`; a `BusMeter` records just so.
unfoldable pub record_call : Database → ℕ → ℕ → CallUsage → List ModelCall → List ModelCall
record_call db ts agent usage rows =
    rows
    ++ (record { id = db.new_id (map (λ c. c.id) rows); agent = agent; ts = ts; usage = usage })
      ∷ []

abbrev pub rows_for : (String → String → String) → List ModelCall → List ℕ → List (ℕ × CallUsage)
rows_for greater rows [] = []
rows_for greater rows (a ∷ agents) =
    total_row greater a (calls_of a rows) ++ rows_for greater rows agents

-- `tokens_by_agent`, with `_TOKENS_BY_AGENT`: a dict, in the order of the rows.
unfoldable pub tokens_by_agent : (String → String → String) → List ModelCall → List (ℕ × CallUsage)
unfolding total_row calls_of grouped_agents
tokens_by_agent greater rows = rows_for greater rows (grouped_agents rows)
