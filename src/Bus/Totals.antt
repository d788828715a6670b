-- ===== src/Bus/Totals.antt =====
-- The totals of bus/meter_store.py are those of a map from agents to what they used, to which each
-- recorded call is added.
use ancalagon.Base.{
  ℕ, ◌+◌, String, Bool, true, false, ◌==◌, ◌||◌, ==_refl, ==_iff, if◌then◌else◌, if-true, if-false,
  List, [], ◌∷◌, ◌++◌, map, Option, none, some, lookup, elem, ◌≡◌, inl, inr, refl, sym, ap, subst,
  ◌∙◌, Bool-cases, arith,
}
use ancalagon.Bus.Rows.{Database}
use ancalagon.Bus.Meter.{
  CallUsage, ModelCall, plus_usage, total_from, total_row, put_agent, grouped_agents, calls_of,
  record_call, rows_for, tokens_by_agent,
}

-- The abstract meter: what an agent's total becomes when a call is added.
abbrev pub added : (String → String → String) → Option CallUsage → CallUsage → CallUsage
added greater none usage = usage
added greater (some total) usage = record {
  model = greater total.model usage.model;
  prompt_tokens = total.prompt_tokens + usage.prompt_tokens;
  completion_tokens = total.completion_tokens + usage.completion_tokens;
  cache_creation_tokens = total.cache_creation_tokens + usage.cache_creation_tokens;
  cache_read_tokens = total.cache_read_tokens + usage.cache_read_tokens;
}

module _ (greater : String → String → String) where
  -- The total of some calls, where there are any.
  abbrev total_of : List CallUsage → Option CallUsage
  total_of [] = none
  total_of (u ∷ usages) = some (total_from greater u usages)

  total_from-snoc :
      (u v : CallUsage) (usages : List CallUsage)
      → total_from greater u (usages ++ v ∷ []) ≡ plus_usage greater (total_from greater u usages) v
  unfolding total_from
  total_from-snoc u v [] = refl
  total_from-snoc u v (w ∷ usages) = total_from-snoc (plus_usage greater u w) v usages

  total_of-snoc :
      (v : CallUsage) (usages : List CallUsage)
      → total_of (usages ++ v ∷ []) ≡ some (added greater (total_of usages) v)
  unfolding total_from plus_usage
  total_of-snoc v [] = refl
  total_of-snoc v (u ∷ usages) = ap some (total_from-snoc u v usages)

  calls_of-snoc :
      (b : ℕ) (rows : List ModelCall) (r : ModelCall)
      → calls_of b (rows ++ r ∷ [])
        ≡ (if r.agent == b then calls_of b rows ++ r.usage ∷ [] else calls_of b rows)
  unfolding calls_of
  calls_of-snoc b [] r = ground arith
  calls_of-snoc b (c ∷ rows) r = ground (arith, calls_of-snoc b rows r)

  elem-put_agent :
      (a b : ℕ) (agents : List ℕ) → elem b (put_agent a agents) ≡ (a == b || elem b agents)
  unfolding put_agent
  elem-put_agent a b [] = ground arith
  elem-put_agent a b (c ∷ agents) = ground (arith, elem-put_agent a b agents)

  -- An agent that is in no group has made no call.
  ungrouped-calls :
      (b : ℕ) (rows : List ModelCall) → elem b (grouped_agents rows) ≡ false → calls_of b rows ≡ []
  unfolding grouped_agents calls_of
  ungrouped-calls b [] h = refl
  ungrouped-calls b (c ∷ rows) h =
      ground (arith, elem-put_agent c.agent b (grouped_agents rows), ungrouped-calls b rows)

  lookup-total_row :
      (a b : ℕ) (usages : List CallUsage) (rest : List (ℕ × CallUsage))
      → lookup b (total_row greater a usages ++ rest) ≡ (
          if a == b
          then (elim usages [ [] ↦ lookup b rest | u ∷ us ↦ total_of (u ∷ us) ])
          else lookup b rest)
  unfolding total_row
  lookup-total_row a b [] rest = ground arith
  lookup-total_row a b (u ∷ us) rest = refl

  lookup-own_row :
      (a : ℕ) (usages : List CallUsage) (rest : List (ℕ × CallUsage)) (later : Bool)
      → lookup a rest ≡ (if later then total_of usages else none)
      → lookup a (total_row greater a usages ++ rest) ≡ total_of usages
  unfolding total_row
  lookup-own_row a [] rest true h = h
  lookup-own_row a [] rest false h = h
  lookup-own_row a (u ∷ us) rest later h = rw (==_refl a) refl

  lookup-rows_for :
      (b : ℕ) (rows : List ModelCall) (agents : List ℕ)
      → lookup b (rows_for greater rows agents)
        ≡ (if elem b agents then total_of (calls_of b rows) else none)
  lookup-rows_for b rows [] = refl
  lookup-rows_for b rows (a ∷ agents) = elim (Bool-cases (a == b)) [
    | inl same ↦
        subst
          (λ z.
            lookup z (total_row greater a (calls_of a rows) ++ rows_for greater rows agents)
            ≡ (if a == z || elem z agents then total_of (calls_of z rows) else none))
          ((==_iff a b).0 same)
          (lookup-own_row a (calls_of a rows) (rows_for greater rows agents) (elem a agents)
              (lookup-rows_for a rows agents)
            ∙ (rw (==_refl a) refl))
    | inr other ↦
        lookup-total_row a b (calls_of a rows) (rows_for greater rows agents)
        ∙ (rw other (lookup-rows_for b rows agents))
  ]

  lookup-tokens_by_agent :
      (b : ℕ) (rows : List ModelCall)
      → lookup b (tokens_by_agent greater rows) ≡ total_of (calls_of b rows)
  unfolding tokens_by_agent
  lookup-tokens_by_agent b rows =
      lookup-rows_for b rows (grouped_agents rows)
      ∙ elim (Bool-cases (elem b (grouped_agents rows))) [
        | inl grouped ↦ if-true _ _ grouped
        | inr not_grouped ↦
            if-false _ _ not_grouped ∙ ap total_of (sym (ungrouped-calls b rows not_grouped))
      ]

-- The totals by agent are a map that a recorded call is added to: after `record_call` the total of the
-- call's agent is what it was with each of the call's four counts added and the greater of the two
-- models, or the call where there was none, and the total of every other agent is what it was.
pub tokens_by_agent-record_call :
    (greater : String → String → String) (db : Database) (ts a b : ℕ) (usage : CallUsage)
    (rows : List ModelCall)
    → lookup b (tokens_by_agent greater (record_call db ts a usage rows)) ≡ (
        if a == b
        then some (added greater (lookup b (tokens_by_agent greater rows)) usage)
        else lookup b (tokens_by_agent greater rows))
unfolding record_call
tokens_by_agent-record_call greater db ts a b usage rows =
    let row : ModelCall = record {
      id = db.new_id (map (λ c. c.id) rows);
      agent = a;
      ts = ts;
      usage = usage;
    } in
    let before = lookup-tokens_by_agent greater b rows in
    lookup-tokens_by_agent greater b (rows ++ row ∷ [])
    ∙ ap (total_of greater) (calls_of-snoc greater b rows row)
    ∙ elim (Bool-cases (a == b)) [
      | inl same ↦ rw same (
          total_of-snoc greater usage (calls_of b rows)
          ∙ ap (λ o. some (added greater o usage)) (sym before))
      | inr other ↦ rw other (sym before)
    ]
