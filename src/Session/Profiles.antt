-- ===== src/Session/Profiles.antt =====
-- profiles/turn.py, profile.py and catalogue.py, the outcomes of contracts/ and contracts/reply.py:
-- what a turn may decide on, and what a profile is asked.
use ancalagon.Base.{
  ℕ, ℤ, String, same_text, Bool, if◌then◌else◌, Option, none, some, List, [], ◌∷◌, Result, ok,
  raise, lookup_error,
}
use ancalagon.Contracts.Messages.{Block}
use ancalagon.Contracts.Budgets.{Budget, Spend, turns_exhausted}
use ancalagon.Session.Tools.{ToolSpec, BoundTool, same_spec}

pub data Outcome : Type 0 where
  completed : (value summary : String) (spent : Spend) → Outcome
  exhausted : (value summary : String) (spent : Spend) → Outcome
  needs_input : (question summary : String) (spent : Spend) → Outcome
  failed : (error summary : String) (spent : Spend) → Outcome
  idling : (summary : String) (spent : Spend) (seen_through : ℤ) → Outcome

pub data Delivery : Type 0 where
  nothing note : Delivery

-- The usage goes to the meter as the service gave it.
pub record Reply : Type 0 where
  pub blocks : List Block
  pub usage : ℕ

pub record Turn (W : Type 0) : Type 0 where
  pub offered : List (BoundTool W)
  pub remaining : Budget
  pub spent : Spend
  pub outstanding : List ℕ
  pub uncollected : List ℕ
  pub tries : ℤ
  pub delivered : Delivery

module _ {W : Type 0} where
  unfoldable pub is_final : Turn W → Bool
  unfolding turns_exhausted
  is_final turn = turns_exhausted turn.remaining

  -- A dict built from the tools keeps the last of those with one spec.
  unfoldable pub bound_in : ToolSpec → List (BoundTool W) → Option (BoundTool W)
  unfolding same_spec
  bound_in spec [] = none
  bound_in spec (t ∷ tools) = elim (bound_in spec tools) [
    | some u ↦ some u
    | none ↦ if same_spec t.spec spec then some t else none
  ]

  -- `Turn.bound`; `NO_TOOL` is `none`.
  unfoldable pub bound : Turn W → ToolSpec → Option (BoundTool W)
  unfolding bound_in
  bound turn spec = bound_in spec turn.offered

-- `Profile`'s decisions; `PENDING` is `none`.
pub record Profile (W : Type 0) : Type 0 where
  pub halts : Turn W → Option Outcome
  pub forces : Turn W → Option (BoundTool W)
  pub offers : Turn W → List (BoundTool W)
  pub instructs : Turn W → String
  pub nudges : Turn W → String

-- The defaults: an agent that works and never answers. `Standing` overrides only its texts.
unfoldable pub working : (W : Type 0) → Profile W
working W = record {
  halts = λ turn. none;
  forces = λ turn. none;
  offers = λ turn. turn.offered;
  instructs = λ turn. "";
  nudges = λ turn. "";
}

-- `Catalogue.spec_for`: the last tool available that was built from the first class there is.
module _ {W : Type 0} where
  unfoldable pub spec_from : String → List (BoundTool W) → Option ToolSpec
  spec_from source [] = none
  spec_from source (t ∷ tools) = elim (spec_from source tools) [
    | some u ↦ some u
    | none ↦ if same_text t.spec.source source then some t.spec else none
  ]

  unfoldable pub spec_for : List (BoundTool W) → List String → Result ToolSpec
  unfolding spec_from
  spec_for available [] = raise lookup_error
  spec_for available (source ∷ sources) = elim (spec_from source available) [
    | some spec ↦ ok spec
    | none ↦ spec_for available sources
  ]
