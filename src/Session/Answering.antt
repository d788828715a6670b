-- ===== src/Session/Answering.antt =====
-- profiles/answering.py: an agent that collects what its children said and answers once.
pub mod Offered
use ancalagon.Base.{
  ltb_ℤ, pos, negsuc, String, Bool, true, false, not, ◌&&◌, ◌||◌, if◌then◌else◌, Option, none, some,
  List, [], ◌∷◌, select, Result, ok, ◌>>=◌,
}
use ancalagon.Session.Tools.{ToolSpec, BoundTool, same_spec}
use ancalagon.Session.Profiles.{Outcome, Turn, Profile, is_final, bound, spec_for}

-- The three specs that the profile found in its catalogue.
pub record Answering : Type 0 where
  pub terminal : ToolSpec
  pub collect : ToolSpec
  pub idle : ToolSpec

-- The texts, which are formatted from the tool's name and the turn.
pub record Instructions (W : Type 0) : Type 0 where
  pub instructs : Turn W → String
  pub nudges : Turn W → String

abbrev pub is_nonempty : {A : Type 0} → List A → Bool
is_nonempty [] = false
is_nonempty (x ∷ xs) = true

module _ {W : Type 0} where
  -- `Answering.__init__`, whose terminal tool is `terminal_tool`.
  unfoldable pub answering_for : String → List (BoundTool W) → Result Answering
  unfolding spec_for
  answering_for terminal_tool available = do
    terminal ← spec_for available (terminal_tool ∷ [])
    collect ← spec_for available ("CollectTask" ∷ [])
    idle ← spec_for available ("Idle" ∷ "NoIdle" ∷ [])
    ok (record { terminal = terminal; collect = collect; idle = idle })

  module _ (p : Answering) where
    unfoldable pub halts : Turn W → Option Outcome
    unfolding is_final
    halts turn =
        if is_final turn && is_nonempty turn.outstanding
        then some (Outcome.idling "turns exhausted while children ran" turn.spent (negsuc 0))
        else none

    unfoldable pub is_bound : Option (BoundTool W) → Bool
    is_bound none = false
    is_bound (some t) = true

    unfoldable pub collecting : Turn W → Bool
    unfolding is_bound bound
    collecting turn =
        is_nonempty turn.uncollected && ltb_ℤ (pos 0) turn.tries && is_bound (bound turn p.collect)

    unfoldable pub forces : Turn W → Option (BoundTool W)
    unfolding collecting bound
    forces turn = if collecting turn then bound turn p.collect else bound turn p.terminal

    unfoldable pub is_withheld : Turn W → ToolSpec → Bool
    unfolding same_spec
    is_withheld turn spec =
        not (is_nonempty turn.outstanding) && same_spec spec p.idle
        || (is_nonempty turn.outstanding || is_nonempty turn.uncollected)
          && same_spec spec p.terminal

    alone : Option (BoundTool W) → List (BoundTool W)
    alone none = []
    alone (some t) = t ∷ []

    unfoldable pub offers : Turn W → List (BoundTool W)
    unfolding alone forces is_withheld is_final
    offers turn =
        if is_final turn
        then alone (forces turn)
        else select (λ t. not (is_withheld turn t.spec)) turn.offered

    unfoldable pub answering : Instructions W → Profile W
    unfolding halts forces offers
    answering texts = record {
      halts = halts;
      forces = forces;
      offers = offers;
      instructs = texts.instructs;
      nudges = texts.nudges;
    }
