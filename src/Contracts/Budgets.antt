-- ===== src/Contracts/Budgets.antt =====
-- contracts/finite.py, infinite.py, allowance.py, budget.py and spend.py: what an agent may still
-- use, and what it has used.
use ancalagon.Base.{ℕ, ◌+◌, ℤ, pos, ◌-ℤ◌, leb_ℤ, Bool, true, false}

pub data Allowance : Type 0 where
  finite : (value : ℤ) → Allowance
  infinite : Allowance

unfoldable pub permits : Allowance → ℕ → Bool
permits (finite value) cost = leb_ℤ (pos cost) value
permits infinite cost = true

unfoldable pub spend : Allowance → ℕ → Allowance
unfolding ◌-ℤ◌
spend (finite value) count = finite (value -ℤ pos count)
spend infinite count = infinite

unfoldable pub is_exhausted : Allowance → Bool
is_exhausted (finite value) = leb_ℤ value (pos 0)
is_exhausted infinite = false

pub record Budget : Type 0 where
  pub turns : Allowance
  pub tool_calls : Allowance

unfoldable pub turns_exhausted : Budget → Bool
unfolding is_exhausted
turns_exhausted b = is_exhausted b.turns

unfoldable pub spend_turn : Budget → Budget
unfolding spend
spend_turn b = record { turns = spend b.turns 1; tool_calls = b.tool_calls }

unfoldable pub spend_tool_calls : Budget → ℕ → Budget
unfolding spend
spend_tool_calls b count = record { turns = b.turns; tool_calls = spend b.tool_calls count }

pub record Spend : Type 0 where
  pub turns : ℕ
  pub tool_calls : ℕ

unfoldable pub plus_turn : Spend → Spend
plus_turn s = record { turns = s.turns + 1; tool_calls = s.tool_calls }

unfoldable pub plus_tool_calls : Spend → ℕ → Spend
plus_tool_calls s count = record { turns = s.turns; tool_calls = s.tool_calls + count }
