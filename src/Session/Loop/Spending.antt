-- ===== src/Session/Loop/Spending.antt =====
-- What a session uses stays within the budget of its role.
use ancalagon.Base.{
  ℕ, zero, suc, ◌+◌, ◌≡◌, refl, ℤ, pos, negsuc, ◌-ℤ◌, sub_ℕ, leb, leb→le, String, ap, ◌∙◌, sym,
  true, false, List, Option, none, some, Bool-cases, inl, inr, arith, ◌⊎◌, Result, ok, raise,
  Exception, subst, if◌then◌else◌,
}
use ancalagon.Base.Exec.{pure, ◌>>=◌, continue, Leaves, Leaves-after, Leaves-bind}
use ancalagon.Contracts.Messages.{MessageRole}
use ancalagon.Contracts.Budgets.{
  Allowance, finite, infinite, Budget, Spend, permits, spend, is_exhausted, turns_exhausted,
  spend_turn, spend_tool_calls, plus_turn, plus_tool_calls,
}
use ancalagon.Session.Tools.{BoundTool, Call}
use ancalagon.Session.Profiles.{Outcome, Delivery, Turn, is_final}
use ancalagon.Session.Rounds.{Setting, Session, record_message, evaluate_turn, run_tools}
use ancalagon.Session.Loop.Keeping.{
  Leaves-prepare_final_turn, Leaves-complete, Leaves-record_message, Leaves-evaluate_turn,
  Leaves-unless_settled, Leaves-deliver,
}
use ancalagon.Session.Loop.Charging.{converse-turns, IsCharged, run_tools-IsCharged}
use ancalagon.Session.Loop.{
  complete, deliver, use_turn, turn_of, begin_turn, converse, unless_halted, pass, loop, run,
  forced_in, caught, collect_tries,
}

-- Of an allowance, what is left and what is used: a limit is never overdrawn, and one below zero
-- is never drawn on.
abbrev pub IsWithin : Allowance → Allowance → ℕ → Type 0
IsWithin infinite left used = left ≡ infinite
IsWithin (finite (pos v)) (finite (pos q)) used = q + used ≡ v
IsWithin (finite (negsuc v)) (finite (negsuc q)) used = (q ≡ v) × (used ≡ 0)
IsWithin _ _ _ = ⊥

abbrev pub IsInBudget : {W : Type 0} → Budget → Session W → Type 0
IsInBudget budget s =
    IsWithin budget.turns s.remaining.turns s.spent.turns
    × IsWithin budget.tool_calls s.remaining.tool_calls s.spent.tool_calls

-- Taking away no more than there is.
within :
    (v used a b : ℕ)
    → leb b a ≡ true
    → a + used ≡ v
    → IsWithin (finite (pos v)) (finite (sub_ℕ a b)) (used + b)
within v used a b h w = rw h (omega (arith, w, leb→le b a h))

permits-one : (a : Allowance) → is_exhausted a ≡ false → permits a 1 ≡ true
unfolding is_exhausted permits
permits-one (finite (pos q)) h = ground arith
permits-one (finite (negsuc q)) h = ground arith
permits-one infinite h = refl

spend-IsWithin :
    (a left : Allowance) (used cost : ℕ)
    → permits left cost ≡ true
    → IsWithin a left used
    → IsWithin a (spend left cost) (used + cost)
unfolding permits spend ◌-ℤ◌
spend-IsWithin infinite infinite used cost p w = refl
spend-IsWithin infinite (finite r) used cost p w = absurd (cc)
spend-IsWithin (finite (pos v)) (finite (pos q)) used cost p w =
    ground (arith, within v used (q + 0) (0 + cost))
spend-IsWithin (finite (negsuc v)) (finite (negsuc q)) used cost p w = absurd (ground arith)
spend-IsWithin (finite (pos v)) infinite used cost p w = absurd w
spend-IsWithin (finite (negsuc v)) infinite used cost p w = absurd w
spend-IsWithin (finite (pos v)) (finite (negsuc q)) used cost p w = absurd w
spend-IsWithin (finite (negsuc v)) (finite (pos q)) used cost p w = absurd w

module _ {W : Type 0} (e : Setting W) (budget : Budget) where
  abbrev J : Budget → Spend → Type 0
  J left used =
      IsWithin budget.turns left.turns used.turns
      × IsWithin budget.tool_calls left.tool_calls used.tool_calls

  abbrev I : Session W → Type 0
  I = IsInBudget budget

  pays :
      (left : Budget) (used : Spend) (cost : ℕ)
      → permits left.tool_calls cost ≡ true
      → J left used
      → J (spend_tool_calls left cost) (plus_tool_calls used cost)
  unfolding spend_tool_calls plus_tool_calls
  pays left used cost p (t, c) =
      (t, spend-IsWithin budget.tool_calls left.tool_calls used.tool_calls cost p c)

  use_turn-IsInBudget :
      (s : Session W) → is_exhausted s.remaining.turns ≡ false → I s → I (use_turn e s)
  unfolding spend_turn plus_turn
  use_turn-IsInBudget s h (t, c) = (
    spend-IsWithin budget.turns s.remaining.turns s.spent.turns 1 (permits-one s.remaining.turns h)
        t,
    c,
  )

  -- A turn that is not final leaves at least one.
  begin_turn-IsInBudget :
      (turn : Turn W) (s : Session W)
      → turn.remaining ≡ s.remaining
      → I s
      → I (begin_turn e turn s).1
  unfolding begin_turn is_final turns_exhausted spend_turn plus_turn
  begin_turn-IsInBudget turn s h i = elim (Bool-cases (is_final turn)) [
    | inl final ↦ rw final ((Leaves-prepare_final_turn e J pays turn).at s i)
    | inr more ↦
        rw more (use_turn-IsInBudget s (sym (ap (λ (b : Budget). is_exhausted b.turns) h) ∙ more) i)
  ]

  converse-IsInBudget :
      (turn : Turn W) (tries : ℤ) (forced : Option (BoundTool W)) (s : Session W)
      → turn.remaining ≡ s.remaining
      → I s
      → I (converse e turn tries forced s).1
  unfolding converse
  converse-IsInBudget turn tries forced s h i =
      Leaves-after I (begin_turn e turn) _ s (begin_turn-IsInBudget turn s h i) (λ _.
        Leaves-bind I (complete e turn _ forced) _ (Leaves-complete e J pays turn _ forced)
          (λ reply.
            Leaves-bind I (record_message e MessageRole.assistant reply.blocks) _
              (Leaves-record_message e J pays MessageRole.assistant reply.blocks)
              (λ _.
                Leaves-bind I (evaluate_turn e reply turn forced) _
                  (Leaves-evaluate_turn e J pays reply turn forced)
                  (λ o. Leaves-unless_settled e J pays turn tries forced o))))

  -- The turn that a pass decides on has what is left when it is made.
  TurnOf : Session W → Result (Turn W) × Session W → Type 0
  TurnOf s (ok turn, s') = (turn.remaining ≡ s.remaining) × (s' ≡ s)
  TurnOf s (raise x, s') = s' ≡ s

  turn_of-TurnOf :
      (delivered : Delivery) (tries : ℤ) (s : Session W) → TurnOf s (turn_of e delivered tries s)
  unfolding turn_of TurnOf
  turn_of-TurnOf delivered tries s = go (e.outstanding s.world) (e.uncollected s.world) refl refl
    where
      go :
          (o u : Result (List ℕ))
          → e.outstanding s.world ≡ o
          → e.uncollected s.world ≡ u
          → TurnOf s (turn_of e delivered tries s)
      go (ok o) (ok u) ho hu = rw (ho, hu) (refl, refl)
      go (ok o) (raise x) ho hu = rw (ho, hu) refl
      go (raise x) u ho hu = rw ho refl

  Leaves-unless_halted :
      (delivered : Delivery) (tries : ℤ)
      → Leaves I
          (turn_of e delivered tries >>= λ turn. unless_halted e turn tries (e.profile.halts turn))
  unfolding unless_halted TurnOf
  Leaves-unless_halted delivered tries = record {
    at = λ s i. go s i (turn_of e delivered tries s) (turn_of-TurnOf delivered tries s);
  }
    where
      halted :
          (turn : Turn W) (s : Session W)
          → turn.remaining ≡ s.remaining
          → I s
          → (o : Option Outcome) → I (unless_halted e turn tries o s).1
      halted turn s h i (some o) = i
      halted turn s h i none = converse-IsInBudget turn tries (forced_in e turn) s h i

      go :
          (s : Session W)
          → I s
          → (r : Result (Turn W) × Session W) → TurnOf s r
          → I (continue (λ turn. unless_halted e turn tries (e.profile.halts turn)) r).1
      go s i (ok turn, s') (h, same) =
          halted turn s' (h ∙ ap (λ (t : Session W). t.remaining) (sym same)) (subst I (sym same) i)
            (e.profile.halts turn)
      go s i (raise x, s') same = subst I (sym same) i

  Leaves-pass : (tries : ℤ) → Leaves I (pass e tries)
  unfolding pass
  Leaves-pass tries =
      Leaves-bind I (deliver e) _ (Leaves-deliver e J pays) (λ d. Leaves-unless_halted d tries)

  Leaves-loop : (fuel : ℕ) (tries : ℤ) → Leaves I (loop e fuel tries)
  unfolding loop
  Leaves-loop zero tries = record { at = λ s i. i }
  Leaves-loop (suc fuel) tries =
      Leaves-bind I (pass e tries) _ (Leaves-pass tries) (go (λ tries'. Leaves-loop fuel tries'))
    where
      go :
          ((tries' : ℤ) → Leaves I (loop e fuel tries'))
          → (step : Outcome ⊎ ℤ)
          → Leaves I (elim step [ inl o ↦ pure (some o) | inr tries' ↦ loop e fuel tries' ])
      go rest (inl o) = record { at = λ s i. i }
      go rest (inr tries') = rest tries'

IsWithin-refl : (a : Allowance) → IsWithin a a 0
IsWithin-refl (finite (pos v)) = omega arith
IsWithin-refl (finite (negsuc v)) = (refl, refl)
IsWithin-refl infinite = refl

-- However long a session runs, whatever its profile, the model and the tools do, and whether or not
-- something raises: of its turns and of its tool calls it has used and left what its budget gave, so
-- it never uses more than that; a budget below zero is never drawn on. And what is used is counted: a
-- reply that is asked for uses one turn, or none on a final turn, whatever becomes of it; and of the
-- calls of a reply, once they have run, it uses just what the tools that were run cost, without the one
-- that the turn forced, and takes nothing back where one of them raises.
pub run-IsInBudget :
    {W : Type 0} (e : Setting W) (trace said : Exception → String) (fuel : ℕ) (s : Session W)
    (turn : Turn W) (tries : ℤ) (forced : Option (BoundTool W)) (calls : List (Call W))
    (t : Session W)
    → s.spent.turns ≡ 0
    → s.spent.tool_calls ≡ 0
    → IsInBudget s.remaining (run e trace said fuel s).1
      × ((converse e turn tries forced t).1.spent.turns
          ≡ t.spent.turns + (if is_final turn then 0 else 1))
      × IsCharged e forced t (run_tools e forced calls t)
unfolding run caught
run-IsInBudget {W = W} e trace said fuel s turn tries forced calls t ht hc = (
  go (loop e fuel collect_tries s) ((Leaves-loop e s.remaining fuel collect_tries).at s begins),
  converse-turns e turn tries forced t,
  run_tools-IsCharged e forced calls t,
)
  where
    begins : IsInBudget s.remaining s
    begins = rw (ht, hc) (IsWithin-refl s.remaining.turns, IsWithin-refl s.remaining.tool_calls)

    go :
        (r : Result (Option Outcome) × Session W)
        → IsInBudget s.remaining r.1
        → IsInBudget s.remaining (caught e trace said r).1
    go (ok o, s') i = i
    go (raise x, s') i = i
