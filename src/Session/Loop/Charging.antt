-- ===== src/Session/Loop/Charging.antt =====
-- What a reply uses: a turn, unless the turn is final, and what the tools that are run for it cost,
-- unless the turn forced the tool.
use ancalagon.Base.{
  ℕ, ◌+◌, ◌≤◌, ◌≡◌, refl, ℤ, true, if◌then◌else◌, List, [], ◌∷◌, ◌++◌, Option, Bool-cases, inl, inr,
  arith, Result, ok, raise, ap, ◌∙◌,
}
use ancalagon.Base.Exec.{Leaves-after, Leaves-bind, continue, pure, ◌>>=◌}
use ancalagon.Contracts.Messages.{MessageRole, Block}
use ancalagon.Contracts.Budgets.{
  Budget, Spend, permits, spend_tool_calls, plus_turn, plus_tool_calls,
}
use ancalagon.Session.Tools.{BoundTool, ToolResult, ToolUse, Call, known, unknown_tool}
use ancalagon.Session.Profiles.{Turn, is_final}
use ancalagon.Session.Rounds.{
  Setting, Session, record_message, evaluate_turn, is_forcing, use_tool_calls, cost_of, invoked,
  run_call, run_calls, run_tools,
}
use ancalagon.Session.Loop.Keeping.{
  Leaves-prepare_final_turn, Leaves-complete, Leaves-record_message, Leaves-evaluate_turn,
  Leaves-unless_settled,
}
use ancalagon.Session.Loop.{complete, begin_turn, converse}

module _ {W : Type 0} (e : Setting W) where
  -- So many turns are used.
  abbrev Used : ℕ → Budget → Spend → Type 0
  Used n left used = used.turns ≡ n

  unpaid :
      (n : ℕ) (b : Budget) (used : Spend) (cost : ℕ)
      → permits b.tool_calls cost ≡ true
      → Used n b used
      → Used n (spend_tool_calls b cost) (plus_tool_calls used cost)
  unfolding plus_tool_calls
  unpaid n b used cost p h = h

  begin_turn-turns :
      (turn : Turn W) (s : Session W)
      → (begin_turn e turn s).1.spent.turns ≡ s.spent.turns + (if is_final turn then 0 else 1)
  unfolding begin_turn plus_turn
  begin_turn-turns turn s = elim (Bool-cases (is_final turn)) [
    | inl final ↦ rw final (
        (Leaves-prepare_final_turn e (Used (s.spent.turns + 0)) (unpaid (s.spent.turns + 0))
            turn).at
          s (omega arith))
    | inr more ↦ rw more refl
  ]

  -- A final turn is free, and any other is charged, whatever becomes of it.
  pub converse-turns :
      (turn : Turn W) (tries : ℤ) (forced : Option (BoundTool W)) (s : Session W)
      → (converse e turn tries forced s).1.spent.turns
        ≡ s.spent.turns + (if is_final turn then 0 else 1)
  unfolding converse
  converse-turns turn tries forced s =
      let n = s.spent.turns + (if is_final turn then 0 else 1) in
      let I = λ (t : Session W). t.spent.turns ≡ n in
      Leaves-after I (begin_turn e turn) _ s (begin_turn-turns turn s) (λ _.
        Leaves-bind I (complete e turn _ forced) _
          (Leaves-complete e (Used n) (unpaid n) turn _ forced)
          (λ reply.
            Leaves-bind I (record_message e MessageRole.assistant reply.blocks) _
              (Leaves-record_message e (Used n) (unpaid n) MessageRole.assistant reply.blocks)
              (λ _.
                Leaves-bind I (evaluate_turn e reply turn forced) _
                  (Leaves-evaluate_turn e (Used n) (unpaid n) reply turn forced)
                  (λ o. Leaves-unless_settled e (Used n) (unpaid n) turn tries forced o))))

  -- What the tools that were run cost, but the one that was forced.
  abbrev pub charges : Option (BoundTool W) → List (ToolUse W × ToolResult) → ℕ
  charges forced [] = 0
  charges forced ((u, result) ∷ ran) =
      (if is_forcing u.tool forced then 0 else u.tool.spec.cost) + charges forced ran

  -- After some calls, just what they cost has been charged; where one raised, no less than nothing.
  abbrev pub IsCharged :
      Option (BoundTool W) → Session W → Result (List (ToolUse W × ToolResult)) × Session W → Type 0
  IsCharged forced s (ok ran, s') = s'.spent.tool_calls ≡ s.spent.tool_calls + charges forced ran
  IsCharged forced s (raise x, s') = s.spent.tool_calls ≤ s'.spent.tool_calls

  abbrev Charged :
      {B : Type 0}
      → Option (BoundTool W)
      → Session W
      → Result (B × List (ToolUse W × ToolResult)) × Session W
      → Type 0
  Charged forced s (ok (block, ran), s') = IsCharged forced s (ok ran, s')
  Charged forced s (raise x, s') = IsCharged forced s (raise x, s')

  charges-append :
      (forced : Option (BoundTool W)) (xs ys : List (ToolUse W × ToolResult))
      → charges forced (xs ++ ys) ≡ charges forced xs + charges forced ys
  charges-append forced [] ys = omega arith
  charges-append forced ((u, r) ∷ xs) ys = omega (arith, charges-append forced xs ys)

  invoked-Charged :
      (forced : Option (BoundTool W)) (u : ToolUse W) (s t : Session W)
      → t.spent.tool_calls
        ≡ s.spent.tool_calls + (if is_forcing u.tool forced then 0 else u.tool.spec.cost)
      → Charged forced s (invoked e u t)
  unfolding invoked
  invoked-Charged forced u s t h = by (u.tool.invoke u.arguments t.world) refl
    where
      by :
          (r : Result ToolResult × W)
          → u.tool.invoke u.arguments t.world ≡ r
          → Charged forced s (invoked e u t)
      by (ok x, w) k = rw k (omega (arith, h))
      by (raise x, w) k = rw k (omega (arith, h))

  run_call-Charged :
      (forced : Option (BoundTool W)) (c : Call W) (s : Session W)
      → Charged forced s (run_call e forced c s)
  unfolding run_call cost_of plus_tool_calls
  run_call-Charged forced (unknown_tool id reason) s = omega arith
  run_call-Charged forced (known u) s =
      elim (Bool-cases (permits s.remaining.tool_calls (cost_of e u.tool forced))) [
        | inl p ↦
            rw p (invoked-Charged forced u s (use_tool_calls e (cost_of e u.tool forced) s) refl)
        | inr p ↦ rw p (omega arith)
      ]

  run_calls-Charged :
      (forced : Option (BoundTool W)) (calls : List (Call W)) (s : Session W)
      → Charged forced s (run_calls e forced calls s)
  unfolding run_calls
  run_calls-Charged forced [] s = omega arith
  run_calls-Charged forced (c ∷ calls) s =
      first (run_call e forced c s) (run_call-Charged forced c s) (run_calls-Charged forced calls)
    where
      then' :
          (block : Block) (one : List (ToolUse W × ToolResult)) (s₁ : Session W)
          → s₁.spent.tool_calls ≡ s.spent.tool_calls + charges forced one
          → (r : Result (List Block × List (ToolUse W × ToolResult)) × Session W)
          → Charged forced s₁ r
          → Charged forced s (
              continue
                (λ (p : List Block × List (ToolUse W × ToolResult)). pure (block ∷ p.0, one ++ p.1))
                r)
      then' block one s₁ h (ok (blocks, rest), s₂) k =
          omega (arith, h, k, charges-append forced one rest)
      then' block one s₁ h (raise x, s₂) k = omega (arith, h, k)

      first :
          (r : Result (Block × List (ToolUse W × ToolResult)) × Session W)
          → Charged forced s r
          → ((t : Session W) → Charged forced t (run_calls e forced calls t))
          → Charged forced s (
              continue
                (λ (p : Block × List (ToolUse W × ToolResult)).
                  run_calls e forced calls >>= λ (q : List Block × List (ToolUse W × ToolResult)).
                  pure (p.0 ∷ q.0, p.1 ++ q.1))
                r)
      first (ok (block, one), s₁) h later =
          then' block one s₁ h (run_calls e forced calls s₁) (later s₁)
      first (raise x, s₁) h later = h

  -- The tools that a reply calls are charged.
  pub run_tools-IsCharged :
      (forced : Option (BoundTool W)) (calls : List (Call W)) (s : Session W)
      → IsCharged forced s (run_tools e forced calls s)
  unfolding run_tools record_message
  run_tools-IsCharged forced calls s =
      by (run_calls e forced calls s) (run_calls-Charged forced calls s)
    where
      written :
          (ran : List (ToolUse W × ToolResult)) (s₁ s₂ : Session W)
          → s₁.spent.tool_calls ≡ s.spent.tool_calls + charges forced ran
          → s₂.spent ≡ s₁.spent
          → (r : Result (Unit {0})) → IsCharged forced s (continue (λ _. pure ran) (r, s₂))
      written ran s₁ s₂ h same (ok _) = ap (λ (z : Spend). z.tool_calls) same ∙ h
      written ran s₁ s₂ h same (raise x) = omega (arith, h, ap (λ (z : Spend). z.tool_calls) same)

      by :
          (r : Result (List Block × List (ToolUse W × ToolResult)) × Session W)
          → Charged forced s r
          → IsCharged forced s (
              continue
                (λ (p : List Block × List (ToolUse W × ToolResult)).
                  record_message e MessageRole.user p.0 >>= λ _. pure p.1)
                r)
      by (ok (blocks, ran), s₁) h =
          written ran s₁ (record_message e MessageRole.user blocks s₁).1 h refl
            (record_message e MessageRole.user blocks s₁).0
      by (raise x, s₁) h = h
