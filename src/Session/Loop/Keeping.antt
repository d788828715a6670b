-- ===== src/Session/Loop/Keeping.antt =====
-- What holds of the budget and the spend of a session, and is kept by paying for tool calls, is kept
-- by every step of a pass but the one that uses a turn.
use ancalagon.Base.{
  ℕ, ◌≡◌, ℤ, length, true, List, [], ◌∷◌, Option, none, some, Bool-cases, inl, inr, same_text,
}
use ancalagon.Base.Exec.{pure, for_each, ◌>>◌, Leaves, Leaves-bind, Leaves-if, Leaves-for_each}
use ancalagon.Contracts.Messages.{MessageRole, Block, text, ToolUseFromModel}
use ancalagon.Contracts.Budgets.{Budget, Spend, permits, spend_tool_calls, plus_tool_calls}
use ancalagon.Transcript.History.{uses_in}
use ancalagon.Session.Tools.{ToolSchema, BoundTool, ToolUse, Call, known, unknown_tool, resolved}
use ancalagon.Session.Profiles.{Outcome, Reply, Turn, is_final}
use ancalagon.Session.Rounds.{
  Setting, Session, on_world, record_message, run_call, run_calls, run_tools, prepare_final_turn,
  uncalled, evaluate_turn, use_tool_calls, invoked, cost_of, instruct, acknowledge, evaluate_uses,
  is_last_user,
}
use ancalagon.Session.Loop.{
  complete, deliver, delivery_of, unless_settled, next_tries, ask, is_collecting,
}

module _ {W : Type 0} (e : Setting W) (J : Budget → Spend → Type 0)
    (pays : (b : Budget) (sp : Spend) (cost : ℕ)
      → permits b.tool_calls cost ≡ true
      → J b sp
      → J (spend_tool_calls b cost) (plus_tool_calls sp cost)) where
  abbrev I : Session W → Type 0
  I s = J s.remaining s.spent

  pub Leaves-record_message :
      (role : MessageRole) (blocks : List Block) → Leaves I (record_message e role blocks)
  unfolding record_message
  Leaves-record_message role blocks = record { at = λ s i. i }

  pub Leaves-invoked : (u : ToolUse W) → Leaves I (invoked e u)
  unfolding invoked
  Leaves-invoked u =
      Leaves-bind I (on_world (u.tool.invoke u.arguments)) _ (record { at = λ s i. i })
        (λ r. record { at = λ s i. i })

  pub Leaves-run_call :
      (exempt : Option (BoundTool W)) (c : Call W) → Leaves I (run_call e exempt c)
  unfolding run_call
  Leaves-run_call exempt (unknown_tool id reason) = record { at = λ s i. i }
  Leaves-run_call exempt (known u) = record {
    at = λ s i. elim (Bool-cases (permits s.remaining.tool_calls (cost_of e u.tool exempt))) [
      | inl p ↦ rw p (
          (Leaves-invoked u).at (use_tool_calls e (cost_of e u.tool exempt) s)
            (pays s.remaining s.spent (cost_of e u.tool exempt) p i))
      | inr p ↦ rw p i
    ];
  }

  pub Leaves-run_calls :
      (exempt : Option (BoundTool W)) (calls : List (Call W)) → Leaves I (run_calls e exempt calls)
  unfolding run_calls
  Leaves-run_calls exempt [] = record { at = λ s i. i }
  Leaves-run_calls exempt (c ∷ calls) =
      Leaves-bind I (run_call e exempt c) _ (Leaves-run_call exempt c) (λ _.
        Leaves-bind I (run_calls e exempt calls) _ (Leaves-run_calls exempt calls)
          (λ _. record { at = λ s i. i }))

  pub Leaves-run_tools :
      (exempt : Option (BoundTool W)) (calls : List (Call W)) → Leaves I (run_tools e exempt calls)
  unfolding run_tools
  Leaves-run_tools exempt calls =
      Leaves-bind I (run_calls e exempt calls) _ (Leaves-run_calls exempt calls) (λ r.
        Leaves-bind I (record_message e MessageRole.user r.0) _
          (Leaves-record_message MessageRole.user r.0) (λ _. record { at = λ s i. i }))

  pub Leaves-acknowledge : Leaves I (acknowledge e)
  unfolding acknowledge
  Leaves-acknowledge =
      Leaves-if I _ _ (λ s. is_last_user e s.messages)
        (Leaves-record_message MessageRole.assistant _) (record { at = λ s i. i })

  pub Leaves-prepare_final_turn : (turn : Turn W) → Leaves I (prepare_final_turn e turn)
  unfolding prepare_final_turn instruct
  Leaves-prepare_final_turn turn =
      Leaves-if I _ _ (λ _. same_text (e.profile.instructs turn) "") (record { at = λ s i. i })
        (Leaves-bind I (acknowledge e) _ Leaves-acknowledge
          (λ _. Leaves-record_message MessageRole.user (text (e.profile.instructs turn) ∷ [])))

  pub Leaves-uncalled : (reply : Reply) (turn : Turn W) → Leaves I (uncalled e reply turn)
  unfolding uncalled
  Leaves-uncalled reply turn =
      Leaves-if I _ _ (λ _. is_final turn) (record { at = λ s i. i })
        (Leaves-bind I (record_message e MessageRole.user (text (e.profile.nudges turn) ∷ [])) _
          (Leaves-record_message MessageRole.user _) (λ _. record { at = λ s i. i }))

  pub Leaves-evaluate_uses :
      (uses : List ToolUseFromModel) (reply : Reply) (turn : Turn W) (forced : Option (BoundTool W))
      → Leaves I (evaluate_uses e uses reply turn forced)
  unfolding evaluate_uses
  Leaves-evaluate_uses [] reply turn forced = Leaves-uncalled reply turn
  Leaves-evaluate_uses (u ∷ uses) reply turn forced =
      Leaves-bind I (run_tools e forced (resolved (u ∷ uses) e.registry)) _
        (Leaves-run_tools forced (resolved (u ∷ uses) e.registry)) (λ _. record { at = λ s i. i })

  pub Leaves-evaluate_turn :
      (reply : Reply) (turn : Turn W) (forced : Option (BoundTool W))
      → Leaves I (evaluate_turn e reply turn forced)
  unfolding evaluate_turn
  Leaves-evaluate_turn reply turn forced =
      Leaves-evaluate_uses (uses_in reply.blocks) reply turn forced

  pub Leaves-complete :
      (turn : Turn W) (tools : List ToolSchema) (forced : Option (BoundTool W))
      → Leaves I (complete e turn tools forced)
  unfolding complete
  Leaves-complete turn tools forced =
      Leaves-bind I _ _ (record { at = λ s i. i })
        (λ reply.
          Leaves-bind I (on_world (e.meter reply.usage)) _ (record { at = λ s i. i })
            (λ _. record { at = λ s i. i }))

  pub Leaves-deliver : Leaves I (deliver e)
  unfolding deliver
  Leaves-deliver =
      Leaves-bind I (ask e e.unread) _ (record { at = λ s i. i })
        (λ notes.
          Leaves-bind I
            (for_each (λ note. record_message e MessageRole.user (text (e.noted note) ∷ [])) notes)
            (λ _. on_world (e.mark (length notes)) >> pure (delivery_of e notes))
            (Leaves-for_each I _ (λ note. Leaves-record_message MessageRole.user _) notes)
            (λ _.
              Leaves-bind I (on_world (e.mark (length notes))) _ (record { at = λ s i. i })
                (λ _. record { at = λ s i. i })))

  pub Leaves-next_tries :
      (turn : Turn W) (tries : ℤ) (forced : Option (BoundTool W))
      → Leaves I (next_tries e turn tries forced)
  unfolding next_tries
  Leaves-next_tries turn tries forced =
      Leaves-if I _ _ (λ _. is_collecting forced)
        (Leaves-bind I (ask e e.uncollected) _ (record { at = λ s i. i })
          (λ _. record { at = λ s i. i }))
        (record { at = λ s i. i })

  pub Leaves-unless_settled :
      (turn : Turn W) (tries : ℤ) (forced : Option (BoundTool W)) (o : Option Outcome)
      → Leaves I (unless_settled e turn tries forced o)
  unfolding unless_settled
  Leaves-unless_settled turn tries forced none =
      Leaves-bind I (next_tries e turn tries forced) _ (Leaves-next_tries turn tries forced)
        (λ _. record { at = λ s i. i })
  Leaves-unless_settled turn tries forced (some o) = record { at = λ s i. i }
