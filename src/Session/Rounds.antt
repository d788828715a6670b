-- ===== src/Session/Rounds.antt =====
-- `Session` of session.py: its state, and what it does with one reply of the model.
use ancalagon.Base.{
  ℕ, ◌+◌, String, same_text, take_text, Bool, true, false, not, ◌&&◌, if◌then◌else◌, Option, none,
  some, List, [], ◌∷◌, ◌++◌, Result,
}
use ancalagon.Base.Exec.{Exec, pure, gets, modify, ◌>>=◌, ◌>>◌}
use ancalagon.Contracts.Messages.{
  MessageRole, ToolUseFromModel, ToolResultBlock, Block, text, tool_result, Message,
}
use ancalagon.Contracts.Budgets.{
  Allowance, Budget, Spend, permits, spend_tool_calls, plus_tool_calls,
}
use ancalagon.Transcript.History.{uses_in}
use ancalagon.Session.Tools.{
  ToolSpec, ToolSchema, same_spec, is_submit, Payload, ToolResult, BoundTool, ToolUse, Call, known,
  unknown_tool, resolved,
}
use ancalagon.Session.Profiles.{Outcome, Reply, Turn, Profile, is_final}

-- What formats a text: the sizes of the texts are not bounded here.
pub record Texts : Type 0 where
  pub shown : ToolResult → String
  pub over_budget : ToolSpec → Allowance → String
  pub refused : ToolSpec → String → String
  pub answer_summary : String → String
  pub idling : List ℕ → String
  pub said : List Block → String

-- The objects that a session was given and that do not change, and the world they act on.
pub record Setting (W : Type 0) : Type 0 where
  pub agent_id : ℕ
  pub registry : List (BoundTool W)
  pub profile : Profile W
  pub texts : Texts
  pub now : W → ℕ
  pub write : Message → W → Result (Unit {0}) × W
  pub unread : W → Result (List String)
  pub mark : ℕ → W → Result (Unit {0}) × W
  pub outstanding : W → Result (List ℕ)
  pub uncollected : W → Result (List ℕ)
  pub complete : Turn W → List Message → List ToolSchema → Option ToolSchema → W → Result Reply × W
  pub meter : ℕ → W → Result (Unit {0}) × W
  pub compact_above_tokens : ℕ
  pub keep_recent_messages : ℕ
  pub pointer : ToolResultBlock → String
  pub json_size : Message → ℕ
  pub noted : String → String

pub record Session (W : Type 0) : Type 0 where
  pub messages : List Message
  pub remaining : Budget
  pub spent : Spend
  pub seq : ℕ
  pub world : W

abbrev pub rejected_chars : ℕ
rejected_chars = 2000

abbrev pub summary_chars : ℕ
summary_chars = 200

abbrev pub no_answer : String
no_answer = "no final answer"

module _ {W : Type 0} where
  abbrev pub on_world : {A : Type 0} → (W → Result A × W) → Exec (Session W) A
  on_world op s = let (r, w) = op s.world in (r, record s { world = w })

  -- `_forcing`, `_answering`.
  unfoldable pub is_forcing : BoundTool W → Option (BoundTool W) → Bool
  unfolding same_spec
  is_forcing t none = false
  is_forcing t (some forced) = same_spec t.spec forced.spec

  unfoldable pub is_answering : Option (BoundTool W) → Bool
  is_answering none = false
  is_answering (some forced) = is_submit forced.spec.category

  module _ (e : Setting W) where
    -- The message that `_record` appends.
    abbrev pub next_message : MessageRole → List Block → Session W → Message
    next_message role blocks s = record {
      role = role;
      blocks = blocks;
      agent = e.agent_id;
      seq = s.seq;
      ts = e.now s.world;
    }

    -- `_record`: the message is in memory before the transcript has it.
    unfoldable pub record_message : MessageRole → List Block → Exec (Session W) (Unit {0})
    record_message role blocks s =
        let m = next_message role blocks s in
        on_world (e.write m) (record s { seq = s.seq + 1; messages = s.messages ++ m ∷ [] })

    abbrev pub use_tool_calls : ℕ → Session W → Session W
    use_tool_calls cost s = record s {
      remaining = spend_tool_calls s.remaining cost;
      spent = plus_tool_calls s.spent cost;
    }

    abbrev pub refusal : String → String → Block
    refusal id reason =
        tool_result (record {
          tool_use_id = id;
          content = reason;
          is_error = true;
          path = "";
          byte_count = 0;
        })

    abbrev pub report : String → ToolResult → Block
    report id result = tool_result (record {
      tool_use_id = id;
      content = e.texts.shown result;
      is_error = not result.is_ok;
      path = result.path;
      byte_count = result.byte_count;
    })

    abbrev pub Ran : Type 0
    Ran = List (ToolUse W × ToolResult)

    unfoldable pub invoked : ToolUse W → Exec (Session W) (Block × Ran)
    invoked use_of = do
      result ← on_world (use_of.tool.invoke use_of.arguments)
      pure (report use_of.id result, (use_of, result) ∷ [])

    unfoldable pub cost_of : BoundTool W → Option (BoundTool W) → ℕ
    unfolding is_forcing
    cost_of t exempt = if is_forcing t exempt then 0 else t.spec.cost

    -- The body of the loop of `_run_tools`.
    unfoldable pub run_call : Option (BoundTool W) → Call W → Exec (Session W) (Block × Ran)
    unfolding cost_of invoked spend_tool_calls plus_tool_calls permits
    run_call exempt (unknown_tool id reason) s = pure (refusal id reason, []) s
    run_call exempt (known use_of) s =
        let cost = cost_of use_of.tool exempt in
        if permits s.remaining.tool_calls cost
        then (do modify (use_tool_calls cost); invoked use_of) s
        else pure
            (refusal use_of.id (e.texts.over_budget use_of.tool.spec s.remaining.tool_calls), []) s

    unfoldable pub run_calls :
        Option (BoundTool W) → List (Call W) → Exec (Session W) (List Block × Ran)
    unfolding run_call
    run_calls exempt [] = pure ([], [])
    run_calls exempt (c ∷ calls) = do
      (block, one) ← run_call exempt c
      (blocks, rest) ← run_calls exempt calls
      pure (block ∷ blocks, one ++ rest)

    -- `_run_tools`.
    unfoldable pub run_tools : Option (BoundTool W) → List (Call W) → Exec (Session W) Ran
    unfolding run_calls record_message
    run_tools exempt calls = do
      (blocks, results) ← run_calls exempt calls
      record_message MessageRole.user blocks
      pure results

    -- `_prepare_final_turn`.
    unfoldable pub is_last_user : List Message → Bool
    is_last_user [] = false
    is_last_user (m ∷ []) = elim m.role [ MessageRole.user ↦ true | MessageRole.assistant ↦ false ]
    is_last_user (m ∷ n ∷ messages) = is_last_user (n ∷ messages)

    unfoldable pub acknowledge : Exec (Session W) (Unit {0})
    unfolding is_last_user record_message
    acknowledge s =
        if is_last_user s.messages
        then record_message MessageRole.assistant (text "Understood." ∷ []) s
        else pure tt s

    unfoldable pub instruct : String → Exec (Session W) (Unit {0})
    unfolding acknowledge record_message
    instruct said s =
        if same_text said ""
        then pure tt s
        else (do acknowledge; record_message MessageRole.user (text said ∷ [])) s

    unfoldable pub prepare_final_turn : Turn W → Exec (Session W) (Unit {0})
    unfolding instruct
    prepare_final_turn turn = instruct (e.profile.instructs turn)

    -- `_outcome_of_use`.
    unfoldable pub outcome_of_use : Payload → Bool → Spend → Option Outcome
    outcome_of_use (Payload.asked question) final spent =
        some (Outcome.needs_input question (take_text summary_chars question) spent)
    outcome_of_use (Payload.idled waiting_for seen_through) final spent =
        some
          (Outcome.idling (take_text summary_chars (e.texts.idling waiting_for)) spent seen_through)
    outcome_of_use (Payload.submitted answer) true spent =
        some
          (Outcome.exhausted answer (take_text summary_chars (e.texts.answer_summary answer)) spent)
    outcome_of_use (Payload.submitted answer) false spent =
        some
          (Outcome.completed answer (take_text summary_chars (e.texts.answer_summary answer)) spent)
    outcome_of_use (Payload.other content) final spent = none

    -- `_settled`: the first that is not pending.
    unfoldable pub first_of : Option Outcome → Option Outcome → Option Outcome
    first_of (some o) rest = some o
    first_of none rest = rest

    unfoldable pub settled : Ran → Bool → Spend → Option Outcome
    unfolding first_of outcome_of_use
    settled [] final spent = none
    settled ((use_of, result) ∷ ran) final spent =
        first_of (outcome_of_use result.summary final spent) (settled ran final spent)

    -- `_refused`: the first result that is not ok.
    unfoldable pub refused : Ran → Spend → Option Outcome
    refused [] spent = none
    refused ((use_of, result) ∷ ran) spent =
        let rest = refused ran spent in
        if result.is_ok
        then rest
        else some (
            Outcome.failed (e.texts.refused use_of.tool.spec result.error)
              (take_text rejected_chars use_of.arguments) spent)

    unfoldable pub first_arguments : List ToolUseFromModel → String
    first_arguments [] = ""
    first_arguments (u ∷ uses) = u.arguments

    -- `_ended`, which is called with at least one call asked for.
    unfoldable pub ended : Ran → List ToolUseFromModel → Spend → Outcome
    unfolding refused first_arguments
    ended ran uses spent = elim (refused ran spent) [
      | some failure ↦ failure
      | none ↦ Outcome.failed no_answer (take_text rejected_chars (first_arguments uses)) spent
    ]

    -- `_uncalled`.
    unfoldable pub uncalled : Reply → Turn W → Exec (Session W) (Option Outcome)
    unfolding is_final record_message
    uncalled reply turn s =
        if is_final turn
        then pure
            (some (
              Outcome.failed no_answer (take_text rejected_chars (e.texts.said reply.blocks))
                s.spent))
            s
        else (do record_message MessageRole.user (text (e.profile.nudges turn) ∷ []); pure none) s

    unfoldable pub after_tools :
        List ToolUseFromModel → Turn W → Option (BoundTool W) → Ran → Spend → Option Outcome
    unfolding settled ended is_final is_answering first_of
    after_tools uses turn forced ran spent =
        first_of (settled ran (is_final turn) spent)
          (if is_final turn && is_answering forced then some (ended ran uses spent) else none)

    unfoldable pub evaluate_uses :
        List ToolUseFromModel
        → Reply
        → Turn W
        → Option (BoundTool W)
        → Exec (Session W) (Option Outcome)
    unfolding uncalled run_tools resolved after_tools
    evaluate_uses [] reply turn forced = uncalled reply turn
    evaluate_uses (u ∷ uses) reply turn forced = do
      ran ← run_tools forced (resolved (u ∷ uses) e.registry)
      gets (λ s. after_tools (u ∷ uses) turn forced ran s.spent)

    -- `_evaluate_turn`.
    unfoldable pub evaluate_turn :
        Reply → Turn W → Option (BoundTool W) → Exec (Session W) (Option Outcome)
    unfolding evaluate_uses uses_in
    evaluate_turn reply turn forced = evaluate_uses (uses_in reply.blocks) reply turn forced
