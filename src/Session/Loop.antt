-- ===== src/Session/Loop.antt =====
-- `_deliver`, `_turn`, `_loop` and `run` of session.py: one pass for each reply of the model. The
-- loop takes fuel, one for each pass.
pub mod Keeping
pub mod Charging
pub mod Spending
pub mod Progress
pub mod Ending
use ancalagon.Base.{
  ℕ, zero, suc, ◌+◌, ◌==◌, ℤ, pos, ◌-ℤ◌, String, Bool, true, false, not, ◌&&◌, if◌then◌else◌,
  Option, none, some, List, [], ◌∷◌, map, length, ◌⊎◌, inl, inr, Result, ok, raise, Exception,
}
use ancalagon.Base.Exec.{Exec, pure, lift, gets, modify, ◌>>=◌, ◌>>◌, for_each}
use ancalagon.Contracts.Messages.{MessageRole, text, Message}
use ancalagon.Contracts.Budgets.{Budget, Spend, spend_turn, plus_turn}
use ancalagon.Transcript.Demote.{for_wire}
use ancalagon.Session.Tools.{ToolSchema, BoundTool}
use ancalagon.Session.Profiles.{Outcome, Delivery, Reply, Turn, is_final}
use ancalagon.Session.Rounds.{
  Setting, Session, on_world, record_message, prepare_final_turn, evaluate_turn, is_answering,
}

-- `a != b` on tuples of integers.
unfoldable pub same_numbers : List ℕ → List ℕ → Bool
same_numbers [] [] = true
same_numbers (a ∷ xs) (b ∷ ys) = a == b && same_numbers xs ys
same_numbers _ _ = false

abbrev pub collect_tries : ℤ
collect_tries = pos 2

module _ {W : Type 0} where
  declaration_of : Option (BoundTool W) → Option ToolSchema
  declaration_of none = none
  declaration_of (some t) = some t.spec.declaration

  -- Forced, and not to answer: the tool that collects.
  unfoldable pub is_collecting : Option (BoundTool W) → Bool
  unfolding is_answering
  is_collecting none = false
  is_collecting (some t) = not (is_answering (some t))

  module _ (e : Setting W) where
    -- `_complete`.
    unfoldable pub complete :
        Turn W → List ToolSchema → Option (BoundTool W) → Exec (Session W) Reply
    unfolding declaration_of for_wire
    complete turn tools forced = do
      reply ← (λ (s : Session W).
          on_world
            (e.complete turn
              (for_wire e.pointer e.json_size s.messages e.compact_above_tokens
                e.keep_recent_messages)
              tools (declaration_of forced))
            s)
      on_world (e.meter reply.usage)
      pure reply

    delivery_of : List String → Delivery
    delivery_of [] = Delivery.nothing
    delivery_of (n ∷ notes) = Delivery.note

    -- A method that only asks the world.
    abbrev pub ask : {A : Type 0} → (W → Result A) → Exec (Session W) A
    ask question s = (question s.world, s)

    -- `_deliver`.
    unfoldable pub deliver : Exec (Session W) Delivery
    unfolding delivery_of record_message
    deliver = do
      notes ← ask e.unread
      for_each (λ note. record_message e MessageRole.user (text (e.noted note) ∷ [])) notes
      on_world (e.mark (length notes))
      pure (delivery_of notes)

    -- `_turn`.
    unfoldable pub turn_of : Delivery → ℤ → Exec (Session W) (Turn W)
    turn_of delivered tries = do
      outstanding ← ask e.outstanding
      uncollected ← ask e.uncollected
      gets (λ s. record {
        offered = e.registry;
        remaining = s.remaining;
        spent = s.spent;
        outstanding = outstanding;
        uncollected = uncollected;
        tries = tries;
        delivered = delivered;
      })

    abbrev pub use_turn : Session W → Session W
    use_turn s = record s { remaining = spend_turn s.remaining; spent = plus_turn s.spent }

    -- The final turns are free, and the others are counted before the model is asked.
    unfoldable pub begin_turn : Turn W → Exec (Session W) (Unit {0})
    unfolding prepare_final_turn is_final spend_turn plus_turn
    begin_turn turn s = if is_final turn then prepare_final_turn e turn s else modify use_turn s

    unfoldable pub forced_in : Turn W → Option (BoundTool W)
    unfolding is_final
    forced_in turn = if is_final turn then e.profile.forces turn else none

    tries_after : Turn W → ℤ → List ℕ → ℤ
    unfolding same_numbers ◌-ℤ◌
    tries_after turn tries uncollected =
        if same_numbers uncollected turn.uncollected then tries -ℤ pos 1 else collect_tries

    -- Returned, or the tries that the next pass has.
    unfoldable pub next_tries : Turn W → ℤ → Option (BoundTool W) → Exec (Session W) ℤ
    unfolding tries_after is_collecting
    next_tries turn tries forced s =
        if is_collecting forced
        then (do uncollected ← ask e.uncollected; pure (tries_after turn tries uncollected)) s
        else pure tries s

    unfoldable pub unless_settled :
        Turn W → ℤ → Option (BoundTool W) → Option Outcome → Exec (Session W) (Outcome ⊎ ℤ)
    unfolding next_tries
    unless_settled turn tries forced (some outcome) = pure (inl outcome)
    unless_settled turn tries forced none = do
      tries' ← next_tries turn tries forced
      pure (inr tries')

    unfoldable pub converse : Turn W → ℤ → Option (BoundTool W) → Exec (Session W) (Outcome ⊎ ℤ)
    unfolding begin_turn complete record_message evaluate_turn unless_settled
    converse turn tries forced = do
      begin_turn turn
      reply ← complete turn (map (λ t. t.spec.declaration) (e.profile.offers turn)) forced
      record_message e MessageRole.assistant reply.blocks
      outcome ← evaluate_turn e reply turn forced
      unless_settled turn tries forced outcome

    unfoldable pub unless_halted : Turn W → ℤ → Option Outcome → Exec (Session W) (Outcome ⊎ ℤ)
    unfolding converse forced_in
    unless_halted turn tries (some outcome) = pure (inl outcome)
    unless_halted turn tries none = converse turn tries (forced_in turn)

    -- The body of the loop.
    unfoldable pub pass : ℤ → Exec (Session W) (Outcome ⊎ ℤ)
    unfolding deliver turn_of unless_halted
    pass tries = do
      delivered ← deliver
      turn ← turn_of delivered tries
      unless_halted turn tries (e.profile.halts turn)

    -- `_loop`, which the fuel ends with `none`.
    unfoldable pub loop : ℕ → ℤ → Exec (Session W) (Option Outcome)
    unfolding pass
    loop zero tries = pure none
    loop (suc fuel) tries = do
      step ← pass tries
      elim step [ inl outcome ↦ pure (some outcome) | inr tries' ↦ loop fuel tries' ]

    -- The two texts of an exception, and the characters kept of the second.
    module _ (trace said : Exception → String) where
      caught : Result (Option Outcome) × Session W → Option Outcome × Session W
      caught (ok outcome, s) = (outcome, s)
      caught (raise x, s) = (some (Outcome.failed (trace x) (said x) s.spent), s)

      -- `run`: an exception is a failed outcome.
      unfoldable pub run : ℕ → Session W → Option Outcome × Session W
      unfolding loop caught
      run fuel s = caught (loop fuel collect_tries s)

    begun : List Message → Budget → W → Session W
    begun messages budget w = record {
      messages = messages;
      remaining = budget;
      spent = record { turns = 0; tool_calls = 0 };
      seq = length messages;
      world = w;
    }

    -- `Session.__init__`: a conversation that is not resumed begins with the goal.
    unfoldable pub start : List Message → Budget → String → W → Result (Unit {0}) × Session W
    unfolding begun record_message
    start [] budget goal w = record_message e MessageRole.user (text goal ∷ []) (begun [] budget w)
    start (m ∷ messages) budget goal w = (ok tt, begun (m ∷ messages) budget w)
