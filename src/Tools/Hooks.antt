-- ===== src/Tools/Hooks.antt =====
-- tools/registry/composite_before.py, composite_after.py and bind_tool.py: a call's arguments are
-- parsed, reviewed by the hooks that come before the tool, given to it, and its result reviewed.
use ancalagon.Base.{
  String, Bool, true, ◌≡◌, List, [], ◌∷◌, Option, none, some, Result, ok, raise, if◌then◌else◌,
  Bool-cases, inl, inr, subst,
}
use ancalagon.Base.Exec.{Exec, pure, ◌>>=◌, continue}
use ancalagon.Session.Tools.{ToolResult}

-- `Accepted | Refused`, with a refusal's reason.
pub data Reviewed (V : Type 0) : Type 0 where
  accepted : (value : V) → Reviewed V
  refused : (reason : String) → Reviewed V

-- `W` is what hooks and tools act on, `V` the pydantic values and `C` their classes.
module _ {W V C : Type 0} (is_instance : V → C → Bool) (class_of : V → C) where
  -- The reasons of the refusals name the classes of the values.
  module _ (wrong_before wrong_after : V → String) where
    before_rest : (V → Exec W (Reviewed V)) → C → Reviewed V → Exec W (Reviewed V)
    before_rest onward wanted (refused reason) = pure (refused reason)
    before_rest onward wanted (accepted value) =
        if is_instance value wanted then onward value else pure (refused (wrong_before value))

    -- `CompositeBefore.__call__`, with `_rest` and `_onward`.
    unfoldable pub composite_before : List (V → Exec W (Reviewed V)) → V → Exec W (Reviewed V)
    unfolding before_rest
    composite_before [] args = pure (accepted args)
    composite_before (first ∷ hooks) args = do
      reviewed ← first args
      before_rest (composite_before hooks) (class_of args) reviewed

    -- Which values are tool results.
    module _ (as_result : V → Option ToolResult) where
      after_rest : (ToolResult → Exec W (Reviewed V)) → V → Option ToolResult → Exec W (Reviewed V)
      after_rest onward value (some ran) = onward ran
      after_rest onward value none = pure (refused (wrong_after value))

      after_reviewed : (ToolResult → Exec W (Reviewed V)) → Reviewed V → Exec W (Reviewed V)
      unfolding after_rest
      after_reviewed onward (refused reason) = pure (refused reason)
      after_reviewed onward (accepted value) = after_rest onward value (as_result value)

      -- `CompositeAfter.__call__`, with `_rest` and `_onward`; a result is a value too.
      module _ (value_of : ToolResult → V) where
        unfoldable pub composite_after :
            List (V → ToolResult → Exec W (Reviewed V)) → V → ToolResult → Exec W (Reviewed V)
        unfolding after_reviewed
        composite_after [] args ran = pure (accepted (value_of ran))
        composite_after (first ∷ hooks) args ran = do
          reviewed ← first args ran
          after_reviewed (composite_after hooks args) reviewed

  -- A tool as `bind_tool` has it: `parse` is the validation of its arguments, `failure` the
  -- context's, which writes the error to a file.
  module _ (args_model : C) (parse : String → Option V) (run : V → Exec W ToolResult)
      (failure : String → Exec W ToolResult) (as_result : V → Option ToolResult)
      (faults : String → String) (wrong_args wrong_result : V → String)
      (before : V → Exec W (Reviewed V)) (after : V → ToolResult → Exec W (Reviewed V)) where
    result_or : V → Option ToolResult → Exec W ToolResult
    result_or given (some ran) = pure ran
    result_or given none = failure (wrong_result given)

    -- `_as_result`.
    unfoldable pub given_result : V → Exec W ToolResult
    unfolding result_or
    given_result given = result_or given (as_result given)

    reviewed_as : Reviewed V → Exec W ToolResult
    unfolding given_result
    reviewed_as (refused reason) = failure reason
    reviewed_as (accepted value) = given_result value

    -- `_reviewed`.
    unfoldable pub reviewed_result : V → ToolResult → Exec W ToolResult
    unfolding reviewed_as
    reviewed_result args ran = do reviewed ← after args ran; reviewed_as reviewed

    -- `_ran`.
    unfoldable pub ran_with : V → Exec W ToolResult
    unfolding reviewed_result
    ran_with given =
        if is_instance given args_model
        then (do ran ← run given; reviewed_result given ran)
        else failure (wrong_args given)

    gate : Reviewed V → Exec W ToolResult
    unfolding ran_with
    gate (refused reason) = failure reason
    gate (accepted value) = ran_with value

    -- `_gated`.
    unfoldable pub gated : V → Exec W ToolResult
    unfolding gate
    gated args = do reviewed ← before args; gate reviewed

    parsed : String → Option V → Exec W ToolResult
    unfolding gated
    parsed arguments none = failure (faults arguments)
    parsed arguments (some args) = gated args

    -- `_invoked`.
    unfoldable pub invoked : String → Exec W ToolResult
    unfolding parsed
    invoked arguments = parsed arguments (parse arguments)

module _ {W V C : Type 0} (is_instance : V → C → Bool) (class_of : V → C) (wrong : V → String) where
  -- What a review accepts is of this class.
  Accepts : C → Result (Reviewed V) × W → Type 0
  Accepts c (ok (accepted value), w) = is_instance value c ≡ true
  Accepts c (ok (refused reason), w) = Unit
  Accepts c (raise e, w) = Unit

  composite_before-Accepts :
      (c : C) (hooks : List (V → Exec W (Reviewed V)))
      → ((v u : V)
          → is_instance v c ≡ true
          → is_instance u (class_of v) ≡ true
          → is_instance u c ≡ true)
      → (args : V) → is_instance args c ≡ true
      → (w : W) → Accepts c (composite_before is_instance class_of wrong wrong hooks args w)
  unfolding composite_before Accepts
  composite_before-Accepts c [] kind args h w = h
  composite_before-Accepts c (first ∷ hooks) kind args h w =
      go (λ v k. composite_before-Accepts c hooks kind v k) (first args w)
    where
      go :
          ((v : V)
            → is_instance v c ≡ true
            → (w' : W) → Accepts c (composite_before is_instance class_of wrong wrong hooks v w'))
          → (r : Result (Reviewed V) × W)
          → Accepts c (
              continue
                (before_rest is_instance class_of wrong wrong
                  (composite_before is_instance class_of wrong wrong hooks)
                  (class_of args))
                r)
      go rest (raise e, w') = tt
      go rest (ok (refused reason), w') = tt
      go rest (ok (accepted value), w') = elim (Bool-cases (is_instance value (class_of args))) [
        | inl same ↦ rw same (rest value (kind args value h same) w')
        | inr different ↦ rw different tt
      ]

-- Where every instance of a value's class is of each class that the value is of: what the before
-- hooks accept of arguments that are of the tool's class is of that class too, so the tool runs on it
-- and is never refused for the value that a hook put in place of the arguments.
pub composite_before-is_instance :
    {W V C : Type 0} (is_instance : V → C → Bool) (class_of : V → C) (wrong : V → String)
    (args_model : C) (hooks : List (V → Exec W (Reviewed V)))
    → ((v u : V)
        → is_instance v args_model ≡ true
        → is_instance u (class_of v) ≡ true
        → is_instance u args_model ≡ true)
    → (args value : V) (w w' : W) → is_instance args args_model ≡ true
    → composite_before is_instance class_of wrong wrong hooks args w ≡ (ok (accepted value), w')
    → is_instance value args_model ≡ true
unfolding Accepts
composite_before-is_instance is_instance class_of wrong args_model hooks kind args value w w' h e =
    subst (Accepts is_instance class_of wrong args_model) e
      (composite_before-Accepts is_instance class_of wrong args_model hooks kind args h w)
