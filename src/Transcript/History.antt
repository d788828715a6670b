-- ===== src/Transcript/History.antt =====
-- transcript/history.py: a conversation that was cut off is made one that a model accepts.
use ancalagon.Base.{
  ◌+◌, ◌≡◌, ◌≢◌, refl, sym, ap, String, true, List, [], ◌∷◌, ◌++◌, map, last, Option, none, some,
  ◌⊎◌, inl, inr,
}
use ancalagon.Contracts.Messages.{
  MessageRole, ToolUseFromModel, Block, text, tool_use, tool_result, Message,
}

abbrev pub interrupted : String
interrupted = "interrupted: agent terminated before this tool returned"

-- `[b for b in blocks if isinstance(b, ToolUseFromModel)]`.
unfoldable pub uses_in : List Block → List ToolUseFromModel
uses_in [] = []
uses_in (tool_use u ∷ blocks) = u ∷ uses_in blocks
uses_in (text s ∷ blocks) = uses_in blocks
uses_in (tool_result b ∷ blocks) = uses_in blocks

abbrev unanswered_of : MessageRole → List Block → List ToolUseFromModel
unfolding uses_in
unanswered_of MessageRole.assistant blocks = uses_in blocks
unanswered_of MessageRole.user blocks = []

unfoldable pub unanswered : Message → List ToolUseFromModel
unfolding unanswered_of uses_in
unanswered last = unanswered_of last.role last.blocks

abbrev pub interruption : ToolUseFromModel → Block
interruption u = tool_result (record {
  tool_use_id = u.id;
  content = interrupted;
  is_error = true;
  path = "";
  byte_count = 0;
})

unfoldable pub synthetic : Message → List ToolUseFromModel → Message
synthetic last pending = record {
  role = MessageRole.user;
  blocks = map interruption pending;
  agent = last.agent;
  seq = last.seq + 1;
  ts = last.ts;
}

repaired : List Message → Message → List ToolUseFromModel → List Message
repaired messages last [] = messages
repaired messages last (u ∷ pending) = messages ++ synthetic last (u ∷ pending) ∷ []

repair_last : List Message → Option Message → List Message
unfolding repaired unanswered synthetic
repair_last messages none = messages
repair_last messages (some last) = repaired messages last (unanswered last)

unfoldable pub repair : List Message → List Message
unfolding repair_last
repair messages = repair_last messages (last messages)

-- The ids that a message's results answer, in order.
unfoldable pub answers_in : List Block → List String
answers_in [] = []
answers_in (tool_result b ∷ blocks) = b.tool_use_id ∷ answers_in blocks
answers_in (text s ∷ blocks) = answers_in blocks
answers_in (tool_use u ∷ blocks) = answers_in blocks

answers_in-interruption :
    (pending : List ToolUseFromModel)
    → answers_in (map interruption pending) ≡ map (λ u. u.id) pending
unfolding answers_in
answers_in-interruption [] = refl
answers_in-interruption (u ∷ pending) =
    ap (λ (l : List String). u.id ∷ l) (answers_in-interruption pending)

pub last-snoc : (ms : List Message) (m : Message) → last (ms ++ m ∷ []) ≡ some m
last-snoc [] m = refl
last-snoc (a ∷ []) m = refl
last-snoc (a ∷ b ∷ ms) m = last-snoc (b ∷ ms) m

-- A repaired history does not end with calls that nothing answers. Either no call of the last message
-- was open, and it is the history itself; or some were, and it is the history and one message more, of
-- the user, that answers the open calls, each once and in order, and is numbered next.
pub repair-unanswered :
    (messages : List Message) (m : Message)
    → last messages ≡ some m
    → (unanswered m ≡ []) × (repair messages ≡ messages)
      ⊎ (unanswered m ≢ [])
        × (answer : Message) × (repair messages ≡ messages ++ answer ∷ [])
        × (answer.role ≡ MessageRole.user)
        × (answers_in answer.blocks ≡ map (λ u. u.id) (unanswered m))
        × (answer.seq ≡ m.seq + 1)
unfolding repair
repair-unanswered messages m e = rw e (go (unanswered m))
  where
    nonempty : (u : ToolUseFromModel) (us : List ToolUseFromModel) → (u ∷ us) ≢ []
    nonempty u us h = cc

    go :
        (pending : List ToolUseFromModel)
        → (pending ≡ []) × (repaired messages m pending ≡ messages)
          ⊎ (pending ≢ [])
            × (answer : Message) × (repaired messages m pending ≡ messages ++ answer ∷ [])
            × (answer.role ≡ MessageRole.user)
            × (answers_in answer.blocks ≡ map (λ u. u.id) pending)
            × (answer.seq ≡ m.seq + 1)
    go [] = inl (refl, refl)
    go (u ∷ pending) = inr (
      nonempty u pending,
      synthetic m (u ∷ pending),
      refl,
      refl,
      answers_in-interruption (u ∷ pending),
      refl,
    )

-- Repairing twice is repairing once.
pub repair-repair : (messages : List Message) → repair (repair messages) ≡ repair messages
unfolding repair
repair-repair messages = go (last messages) refl
  where
    settled :
        (m : Message) (pending : List ToolUseFromModel)
        → unanswered m ≡ pending
        → last messages ≡ some m
        → repair (repaired messages m pending) ≡ repaired messages m pending
    settled m [] e l = rw (l, e) refl
    settled m (u ∷ pending) e l = rw (last-snoc messages (synthetic m (u ∷ pending))) refl

    go :
        (o : Option Message)
        → last messages ≡ o
        → repair (repair_last messages o) ≡ repair_last messages o
    go none e = rw e refl
    go (some m) e = settled m (unanswered m) refl e

-- One conversation goes on from another.
abbrev pub Extends : List Message → List Message → Type 0
Extends kept messages = (tail : List Message) × (messages ≡ kept ++ tail)

Extends-refl : (ms : List Message) → Extends ms ms
Extends-refl ms = ([], sym (append-nil ms))
  where
    append-nil : (l : List Message) → l ++ [] ≡ l
    append-nil [] = refl
    append-nil (m ∷ l) = ap (λ (k : List Message). m ∷ k) (append-nil l)

pub Extends-append : (kept ms more : List Message) → Extends kept ms → Extends kept (ms ++ more)
Extends-append kept ms more (tail, e) = (tail ++ more, rw e (append_assoc kept tail more))
  where
    append_assoc : (a b c : List Message) → (a ++ b) ++ c ≡ a ++ (b ++ c)
    append_assoc [] b c = refl
    append_assoc (m ∷ a) b c = ap (λ (k : List Message). m ∷ k) (append_assoc a b c)

pub repair-Extends : (messages : List Message) → Extends messages (repair messages)
unfolding repair repair_last
repair-Extends messages = go (last messages)
  where
    settled :
        (m : Message) (pending : List ToolUseFromModel)
        → Extends messages (repaired messages m pending)
    settled m [] = Extends-refl messages
    settled m (u ∷ pending) = (synthetic m (u ∷ pending) ∷ [], refl)

    go : (o : Option Message) → Extends messages (repair_last messages o)
    go none = Extends-refl messages
    go (some m) = settled m (unanswered m)
