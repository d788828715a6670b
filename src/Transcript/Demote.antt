-- ===== src/Transcript/Demote.antt =====
-- transcript/demote.py: old tool results give way to a pointer to the file that holds them.
use ancalagon.Base.{
  ℕ, zero, suc, ◌+◌, ◌-◌, ◌/◌, ◌≡◌, refl, ap, String, text_length, same_text, Bool, true, ◌||◌, leb,
  ltb, if◌then◌else◌, List, [], ◌∷◌, map, length, arith, Bool-cases, inl, inr, drop,
}
use ancalagon.Contracts.Messages.{ToolResultBlock, Block, text, tool_use, tool_result, Message}

-- What a demotion may not change: whose message it is, and which call a result answers.
abbrev pub SameBlock : Block → Block → Type 0
SameBlock (text s) (text s') = s ≡ s'
SameBlock (tool_use u) (tool_use u') = u ≡ u'
SameBlock (tool_result b) (tool_result b') =
    (b'.tool_use_id ≡ b.tool_use_id)
    × (b'.is_error ≡ b.is_error)
    × (b'.path ≡ b.path)
    × (b.is_error ≡ true → b' ≡ b)
SameBlock _ _ = ⊥

abbrev pub SameBlocks : List Block → List Block → Type 0
SameBlocks [] [] = Unit
SameBlocks (b ∷ bs) (b' ∷ bs') = SameBlock b b' × SameBlocks bs bs'
SameBlocks _ _ = ⊥

abbrev pub SameMessage : Message → Message → Type 0
SameMessage m m' =
    (m'.role ≡ m.role)
    × (m'.agent ≡ m.agent)
    × (m'.seq ≡ m.seq)
    × (m'.ts ≡ m.ts)
    × SameBlocks m.blocks m'.blocks

abbrev pub SameMessages : List Message → List Message → Type 0
SameMessages [] [] = Unit
SameMessages (m ∷ ms) (m' ∷ ms') = SameMessage m m' × SameMessages ms ms'
SameMessages _ _ = ⊥

abbrev pub worth_demoting : ℕ
worth_demoting = 200

-- The text of the pointer is formatted from the block's size and path.
module _ (pointer : ToolResultBlock → String) where
  unfoldable pub demote_block : Block → Block
  demote_block (tool_result b) =
      if b.is_error || same_text b.path "" || leb (text_length b.content) worth_demoting
      then tool_result b
      else tool_result (record b { content = pointer b })
  demote_block b = b

  -- The source returns the message itself where nothing changed, which is an equal message.
  unfoldable pub demoted : Message → Message
  unfolding demote_block
  demoted m = record m { blocks = map demote_block m.blocks }

  -- `[demoted(m) if i < cut else m for i, m in enumerate(messages)]`.
  unfoldable pub demote_before : ℕ → List Message → List Message
  unfolding demoted
  demote_before cut [] = []
  demote_before zero (m ∷ messages) = m ∷ demote_before zero messages
  demote_before (suc cut) (m ∷ messages) = demoted m ∷ demote_before cut messages

  -- The size of a message as JSON is pydantic's.
  module _ (json_size : Message → ℕ) where
    unfoldable pub total_size : List Message → ℕ
    total_size [] = 0
    total_size (m ∷ messages) = json_size m + total_size messages

    unfoldable pub for_wire : List Message → ℕ → ℕ → List Message
    unfolding total_size demote_before
    for_wire messages above_tokens keep_recent =
        if leb above_tokens 0
        then messages
        else if ltb (total_size messages / 4) above_tokens
        then messages
        else demote_before (length messages - keep_recent) messages

module _ (pointer : ToolResultBlock → String) where
  SameBlock-demote_block : (b : Block) → SameBlock b (demote_block pointer b)
  unfolding demote_block
  SameBlock-demote_block (text s) = refl
  SameBlock-demote_block (tool_use u) = refl
  SameBlock-demote_block (tool_result b) = elim (Bool-cases is_kept) [
    | inl kept ↦ rw kept (refl, refl, refl, λ _. refl)
    | inr gone ↦ rw gone (refl, refl, refl, λ failed. absurd (ground arith))
  ]
    where
      is_kept : Bool
      is_kept = b.is_error || same_text b.path "" || leb (text_length b.content) worth_demoting

  SameBlocks-map : (bs : List Block) → SameBlocks bs (map (demote_block pointer) bs)
  SameBlocks-map [] = tt
  SameBlocks-map (b ∷ bs) = (SameBlock-demote_block b, SameBlocks-map bs)

  SameBlock-refl : (b : Block) → SameBlock b b
  SameBlock-refl (text s) = refl
  SameBlock-refl (tool_use u) = refl
  SameBlock-refl (tool_result b) = (refl, refl, refl, λ _. refl)

  SameBlocks-refl : (bs : List Block) → SameBlocks bs bs
  SameBlocks-refl [] = tt
  SameBlocks-refl (b ∷ bs) = (SameBlock-refl b, SameBlocks-refl bs)

  SameMessages-refl : (ms : List Message) → SameMessages ms ms
  SameMessages-refl [] = tt
  SameMessages-refl (m ∷ ms) =
      ((refl, refl, refl, refl, SameBlocks-refl m.blocks), SameMessages-refl ms)

  SameMessages-demote_before :
      (cut : ℕ) (ms : List Message) → SameMessages ms (demote_before pointer cut ms)
  unfolding demote_before demoted
  SameMessages-demote_before cut [] = tt
  SameMessages-demote_before zero (m ∷ ms) =
      ((refl, refl, refl, refl, SameBlocks-refl m.blocks), SameMessages-demote_before zero ms)
  SameMessages-demote_before (suc cut) (m ∷ ms) =
      ((refl, refl, refl, refl, SameBlocks-map m.blocks), SameMessages-demote_before cut ms)

  drop-demote_before :
      (cut : ℕ) (ms : List Message) → drop cut (demote_before pointer cut ms) ≡ drop cut ms
  unfolding demote_before
  drop-demote_before zero [] = refl
  drop-demote_before zero (m ∷ ms) = ap (λ (l : List Message). m ∷ l) (drop-demote_before zero ms)
  drop-demote_before (suc cut) [] = refl
  drop-demote_before (suc cut) (m ∷ ms) = drop-demote_before cut ms

-- What goes over the wire has the messages of the transcript, in order, each with its role, agent,
-- number and time, and with its blocks of the same kinds: texts and calls unchanged, and results
-- that answer the same calls with the same error flag and path; a failed result is unchanged. The
-- most recent messages, as many as are to be kept, are unchanged.
pub for_wire-SameMessages :
    (pointer : ToolResultBlock → String) (json_size : Message → ℕ) (messages : List Message)
    (above_tokens keep_recent : ℕ)
    → SameMessages messages (for_wire pointer json_size messages above_tokens keep_recent)
      × (drop
            (length messages - keep_recent)
            (for_wire pointer json_size messages above_tokens keep_recent)
          ≡ drop (length messages - keep_recent) messages)
unfolding for_wire
for_wire-SameMessages pointer json_size messages above_tokens keep_recent =
    elim (Bool-cases (leb above_tokens 0)) [
      | inl off ↦ rw off (SameMessages-refl pointer messages, refl)
      | inr on ↦ elim (Bool-cases (ltb (total_size pointer json_size messages / 4) above_tokens)) [
        | inl small ↦ rw (on, small) (SameMessages-refl pointer messages, refl)
        | inr large ↦
            rw (on, large)
              (
                SameMessages-demote_before pointer (length messages - keep_recent) messages,
                drop-demote_before pointer (length messages - keep_recent) messages,
              )
      ]
    ]
