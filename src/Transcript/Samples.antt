-- ===== src/Transcript/Samples.antt =====
-- A short conversation with an open call, and the theorems at it.
use ancalagon.Base.{
  ℕ, ◌-◌, ◌+◌, ◌≡◌, ◌≢◌, ◌⊎◌, refl, String, same_text, List, [], ◌∷◌, ◌++◌, length, drop, map,
  Result, ok,
}
use ancalagon.Contracts.Messages.{MessageRole, Block, text, tool_use, Message}
use ancalagon.Transcript.File.{Format, load}
use ancalagon.Transcript.Written.{IsReadBack, write_all, load-write_all}
use ancalagon.Transcript.Demote.{SameMessages, for_wire, for_wire-SameMessages}
use ancalagon.Transcript.History.{
  uses_in, unanswered, repair, answers_in, synthetic, repair-unanswered, repair-repair,
}
use ancalagon.Transcript.Fork.{forked, orphaned, kept_before, appended, Noticed, forked-kept_before}

abbrev message : MessageRole → ℕ → List Block → Message
message role seq blocks = record { role = role; blocks = blocks; agent = 1; seq = seq; ts = 0 }

abbrev call : Block
call = tool_use (record { id = "call-1"; name = "delegate_scout"; arguments = "look" })

abbrev opening : Message
opening = message MessageRole.user 0 (text "map the code" ∷ [])

abbrev asking : Message
asking = message MessageRole.assistant 1 (call ∷ [])

abbrev talk : List Message
talk = opening ∷ asking ∷ message MessageRole.user 2 (text "queued" ∷ []) ∷ []

for_wire-SameMessages_example :
    SameMessages talk (for_wire (λ b. "gone") (λ m. 100) talk 10 1)
    × (drop (length talk - 1) (for_wire (λ b. "gone") (λ m. 100) talk 10 1)
        ≡ drop (length talk - 1) talk)
for_wire-SameMessages_example = for_wire-SameMessages (λ b. "gone") (λ m. 100) talk 10 1

repair-unanswered_example :
    (unanswered asking ≡ []) × (repair (opening ∷ asking ∷ []) ≡ opening ∷ asking ∷ [])
    ⊎ (unanswered asking ≢ [])
      × (answer : Message) × (repair (opening ∷ asking ∷ [])
          ≡ (opening ∷ asking ∷ []) ++ answer ∷ [])
      × (answer.role ≡ MessageRole.user)
      × (answers_in answer.blocks ≡ map (λ u. u.id) (unanswered asking))
      × (answer.seq ≡ asking.seq + 1)
repair-unanswered_example = repair-unanswered (opening ∷ asking ∷ []) asking refl

repair-repair_example : repair (repair (opening ∷ asking ∷ [])) ≡ repair (opening ∷ asking ∷ [])
repair-repair_example = repair-repair (opening ∷ asking ∷ [])

abbrev task_id : String → Result String
task_id arguments = ok arguments

abbrev notice : ℕ → List String → String
notice at tasks = "forked"

-- The fork before the last message: the open call is answered, acknowledged, and the notice given.
abbrev fork : List Message
fork =
    opening
    ∷ asking
    ∷ synthetic asking (unanswered asking)
    ∷ appended task_id notice 5 MessageRole.assistant "Understood." (message MessageRole.user 2 [])
    ∷ appended task_id notice 5 MessageRole.user "forked" (message MessageRole.assistant 3 [])
    ∷ []

forked-kept_before_example :
    (orphaned task_id notice 5 (kept_before 2 talk) ("delegate_scout" ∷ []) ≡ ok [])
      × (fork ≡ kept_before 2 talk)
    ⊎ (tasks : List String) × (orphaned task_id notice 5
          (kept_before 2 talk)
          ("delegate_scout" ∷ [])
        ≡ ok tasks)
      × (tasks ≢ [])
      × Noticed notice 2 (kept_before 2 talk) tasks fork
unfolding forked orphaned kept_before appended repair synthetic unanswered uses_in
forked-kept_before_example =
    forked-kept_before task_id notice 5 talk 2 ("delegate_scout" ∷ []) fork refl

-- One message's JSON; the line feed alone breaks lines.
abbrev format : Format
format = record {
  to_json = λ m. "{}";
  from_json = λ line. ok opening;
  breaks = λ c. same_text (String.◌∷◌ c "") "\n";
  is_blank = λ line. same_text line "";
}

abbrev opening-IsReadBack : IsReadBack format opening
opening-IsReadBack = record { one_line = (refl, (refl, tt)); said = refl; read = refl }

load-write_all_example :
    (load format
        (write_all format (opening ∷ opening ∷ []) (record { content = ""; sent = [] })).content
      ≡ ok (opening ∷ opening ∷ []))
    × ((write_all format (opening ∷ opening ∷ []) (record { content = ""; sent = [] })).sent
        ≡ opening ∷ opening ∷ [])
load-write_all_example =
    load-write_all format (opening ∷ opening ∷ []) refl
      (opening-IsReadBack, (opening-IsReadBack, tt))
