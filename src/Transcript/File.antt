-- ===== src/Transcript/File.antt =====
-- transcript/transcript.py, `load` of transcript/history.py: a transcript is a file of one JSON text to
-- a line.
use Prim.Native.Char.{Char}
use ancalagon.Base.{
  String, joined, Bool, not, if◌then◌else◌, List, [], ◌∷◌, ◌++◌, select, Result, map_result,
}
use ancalagon.Contracts.Messages.{Message}

-- pydantic's JSON of a message, the reading of it, the characters at which Python's `splitlines` breaks
-- a text, and whether a text is all white space.
pub record Format : Type 0 where
  pub to_json : Message → String
  pub from_json : String → Result Message
  pub breaks : Char → Bool
  pub is_blank : String → Bool

-- The file of a transcript, and what has gone out to the sink.
pub record Transcript : Type 0 where
  pub content : String
  pub sent : List Message

module _ (f : Format) where
  unfoldable pub begin_line : Char → List String → List String
  begin_line c [] = (String.◌∷◌ c "") ∷ []
  begin_line c (line ∷ lines) = (String.◌∷◌ c line) ∷ lines

  -- `splitlines`, but that "\r\n" breaks twice, which makes an empty line more.
  unfoldable pub split_lines : String → List String
  unfolding begin_line
  split_lines String.[] = []
  split_lines (String.◌∷◌ c text) =
      let lines = split_lines text in if f.breaks c then "" ∷ lines else begin_line c lines

  -- `Transcript.write`.
  unfoldable pub write : Message → Transcript → Transcript
  write message t = record {
    content = joined t.content (joined (f.to_json message) "\n");
    sent = t.sent ++ message ∷ [];
  }

  -- `load`, of the file's text; lines that are blank, empty ones among them, are left out.
  unfoldable pub load : String → Result (List Message)
  unfolding split_lines
  load text = map_result f.from_json (select (λ line. not (f.is_blank line)) (split_lines text))
