-- ===== src/Transcript/Written.antt =====
-- What is written to a transcript is loaded from it.
use Prim.Native.Char.{Char}
use ancalagon.Base.{
  String, joined, joined_assoc, Bool, true, false, not, if-true, if-false, List, [], ◌∷◌, ◌++◌, All,
  select, ok, map_result, ◌≡◌, refl, sym, ap, ◌∙◌,
}
use ancalagon.Contracts.Messages.{Message}
use ancalagon.Transcript.File.{Format, Transcript, begin_line, split_lines, write, load}

-- A text without a line break.
abbrev pub IsLine : (Char → Bool) → String → Type 0
IsLine breaks String.[] = Unit
IsLine breaks (String.◌∷◌ c text) = (breaks c ≡ false) × IsLine breaks text

-- A message whose JSON is one line that is not blank, and is read as the message.
pub record IsReadBack (f : Format) (m : Message) : Type 0 where
  pub one_line : IsLine f.breaks (f.to_json m)
  pub said : f.is_blank (f.to_json m) ≡ false
  pub read : f.from_json (f.to_json m) ≡ ok m

joined_nil : (s : String) → joined s "" ≡ s
joined_nil String.[] = refl
joined_nil (String.◌∷◌ c s) = ap (λ r. String.◌∷◌ c r) (joined_nil s)

module _ (f : Format) where
  -- The messages are written one after the other.
  unfoldable pub write_all : List Message → Transcript → Transcript
  unfolding write
  write_all [] t = t
  write_all (m ∷ ms) t = write_all ms (write f m t)

  abbrev file_of : List Message → String
  file_of [] = ""
  file_of (m ∷ ms) = joined (f.to_json m) (joined "\n" (file_of ms))

  content-write_all :
      (ms : List Message) (t : Transcript)
      → (write_all ms t).content ≡ joined t.content (file_of ms)
  unfolding write_all write
  content-write_all [] t = sym (joined_nil t.content)
  content-write_all (m ∷ ms) t =
      content-write_all ms (write f m t)
      ∙ joined_assoc t.content (joined (f.to_json m) "\n") (file_of ms)
      ∙ ap (joined t.content) (joined_assoc (f.to_json m) "\n" (file_of ms))

  snoc-append :
      (xs : List Message) (m : Message) (ms : List Message) → (xs ++ m ∷ []) ++ ms ≡ xs ++ (m ∷ ms)
  snoc-append [] m ms = refl
  snoc-append (x ∷ xs) m ms = ap (λ l. x ∷ l) (snoc-append xs m ms)

  append_nil : (xs : List Message) → xs ++ [] ≡ xs
  append_nil [] = refl
  append_nil (x ∷ xs) = ap (λ l. x ∷ l) (append_nil xs)

  sent-write_all : (ms : List Message) (t : Transcript) → (write_all ms t).sent ≡ t.sent ++ ms
  unfolding write_all write
  sent-write_all [] t = sym (append_nil t.sent)
  sent-write_all (m ∷ ms) t = sent-write_all ms (write f m t) ∙ snoc-append t.sent m ms

  split_lines-line :
      (line rest : String)
      → f.breaks "\n" ≡ true
      → IsLine f.breaks line
      → split_lines f (joined line (joined "\n" rest)) ≡ line ∷ split_lines f rest
  unfolding split_lines begin_line
  split_lines-line String.[] rest n h = if-true _ _ n
  split_lines-line (String.◌∷◌ c line) rest n h =
      if-false _ _ h.0 ∙ ap (begin_line f c) (split_lines-line line rest n h.1)

  load-file_of :
      (ms : List Message)
      → f.breaks "\n" ≡ true
      → All (IsReadBack f) ms
      → load f (file_of ms) ≡ ok ms
  unfolding load split_lines
  load-file_of [] n h = refl
  load-file_of (m ∷ ms) n h =
      rw (split_lines-line (f.to_json m) (file_of ms) n h.0.one_line)
        (if-read m ms (split_lines f (file_of ms)) h.0 (load-file_of ms n h.1))
    where
      if-read :
          (m : Message) (ms : List Message) (lines : List String)
          → IsReadBack f m
          → map_result f.from_json (select (λ line. not (f.is_blank line)) lines) ≡ ok ms
          → map_result f.from_json (select (λ line. not (f.is_blank line)) (f.to_json m ∷ lines))
            ≡ ok (m ∷ ms)
      if-read m ms lines i h = rw i.said (rw i.read (rw h refl))

-- Where a line feed breaks lines and each message's JSON is one line, not blank, that is read as the
-- message, what is written to an empty transcript is loaded from its file, every message in order, and
-- has gone out to the sink.
pub load-write_all :
    (f : Format) (ms : List Message)
    → f.breaks "\n" ≡ true
    → All (IsReadBack f) ms
    → (load f (write_all f ms (record { content = ""; sent = [] })).content ≡ ok ms)
      × ((write_all f ms (record { content = ""; sent = [] })).sent ≡ ms)
load-write_all f ms n h = (
  ap (load f) (content-write_all f ms (record { content = ""; sent = [] })) ∙ load-file_of f ms n h,
  sent-write_all f ms (record { content = ""; sent = [] }),
)
