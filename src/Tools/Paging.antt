-- ===== src/Tools/Paging.antt =====
-- The page of ToolContext.paged in tools/registry/tool_context.py: which lines it shows, numbered.
use ancalagon.Base.{
  ℕ, ◌+◌, leb, ℤ, pos, ◌+ℤ◌, ltb_ℤ, String, joined, text_length, take_text, Bool, if◌then◌else◌,
  List, [], ◌∷◌, length,
}

-- `f"{offset + n}\t{line}" for n, line in enumerate(lines, start=1)`, where `numeral` is `str`.
module _ (numeral : ℤ → String) where
  unfoldable pub numbered_from : ℤ → List String → List String
  unfolding ◌+ℤ◌
  numbered_from offset [] = []
  numbered_from offset (line ∷ lines) =
      let number = offset +ℤ pos 1 in
      joined (numeral number) (joined "\t" line) ∷ numbered_from number lines

-- The lines whose running total, one more than the length for each, is within the limit.
unfoldable pub fitting_from : ℕ → ℕ → List String → List String
fitting_from limit total [] = []
fitting_from limit total (line ∷ lines) =
    let sum = total + (text_length line + 1) in
    let rest = fitting_from limit sum lines in if leb sum limit then line ∷ rest else rest

-- `fitting if fitting or not numbered else [numbered[0][:limit]]`.
unfoldable pub kept_of : ℕ → List String → List String → List String
kept_of limit (line ∷ fitting) numbered = line ∷ fitting
kept_of limit [] [] = []
kept_of limit [] (line ∷ numbered) = take_text limit line ∷ []

unfoldable pub kept : ℕ → List String → List String
unfolding kept_of fitting_from
kept limit numbered = kept_of limit (fitting_from limit 0 numbered) numbered

-- `"\n".join(lines)`.
unfoldable pub join_lines : List String → String
join_lines [] = ""
join_lines (line ∷ []) = line
join_lines (line ∷ other ∷ lines) = joined line (joined "\n" (join_lines (other ∷ lines)))

pub record Page : Type 0 where
  pub body : String
  pub whole : String
  pub final : ℤ
  pub has_more : Bool

-- `body`, `whole`, `last` and `last < total`.
unfoldable pub page : (ℤ → String) → ℕ → List String → ℤ → ℕ → Page
unfolding numbered_from kept join_lines ◌+ℤ◌
page numeral limit lines offset total =
    let numbered = numbered_from numeral offset lines in
    let shown = kept limit numbered in
    let final = offset +ℤ pos (length shown) in
    record {
      body = join_lines shown;
      whole = join_lines numbered;
      final = final;
      has_more = ltb_ℤ final (pos total);
    }

-- What is said under a page.
unfoldable pub note : (ℤ → String) → ℤ → ℤ → ℕ → Bool → String
unfolding ◌+ℤ◌
note numeral offset final total has_more = joined "[lines " (
    joined (numeral (offset +ℤ pos 1)) (
      joined "-" (
        joined (numeral final) (
          joined " of " (
            joined (numeral (pos total)) (
              if has_more
              then joined "; call again with offset=" (joined (numeral final) " for more]")
              else "; end of file]"))))))
