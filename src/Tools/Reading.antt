-- ===== src/Tools/Reading.antt =====
-- A file that ReadFile of tools/files/read_file.py shows page by page, each from the offset that the one
-- before it gives.
use ancalagon.Base.{
  ℕ, zero, suc, ◌+◌, ◌-◌, ◌≤◌, ◌<◌, ◌≡◌, ℤ, pos, String, joined, text_length, Bool, true, false,
  if◌then◌else◌, if-true, if-false, List, [], ◌∷◌, ◌++◌, length, take, drop, All, Bool-cases, inl,
  inr, refl, sym, ap, subst, ◌∙◌, arith, length-take, ltb,
}
use ancalagon.Tools.Paging.{numbered_from, join_lines, Page, page}
use ancalagon.Tools.Files.{slice, end_of}
use ancalagon.Tools.Pages.{IsPage, Shows, page-IsPage, add_pos, length-numbered_from}
use ancalagon.Tools.Lines.{length-drop, drop-drop, take_whole, join_lines-append}

module _ (numeral : ℤ → String) (limit : ℕ) where
  -- The page that `ReadFile.run` shows of a file's lines from an offset, with no limit given.
  abbrev pub page_at : ℤ → List String → Page
  page_at offset lines =
      page numeral limit (slice lines offset (end_of (length lines) offset (pos 0))) offset
        (length lines)

  -- A reader that calls again, from the offset that the page names, while the page says that there is
  -- more: the bodies of the pages.
  unfoldable pub read_on : ℕ → ℤ → List String → List String
  unfolding page slice end_of
  read_on zero offset lines = []
  read_on (suc calls) offset lines =
      let p = page_at offset lines in
      let rest = read_on calls p.final lines in p.body ∷ (if p.has_more then rest else [])

  -- Every line fits, with its number.
  abbrev pub Fit : ℤ → List String → Type 0
  Fit offset lines = All (λ line. text_length line + 1 ≤ limit) (numbered_from numeral offset lines)

  numbered-split :
      (c o : ℕ) (lines : List String)
      → numbered_from numeral (pos o) lines
        ≡ take c (numbered_from numeral (pos o) lines)
          ++ numbered_from numeral (pos (o + c)) (drop c lines)
  unfolding numbered_from
  numbered-split zero o lines =
      subst (λ n. numbered_from numeral (pos o) lines ≡ numbered_from numeral (pos n) lines)
        (same o) refl
    where
      same : (o : ℕ) → o ≡ o + 0
      same o = omega arith
  numbered-split (suc c) o [] = refl
  numbered-split (suc c) o (line ∷ lines) =
      let step : o + 1 + c ≡ o + suc c = omega arith in
      rw (add_pos o 1) (
        ap (λ l. joined (numeral (pos (o + 1))) (joined "\t" line) ∷ l)
          (numbered-split c (o + 1) lines
            ∙ ap
                (λ n.
                  take c (numbered_from numeral (pos (o + 1)) lines)
                  ++ numbered_from numeral (pos n) (drop c lines))
                step))

  All-right : (P : String → Type 0) (xs ys : List String) → All P (xs ++ ys) → All P ys
  All-right P [] ys h = h
  All-right P (x ∷ xs) ys h = All-right P xs ys h.1

-- From an offset within the file, the slice is the rest of it.
slice_rest :
    (o : ℕ) (lines : List String)
    → o ≤ length lines
    → slice lines (pos o) (end_of (length lines) (pos o) (pos 0)) ≡ drop o lines
unfolding slice end_of
slice_rest o lines h =
    let e : length lines - o ≡ length (drop o lines) = omega (arith, length-drop o lines h) in
    take_whole (length lines - o) (drop o lines) e

module _ (numeral : ℤ → String) (limit : ℕ) where
  read_on_nonempty :
      (calls : ℕ) (offset : ℤ) (lines : List String)
      → 0 < calls
      → 0 < length (read_on numeral limit calls offset lines)
  unfolding read_on
  read_on_nonempty zero offset lines h = absurd (omega arith)
  read_on_nonempty (suc calls) offset lines h = omega arith

  -- Where every line fits, what is shown is the first lines.
  shown-take :
      (count : ℕ) (all shown : List String)
      → All (λ line. text_length line + 1 ≤ limit) all
      → Shows limit all count shown
      → shown ≡ take count all
  shown-take count all shown fit (inl e) = e
  shown-take count all shown fit (inr (line, rest, e, long, _, _)) =
      let fits = subst (All (λ line. text_length line + 1 ≤ limit)) e fit in
      let first : text_length line + 1 ≤ limit = fits.0 in absurd (omega arith)

  -- What a reader has of a page and of the pages after it.
  abbrev Goal : ℕ → ℕ → List String → Page → Type 0
  Goal calls o lines p =
      join_lines (p.body ∷ (if p.has_more then read_on numeral limit calls p.final lines else []))
      ≡ join_lines (numbered_from numeral (pos o) (drop o lines))

  step :
      (calls o : ℕ) (lines : List String) (p : Page)
      → o ≤ length lines
      → 0 < length (drop o lines)
      → Fit numeral limit (pos o) (drop o lines)
      → length (drop o lines) ≤ suc calls
      → IsPage limit o (drop o lines) (numbered_from numeral (pos o) (drop o lines)) p
      → ((c : ℕ)
          → 0 < c
          → c < length (drop o lines)
          → join_lines (read_on numeral limit calls (pos (o + c)) lines)
            ≡ join_lines (numbered_from numeral (pos (o + c)) (drop c (drop o lines))))
      → Goal calls o lines p
  unfolding join_lines
  step calls o lines p h some_left fit le is later =
      let rest = drop o lines in
      let all = numbered_from numeral (pos o) rest in
      let same = length-numbered_from numeral (pos o) rest in
      let c = is.count in
      let within : c ≤ length rest = is.within in
      let some' : 0 < c =
        is.goes_on (λ e. let z : length rest ≡ 0 = ap length e in absurd (omega arith)) in
      let body : p.body ≡ join_lines (take c all) =
        is.body ∙ ap join_lines (shown-take c all is.shown fit is.shows) in
      elim (Bool-cases p.has_more) [
        | inl more ↦
            let left : c < length rest = is.more.0 more in
            let tail = read_on numeral limit calls (pos (o + c)) lines in
            let after = numbered_from numeral (pos (o + c)) (drop c rest) in
            let one : 0 < length (p.body ∷ []) = omega arith in
            let tail_some : 0 < length tail =
              read_on_nonempty calls (pos (o + c)) lines (omega arith) in
            let taken : 0 < length (take c all) = omega (arith, length-take c all, same) in
            let after_some : 0 < length after = omega (
              arith,
              length-numbered_from numeral (pos (o + c)) (drop c rest),
              length-drop c rest within,
            ) in
            ap (λ l. join_lines (p.body ∷ l)) (if-true _ _ more)
            ∙ ap (λ z. join_lines (p.body ∷ read_on numeral limit calls z lines)) is.final
            ∙ join_lines-append (p.body ∷ []) tail one tail_some
            ∙ ap (λ b. joined b (joined "\n" (join_lines tail))) body
            ∙ ap (λ b. joined (join_lines (take c all)) (joined "\n" b)) (later c some' left)
            ∙ sym (join_lines-append (take c all) after taken after_some)
            ∙ ap join_lines (sym (numbered-split numeral limit c o rest))
        | inr done ↦
            let whole : c ≡ length all =
              omega (arith, same, within, all_shown c (length rest) p.has_more done is.more.1) in
            ap (λ l. join_lines (p.body ∷ l)) (if-false _ _ done)
            ∙ body
            ∙ ap join_lines (take_whole c all whole)
      ]
    where
      all_shown : (c n : ℕ) (more : Bool) → more ≡ false → (c < n → more ≡ true) → n ≤ c
      all_shown c n more done goes = elim (Bool-cases (ltb c n)) [
        | inl lt ↦ let less : c < n = ground arith in let t = goes less in absurd (cc)
        | inr ge ↦ ground arith
      ]

  read_on-rest :
      (calls o : ℕ) (lines : List String)
      → o ≤ length lines
      → 0 < length (drop o lines)
      → length (drop o lines) ≤ calls
      → Fit numeral limit (pos o) (drop o lines)
      → join_lines (read_on numeral limit calls (pos o) lines)
        ≡ join_lines (numbered_from numeral (pos o) (drop o lines))
  unfolding read_on
  read_on-rest zero o lines h some_left le fit = absurd (omega arith)
  read_on-rest (suc calls) o lines h some_left le fit =
      let rest = drop o lines in
      let total : length lines ≡ o + length rest = omega (arith, length-drop o lines h) in
      let q = page numeral limit rest (pos o) (o + length rest) in
      let same : page_at numeral limit (pos o) lines ≡ q =
        ap (λ l. page numeral limit l (pos o) (length lines)) (slice_rest o lines h)
        ∙ ap (page numeral limit rest (pos o)) total in
      subst (Goal calls o lines) (sym same) (
        step calls o lines q h some_left fit le (page-IsPage numeral limit o rest) (λ c some' left.
          let inside : o + c ≤ length lines = omega (arith, total) in
          let moved = drop-drop c o lines in
          let left' : 0 < length (drop (o + c) lines) =
            omega (arith, length-drop (o + c) lines inside, total) in
          let short : length (drop (o + c) lines) ≤ calls =
            omega (arith, length-drop (o + c) lines inside, total) in
          let fit' =
            All-right numeral limit (λ line. text_length line + 1 ≤ limit)
              (take c (numbered_from numeral (pos o) rest))
              (numbered_from numeral (pos (o + c)) (drop c rest))
              (subst (All (λ line. text_length line + 1 ≤ limit))
                (numbered-split numeral limit c o rest) fit) in
          read_on-rest calls (o + c) lines inside left' short
            (subst (Fit numeral limit (pos (o + c))) moved fit')
          ∙ ap (λ l. join_lines (numbered_from numeral (pos (o + c)) l)) (sym moved)))

-- A reader that begins at a line of a file and calls `read_file` again from the offset that each page
-- names, as long as the page says that there is more, has every line from there to the end, numbered, in
-- order and once, in the bodies of the pages, put on lines of their own; where every line fits in a page
-- with its number, and the calls are as many as the lines at least.
pub read_on-numbered_from :
    (numeral : ℤ → String) (limit calls offset : ℕ) (lines : List String)
    → offset < length lines
    → length lines - offset ≤ calls
    → Fit numeral limit (pos offset) (drop offset lines)
    → join_lines (read_on numeral limit calls (pos offset) lines)
      ≡ join_lines (numbered_from numeral (pos offset) (drop offset lines))
read_on-numbered_from numeral limit calls offset lines h enough fit =
    let le : offset ≤ length lines = omega arith in
    let some_left : 0 < length (drop offset lines) = omega (arith, length-drop offset lines le) in
    let short : length (drop offset lines) ≤ calls = omega (arith, length-drop offset lines le) in
    read_on-rest numeral limit calls offset lines le some_left short fit
