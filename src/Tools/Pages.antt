-- ===== src/Tools/Pages.antt =====
-- The pages of tools/registry/tool_context.py: each fits, each goes on, and together they are the file.
use ancalagon.Base.{
  ℕ, zero, suc, ◌+◌, ◌≤◌, ◌<◌, leb, ℤ, pos, ◌+ℤ◌, ltb_ℤ, String, joined, text_length,
  text_length-take_text, true, false, if-true, if-false, List, [], ◌∷◌, length, take, length-take,
  ◌⊎◌, take_text, All, ◌≡◌, ◌≢◌, ◌↔◌, inl, inr, refl, sym, ap, subst, ◌∙◌, Bool-cases, arith,
}
use ancalagon.Tools.Paging.{numbered_from, fitting_from, kept_of, kept, join_lines, Page, page}

pub add_pos : (a b : ℕ) → pos a +ℤ pos b ≡ pos (a + b)
unfolding ◌+ℤ◌
add_pos a b = ground arith

text_length-joined : (s t : String) → text_length (joined s t) ≡ text_length s + text_length t
unfolding text_length
text_length-joined String.[] t = omega arith
text_length-joined (String.◌∷◌ c s) t = omega (arith, text_length-joined s t)

-- What the lines take up, each with its line break.
abbrev pub extent : List String → ℕ
extent [] = 0
extent (line ∷ lines) = text_length line + 1 + extent lines

join_lines-le : (lines : List String) → text_length (join_lines lines) ≤ extent lines
unfolding join_lines text_length
join_lines-le [] = omega arith
join_lines-le (line ∷ []) = omega arith
join_lines-le (line ∷ other ∷ lines) =
    rw (text_length-joined line (joined "\n" (join_lines (other ∷ lines)))) (
      rw (text_length-joined "\n" (join_lines (other ∷ lines)))
        (omega (arith, join_lines-le (other ∷ lines))))

-- Beyond the limit nothing fits.
fitting-beyond :
    (limit total : ℕ) (lines : List String) → limit < total → fitting_from limit total lines ≡ []
unfolding fitting_from
fitting-beyond limit total [] h = refl
fitting-beyond limit total (line ∷ lines) h =
    let over : leb (total + (text_length line + 1)) limit ≡ false = ground arith in
    if-false _ _ over ∙ fitting-beyond limit (total + (text_length line + 1)) lines (omega arith)

-- So what fits is the beginning.
fitting-take :
    (limit total : ℕ) (lines : List String)
    → (k : ℕ) × (k ≤ length lines)
      × (fitting_from limit total lines ≡ take k lines)
      × (total ≤ limit → total + extent (take k lines) ≤ limit)
unfolding fitting_from
fitting-take limit total [] = (0, omega arith, refl, λ h. omega arith)
fitting-take limit total (line ∷ lines) =
    let sum = total + (text_length line + 1) in
    elim (Bool-cases (leb sum limit)) [
      | inl fits ↦
          let (k, le, e, bound) = fitting-take limit sum lines in
          let inside : sum ≤ limit = ground arith in
          let within = bound inside in
          (suc k, omega arith, if-true _ _ fits ∙ ap (λ l. line ∷ l) e, λ h. omega arith)
      | inr over ↦
          let outside : limit < sum = ground arith in
          (
            0,
            omega arith,
            if-false _ _ over ∙ fitting-beyond limit sum lines outside,
            λ h. omega arith,
          )
    ]

-- The first lines, so many of them; or the beginning of the first, that does not fit.
abbrev pub Shows : ℕ → List String → ℕ → List String → Type 0
Shows limit all count shown =
    (shown ≡ take count all)
    ⊎ (line : String) × (rest : List String) × (all ≡ line ∷ rest)
      × (limit < text_length line + 1)
      × (count ≡ 1)
      × (shown ≡ take_text limit line ∷ [])

-- What is shown: some of the lines from the first, or, where that does not fit, its beginning.
pub record IsShown (limit : ℕ) (all shown : List String) : Type 0 where
  pub count : length shown ≤ length all
  pub goes_on : all ≢ [] → 0 < length shown
  pub fits : text_length (join_lines shown) ≤ limit
  pub whole : All (λ line. text_length line + 1 ≤ limit) all → shown ≡ take (length shown) all
  pub shows : Shows limit all (length shown) shown

pub nonempty : (line : String) (lines : List String) → (line ∷ lines) ≢ []
nonempty line lines h = ground arith

length-take_le : (k : ℕ) (xs : List String) → k ≤ length xs → length (take k xs) ≡ k
length-take_le k xs h = omega (arith, length-take k xs)

-- A line that fits alone is shown.
first-fits :
    (limit : ℕ) (line : String) (rest : List String)
    → text_length line + 1 ≤ limit
    → fitting_from limit 0 (line ∷ rest) ≢ []
unfolding fitting_from
first-fits limit line rest h e =
    let fits : leb (0 + (text_length line + 1)) limit ≡ true = ground arith in
    nonempty line (fitting_from limit (0 + (text_length line + 1)) rest)
      (sym (if-true _ _ fits) ∙ e)

too_long :
    (limit : ℕ) (line : String) (rest : List String)
    → fitting_from limit 0 (line ∷ rest) ≡ []
    → limit < text_length line + 1
too_long limit line rest e = elim (Bool-cases (leb (text_length line + 1) limit)) [
  | inl fits ↦
      let inside : text_length line + 1 ≤ limit = ground arith in
      absurd (first-fits limit line rest inside e)
  | inr over ↦ ground arith
]

kept_of-IsShown :
    (limit k : ℕ) (all : List String)
    → k ≤ length all
    → extent (take k all) ≤ limit
    → (k ≡ 0 → fitting_from limit 0 all ≡ [])
    → IsShown limit all (kept_of limit (take k all) all)
unfolding kept_of join_lines text_length
kept_of-IsShown limit zero [] le bound none = record {
  count = omega arith;
  goes_on = λ h. absurd (h refl);
  fits = omega arith;
  whole = λ h. refl;
  shows = inl refl;
}
kept_of-IsShown limit zero (line ∷ rest) le bound none = record {
  count = omega arith;
  goes_on = λ h. omega arith;
  fits = text_length-take_text limit line;
  whole = λ h. absurd (first-fits limit line rest h.0 (none refl));
  shows = inr (line, rest, refl, too_long limit line rest (none refl), refl, refl);
}
kept_of-IsShown limit (suc k) [] le bound none = absurd (omega arith)
kept_of-IsShown limit (suc k) (line ∷ rest) le bound none = record {
  count = omega (arith, length-take_le (suc k) (line ∷ rest) le);
  goes_on = λ h. omega arith;
  fits = omega (arith, join_lines-le (line ∷ take k rest));
  whole = λ h. ap (λ n. line ∷ take n rest) (sym (length-take_le k rest (omega arith)));
  shows = inl (ap (λ n. line ∷ take n rest) (sym (length-take_le k rest (omega arith))));
}

pub kept-IsShown : (limit : ℕ) (all : List String) → IsShown limit all (kept limit all)
unfolding kept
kept-IsShown limit all =
    let (k, le, e, bound) = fitting-take limit 0 all in
    let start : 0 ≤ limit = omega arith in
    let inside = bound start in
    subst (λ l. IsShown limit all (kept_of limit l all)) (sym e)
      (kept_of-IsShown limit k all le (omega arith) (λ z. e ∙ ap (λ n. take n all) z))

pub length-numbered_from :
    (numeral : ℤ → String) (offset : ℤ) (lines : List String)
    → length (numbered_from numeral offset lines) ≡ length lines
unfolding numbered_from
length-numbered_from numeral offset [] = refl
length-numbered_from numeral offset (line ∷ lines) =
    ap suc (length-numbered_from numeral (offset +ℤ pos 1) lines)

-- What a page of lines from an offset shows, of these lines numbered, and says.
pub record IsPage (limit offset : ℕ) (lines numbered : List String) (p : Page) : Type 0 where
  pub count : ℕ
  pub within : count ≤ length lines
  pub goes_on : lines ≢ [] → 0 < count
  pub final : p.final ≡ pos (offset + count)
  pub more : (p.has_more ≡ true) ↔ (count < length lines)
  pub fits : text_length p.body ≤ limit
  -- the body is the shown lines, each on a line of its own
  pub shown : List String
  pub body : p.body ≡ join_lines shown
  pub shows : Shows limit numbered count shown

more_iff :
    (offset count total : ℕ)
    → (ltb_ℤ (pos (offset + count)) (pos (offset + total)) ≡ true) ↔ (count < total)
more_iff offset count total = ground arith

-- Of the lines from an offset to the end of a file, a page shows some, and at least one where there is
-- one: its body is the first of them, numbered, each on a line of its own, or, where the first is too
-- long with its number, the beginning of that one; the body is no longer than the limit; the offset that it says to go on from is past the lines
-- that it shows; and it says that there is more just where it does not show them all.
pub page-IsPage :
    (numeral : ℤ → String) (limit offset : ℕ) (lines : List String)
    → IsPage limit offset lines
        (numbered_from numeral (pos offset) lines)
        (page numeral limit lines (pos offset) (offset + length lines))
unfolding page
page-IsPage numeral limit offset lines =
    let all = numbered_from numeral (pos offset) lines in
    let shown = kept-IsShown limit all in
    let count = length (kept limit all) in
    let same = length-numbered_from numeral (pos offset) lines in
    record {
      count = count;
      within = omega (arith, same, shown.count);
      goes_on =
          λ some_lines. shown.goes_on (λ e. some_lines (empty lines (sym same ∙ ap length e)));
      final = add_pos offset count;
      more =
          subst (λ z. (ltb_ℤ z (pos (offset + length lines)) ≡ true) ↔ (count < length lines))
            (sym (add_pos offset count)) (more_iff offset count (length lines));
      fits = shown.fits;
      shown = kept limit all;
      body = refl;
      shows = shown.shows;
    }
  where
    empty : (l : List String) → length l ≡ 0 → l ≡ []
    empty [] h = refl
    empty (x ∷ l) h = absurd (omega arith)
