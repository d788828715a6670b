-- ===== src/Tools/Compare.antt =====
-- tools/compare/alignment.py and the checks of diff_regions.py: two ranges of lines side by side.
-- The lines are as they are after `rstrip`, and difflib's opcodes are given.
use ancalagon.Base.{
  ℕ, zero, suc, ◌+◌, ◌-◌, ltb, ◌≡◌, String, Bool, ◌||◌, if◌then◌else◌, Option, none, some, List, [],
  ◌∷◌, ◌++◌, length, length-append, take, drop, Result, ok, raise, require, lookup_error,
  value_error, ◌>>=◌, >>=-eq-ok, ok-injective, ap, sym, ◌∙◌, Bool-cases, inl, inr, arith,
}

pub record Opcode : Type 0 where
  pub is_equal : Bool
  pub i1 : ℕ
  pub i2 : ℕ
  pub j1 : ℕ
  pub j2 : ℕ

-- A row's marker and line numbers, with the text.
pub data Row : Type 0 where
  both : (left right : ℕ) (line : String) → Row
  only_left : (left : ℕ) (line : String) → Row
  only_right : (right : ℕ) (line : String) → Row

pub record Alignment : Type 0 where
  pub rows : List Row
  pub matching : ℕ
  pub left_only : ℕ
  pub right_only : ℕ

pub record Region : Type 0 where
  pub start_line : ℕ
  pub end_line : ℕ

line_at : ℕ → List String → Option String
line_at i [] = none
line_at zero (l ∷ lines) = some l
line_at (suc i) (l ∷ lines) = line_at i lines

-- `lines[i]`.
unfoldable pub line : ℕ → List String → Result String
unfolding line_at
line i lines = require lookup_error (line_at i lines)

module _ (left_lines right_lines : List String) (left_start right_start : ℕ) where
  -- The pairs of two ranges, which `zip` wants of one length.
  equal_rows : ℕ → ℕ → ℕ → ℕ → Result (List Row)
  unfolding line
  equal_rows zero zero i j = ok []
  equal_rows (suc n) (suc m) i j = do
    found ← line i left_lines
    rest ← equal_rows n m (i + 1) (j + 1)
    ok (both (left_start + i) (right_start + j) found ∷ rest)
  equal_rows _ _ i j = raise value_error

  left_rows : ℕ → ℕ → Result (List Row)
  unfolding line
  left_rows zero i = ok []
  left_rows (suc n) i = do
    found ← line i left_lines
    rest ← left_rows n (i + 1)
    ok (only_left (left_start + i) found ∷ rest)

  right_rows : ℕ → ℕ → Result (List Row)
  unfolding line
  right_rows zero j = ok []
  right_rows (suc n) j = do
    found ← line j right_lines
    rest ← right_rows n (j + 1)
    ok (only_right (right_start + j) found ∷ rest)

  -- `_rows`.
  unfoldable pub rows_of : Opcode → Result (List Row)
  unfolding equal_rows left_rows right_rows
  rows_of o =
      let apart = (do
        lefts ← left_rows (o.i2 - o.i1) o.i1
        rights ← right_rows (o.j2 - o.j1) o.j1
        ok (lefts ++ rights)) in
      if o.is_equal then equal_rows (o.i2 - o.i1) (o.j2 - o.j1) o.i1 o.j1 else apart

  all_rows : List Opcode → Result (List Row)
  unfolding rows_of
  all_rows [] = ok []
  all_rows (o ∷ opcodes) = do rows ← rows_of o; rest ← all_rows opcodes; ok (rows ++ rest)

  matching_in : List Opcode → ℕ
  matching_in [] = 0
  matching_in (o ∷ opcodes) = (if o.is_equal then o.i2 - o.i1 else 0) + matching_in opcodes

  left_only_in : List Opcode → ℕ
  left_only_in [] = 0
  left_only_in (o ∷ opcodes) = (if o.is_equal then 0 else o.i2 - o.i1) + left_only_in opcodes

  right_only_in : List Opcode → ℕ
  right_only_in [] = 0
  right_only_in (o ∷ opcodes) = (if o.is_equal then 0 else o.j2 - o.j1) + right_only_in opcodes

  -- `align`; an opcode's bounds are in order.
  unfoldable pub align : List Opcode → Result Alignment
  unfolding all_rows matching_in left_only_in right_only_in
  align opcodes = do
    rows ← all_rows opcodes
    ok (record {
      rows = rows;
      matching = matching_in opcodes;
      left_only = left_only_in opcodes;
      right_only = right_only_in opcodes;
    })

  length-equal_rows :
      (n m i j : ℕ) (rows : List Row) → equal_rows n m i j ≡ ok rows → length rows ≡ n
  unfolding equal_rows
  length-equal_rows zero zero i j rows h = sym (ap length (ok-injective h))
  length-equal_rows (suc n) (suc m) i j rows h =
      let (found, _, h1) = >>=-eq-ok (line i left_lines) _ h in
      let (rest, e, h2) = >>=-eq-ok (equal_rows n m (i + 1) (j + 1)) _ h1 in
      sym (ap length (ok-injective h2)) ∙ ap suc (length-equal_rows n m (i + 1) (j + 1) rest e)
  length-equal_rows zero (suc m) i j rows h = absurd (cc)
  length-equal_rows (suc n) zero i j rows h = absurd (cc)

  length-left_rows : (n i : ℕ) (rows : List Row) → left_rows n i ≡ ok rows → length rows ≡ n
  unfolding left_rows
  length-left_rows zero i rows h = sym (ap length (ok-injective h))
  length-left_rows (suc n) i rows h =
      let (found, _, h1) = >>=-eq-ok (line i left_lines) _ h in
      let (rest, e, h2) = >>=-eq-ok (left_rows n (i + 1)) _ h1 in
      sym (ap length (ok-injective h2)) ∙ ap suc (length-left_rows n (i + 1) rest e)

  length-right_rows : (n j : ℕ) (rows : List Row) → right_rows n j ≡ ok rows → length rows ≡ n
  unfolding right_rows
  length-right_rows zero j rows h = sym (ap length (ok-injective h))
  length-right_rows (suc n) j rows h =
      let (found, _, h1) = >>=-eq-ok (line j right_lines) _ h in
      let (rest, e, h2) = >>=-eq-ok (right_rows n (j + 1)) _ h1 in
      sym (ap length (ok-injective h2)) ∙ ap suc (length-right_rows n (j + 1) rest e)

  length-rows_of :
      (o : Opcode) (rows : List Row)
      → rows_of o ≡ ok rows
      → length rows ≡ (if o.is_equal then o.i2 - o.i1 else (o.i2 - o.i1) + (o.j2 - o.j1))
  unfolding rows_of
  length-rows_of o rows h = elim (Bool-cases o.is_equal) [
    | inl same ↦
        rw same (length-equal_rows (o.i2 - o.i1) (o.j2 - o.j1) o.i1 o.j1 rows (rw same at h))
    | inr apart ↦ rw apart (sides (rw apart at h))
  ]
    where
      sides :
          (left_rows (o.i2 - o.i1) o.i1 >>= λ lefts.
          right_rows (o.j2 - o.j1) o.j1 >>= λ rights. ok (lefts ++ rights))
            ≡ ok rows
          → length rows ≡ (o.i2 - o.i1) + (o.j2 - o.j1)
      sides k =
          let (lefts, e1, k1) = >>=-eq-ok (left_rows (o.i2 - o.i1) o.i1) _ k in
          let (rights, e2, k2) = >>=-eq-ok (right_rows (o.j2 - o.j1) o.j1) _ k1 in
          sym (ap length (ok-injective k2))
          ∙ length-append lefts rights
          ∙ omega (
            arith,
            length-left_rows (o.i2 - o.i1) o.i1 lefts e1,
            length-right_rows (o.j2 - o.j1) o.j1 rights e2,
          )

  length-all_rows :
      (opcodes : List Opcode) (rows : List Row)
      → all_rows opcodes ≡ ok rows
      → length rows ≡ matching_in opcodes + left_only_in opcodes + right_only_in opcodes
  unfolding all_rows matching_in left_only_in right_only_in
  length-all_rows [] rows h = sym (ap length (ok-injective h))
  length-all_rows (o ∷ opcodes) rows h =
      let (first, e1, h1) = >>=-eq-ok (rows_of o) _ h in
      let (rest, e2, h2) = >>=-eq-ok (all_rows opcodes) _ h1 in
      sym (ap length (ok-injective h2))
      ∙ length-append first rest
      ∙ counted first rest (length-rows_of o first e1) (length-all_rows opcodes rest e2)
    where
      counted :
          (first rest : List Row)
          → length first ≡ (if o.is_equal then o.i2 - o.i1 else (o.i2 - o.i1) + (o.j2 - o.j1))
          → length rest ≡ matching_in opcodes + left_only_in opcodes + right_only_in opcodes
          → length first + length rest
            ≡ (if o.is_equal then o.i2 - o.i1 else 0)
              + matching_in opcodes
              + ((if o.is_equal then 0 else o.i2 - o.i1) + left_only_in opcodes)
              + ((if o.is_equal then 0 else o.j2 - o.j1) + right_only_in opcodes)
      counted first rest a b = elim (Bool-cases o.is_equal) [
        | inl same ↦ rw same (omega (arith, rw same at a, b))
        | inr apart ↦ rw apart (omega (arith, rw apart at a, b))
      ]

-- `_fault`: whether a region is refused, and `_slice` of one that is not.
unfoldable pub is_faulty : Region → ℕ → Bool
is_faulty region total = ltb region.end_line region.start_line || ltb total region.end_line

unfoldable pub slice : List String → Region → List String
slice lines region = drop (region.start_line - 1) (take region.end_line lines)

-- The rows of an alignment are as many as the footer counts: those that match, and those of one side.
pub align-rows :
    (left_lines right_lines : List String) (left_start right_start : ℕ) (opcodes : List Opcode)
    (a : Alignment)
    → align left_lines right_lines left_start right_start opcodes ≡ ok a
    → length a.rows ≡ a.matching + a.left_only + a.right_only
unfolding align
align-rows left_lines right_lines left_start right_start opcodes a h =
    let (rows, e, h1) =
      >>=-eq-ok (all_rows left_lines right_lines left_start right_start opcodes) _ h in
    rw (sym (ok-injective h1))
      (length-all_rows left_lines right_lines left_start right_start opcodes rows e)
