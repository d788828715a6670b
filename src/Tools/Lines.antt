-- ===== src/Tools/Lines.antt =====
-- Beginnings and ends of lists of lines, and lines that are put together.
use ancalagon.Base.{
  ℕ, zero, suc, ◌+◌, ◌≤◌, ◌<◌, ◌≡◌, String, joined, joined_assoc, List, [], ◌∷◌, ◌++◌, length, take,
  drop, refl, sym, ap, ◌∙◌, arith,
}
use ancalagon.Tools.Paging.{join_lines}

pub length-drop : (c : ℕ) (xs : List String) → c ≤ length xs → length (drop c xs) + c ≡ length xs
length-drop zero xs h = omega arith
length-drop (suc c) [] h = absurd (omega arith)
length-drop (suc c) (x ∷ xs) h = omega (arith, length-drop c xs)

pub drop_nil : (n : ℕ) → drop {A = String} n [] ≡ []
drop_nil zero = refl
drop_nil (suc n) = refl

pub drop-drop : (a b : ℕ) (xs : List String) → drop a (drop b xs) ≡ drop (b + a) xs
drop-drop a zero xs = let same : a ≡ 0 + a = omega arith in ap (λ n. drop n xs) same
drop-drop a (suc b) [] = drop_nil a ∙ sym (drop_nil (suc b + a))
drop-drop a (suc b) (x ∷ xs) =
    let same : suc (b + a) ≡ suc b + a = omega arith in
    drop-drop a b xs ∙ ap (λ n. drop n (x ∷ xs)) same

pub take_whole : (n : ℕ) (xs : List String) → n ≡ length xs → take n xs ≡ xs
take_whole zero [] h = refl
take_whole zero (x ∷ xs) h = absurd (omega arith)
take_whole (suc n) [] h = refl
take_whole (suc n) (x ∷ xs) h =
    let e : n ≡ length xs = omega arith in ap (λ l. x ∷ l) (take_whole n xs e)

pub join_lines-append :
    (xs ys : List String)
    → 0 < length xs
    → 0 < length ys
    → join_lines (xs ++ ys) ≡ joined (join_lines xs) (joined "\n" (join_lines ys))
unfolding join_lines
join_lines-append [] ys h k = absurd (omega arith)
join_lines-append (x ∷ []) [] h k = absurd (omega arith)
join_lines-append (x ∷ []) (y ∷ ys) h k = refl
join_lines-append (x ∷ z ∷ xs) ys h k =
    let more : 0 < length (z ∷ xs) = omega arith in
    ap (λ r. joined x (joined "\n" r)) (join_lines-append (z ∷ xs) ys more k)
    ∙ sym (joined_assoc x (joined "\n" (join_lines (z ∷ xs))) (joined "\n" (join_lines ys)))
