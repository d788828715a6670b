-- ===== src/Base/Text.antt =====
-- Text and paths. A text is the native `String`; a path is the list of its parts, as
-- `pathlib.PurePath.parts`.
use Prim.Native.Nat.{ℕ, zero, suc, ◌≤◌}
use Prim.Native.String.{String}
use mathlib.Core.Path.{◌≡◌, refl, ap}
use mathlib.Core.Logic.{◌↔◌}
use mathlib.Core.Bool.{Bool, true, false, ◌&&◌}
use mathlib.Core.List.{List, [], ◌∷◌}
use native.Mathlib.Omega.{arith}
use text.Mathlib.Text.{◌==◌}
use text.Mathlib.TextEquality.{eq_iff}

abbrev pub same_text : String → String → Bool
same_text a b = a == b

pub same_text_iff : (a b : String) → (same_text a b ≡ true) ↔ (a ≡ b)
same_text_iff a b = eq_iff a b

-- `text[:n]`, by characters.
unfoldable pub take_text : ℕ → String → String
take_text zero s = ""
take_text (suc n) String.[] = ""
take_text (suc n) (String.◌∷◌ c s) = String.◌∷◌ c (take_text n s)

-- `len(text)`, by characters.
unfoldable pub text_length : String → ℕ
text_length String.[] = 0
text_length (String.◌∷◌ c s) = suc (text_length s)

pub text_length-take_text : (n : ℕ) (s : String) → text_length (take_text n s) ≤ n
unfolding take_text text_length
text_length-take_text zero s = omega arith
text_length-take_text (suc n) String.[] = omega arith
text_length-take_text (suc n) (String.◌∷◌ c s) = omega (arith, text_length-take_text n s)

-- `s + t`.
abbrev pub joined : String → String → String
joined String.[] t = t
joined (String.◌∷◌ c s) t = String.◌∷◌ c (joined s t)

abbrev pub FilePath : Type 0
FilePath = List String

unfoldable pub same_path : FilePath → FilePath → Bool
same_path [] [] = true
same_path (a ∷ p) (b ∷ q) = same_text a b && same_path p q
same_path _ _ = false

pub same_path_iff : (p q : FilePath) → (same_path p q ≡ true) ↔ (p ≡ q)
unfolding same_path
same_path_iff [] [] = ground arith
same_path_iff [] (b ∷ q) = ground arith
same_path_iff (a ∷ p) [] = ground arith
same_path_iff (a ∷ p) (b ∷ q) = ground (arith, eq_iff a b, same_path_iff p q)

-- `PurePath.name`: the last part.
unfoldable pub name_of : FilePath → String
name_of [] = ""
name_of (a ∷ []) = a
name_of (a ∷ b ∷ p) = name_of (b ∷ p)

-- `path.is_relative_to(root)`: the root's parts begin the path's.
unfoldable pub is_relative_to : FilePath → FilePath → Bool
is_relative_to p [] = true
is_relative_to [] (b ∷ root) = false
is_relative_to (a ∷ p) (b ∷ root) = same_text a b && is_relative_to p root

pub joined_assoc : (s t u : String) → joined (joined s t) u ≡ joined s (joined t u)
joined_assoc String.[] t u = refl
joined_assoc (String.◌∷◌ c s) t u = ap (λ r. String.◌∷◌ c r) (joined_assoc s t u)
