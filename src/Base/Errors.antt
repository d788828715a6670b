-- ===== src/Base/Errors.antt =====
-- Python's exceptions as values. The classes are those that the modelled code raises; an
-- exception's text is not modelled.
use mathlib.Core.Path.{◌≡◌, refl}
use mathlib.Core.Logic.{◌⊎◌, inl, inr}
use mathlib.Core.Option.{Option, none, some}
use mathlib.Core.List.{List, [], ◌∷◌, ◌++◌}

pub data Exception : Type 0 where
  illegal_transition key_error index_error value_error lookup_error scope_error os_error : Exception
  validation_error operational_error integrity_error stop_iteration no_outcome : Exception

pub data Result {ℓ} (A : Type ℓ) : Type ℓ where
  ok : A → Result A
  raise : Exception → Result A

infixl 5 ◌>>=◌
abbrev pub ◌>>=◌ {ℓ κ} : {A : Type ℓ} {B : Type κ} → Result A → (A → Result B) → Result B
ok a >>= f = f a
raise e >>= f = raise e

-- A value that must be there: `next(...)` with no default, a subscript, `max` of a sequence.
abbrev pub require {ℓ} : {A : Type ℓ} → Exception → Option A → Result A
require e none = raise e
require e (some a) = ok a

-- A comprehension whose element may raise: the first exception ends it.
abbrev pub map_result {ℓ κ} : {A : Type ℓ} {B : Type κ} → (A → Result B) → List A → Result (List B)
map_result f [] = ok []
map_result f (x ∷ xs) = do y ← f x; ys ← map_result f xs; ok (y ∷ ys)

pub >>=-eq-ok {ℓ κ} :
    {A : Type ℓ} {B : Type κ} {y : B} (first : Result A) (rest : A → Result B)
    → (first >>= rest) ≡ ok y
    → (x : A) × (first ≡ ok x) × (rest x ≡ ok y)
>>=-eq-ok (raise failure) rest h = cc
>>=-eq-ok (ok x) rest h = (x, refl, h)

pub >>=-eq-raise {ℓ κ} :
    {A : Type ℓ} {B : Type κ} {e : Exception} (first : Result A) (rest : A → Result B)
    → (first >>= rest) ≡ raise e
    → (first ≡ raise e) ⊎ (x : A) × (first ≡ ok x) × (rest x ≡ raise e)
>>=-eq-raise (raise failure) rest h = inl (cc)
>>=-eq-raise (ok x) rest h = inr (x, refl, h)

pub raise-ok {ℓ κ} :
    {A : Type ℓ} {B : Type κ} {failure : Exception} {x : A} → raise failure ≡ ok x → B
raise-ok h = cc

pub ok-injective {ℓ} : {A : Type ℓ} {a b : A} → ok a ≡ ok b → a ≡ b
ok-injective h = cc

-- `[y for x in xs if ...]` whose element and test may raise.
abbrev pub collect_result {ℓ κ} :
    {A : Type ℓ} {B : Type κ} → (A → Result (Option B)) → List A → Result (List B)
collect_result f [] = ok []
collect_result f (x ∷ xs) = do
  y ← f x
  ys ← collect_result f xs
  ok (elim y [ none ↦ ys | some b ↦ b ∷ ys ])

-- A comprehension of two `for`s, the second over what may raise.
abbrev pub concat_result {ℓ κ} :
    {A : Type ℓ} {B : Type κ} → (A → Result (List B)) → List A → Result (List B)
concat_result f [] = ok []
concat_result f (x ∷ xs) = do y ← f x; ys ← concat_result f xs; ok (y ++ ys)
