-- ===== src/Base/Order.antt =====
-- Lists of ids in ascending order, and searches in them.
use ancalagon.Base.{
  ℕ, ◌<◌, ◌≤◌, ◌≡◌, refl, Bool, true, ◌==◌, List, [], ◌∷◌, ◌++◌, All, find, select, some, none,
  elem, maximum, arith, Bool-cases, inl, inr,
}

abbrev pub IsAscending : List ℕ → Type 0
IsAscending [] = Unit
IsAscending (x ∷ xs) = All (λ y. x < y) xs × IsAscending xs

module _ {ℓ κ} {A : Type ℓ} (P : A → Type κ) where
  pub All-append : (xs ys : List A) → All P xs → All P ys → All P (xs ++ ys)
  All-append [] ys hx hy = hy
  All-append (x ∷ xs) ys hx hy = (hx.0, All-append xs ys hx.1 hy)

  pub All-mono {μ} : {Q : A → Type μ} → ((x : A) → P x → Q x) → (xs : List A) → All P xs → All Q xs
  All-mono f [] h = tt
  All-mono f (x ∷ xs) h = (f x h.0, All-mono f xs h.1)

  pub All-with {μ ν} :
      {Q : A → Type μ} {R : A → Type ν}
      → ((x : A) → P x → Q x → R x)
      → (xs : List A) → All P xs
      → All Q xs
      → All R xs
  All-with f [] hp hq = tt
  All-with f (x ∷ xs) hp hq = (f x hp.0 hq.0, All-with f xs hp.1 hq.1)

  pub All-select : (test : A → Bool) (xs : List A) → All P xs → All P (select test xs)
  All-select test [] h = tt
  All-select test (x ∷ xs) h = elim (Bool-cases (test x)) [
    | inl yes' ↦ rw yes' (h.0, All-select test xs h.1)
    | inr no' ↦ rw no' (All-select test xs h.1)
  ]

pub IsAscending-snoc :
    (xs : List ℕ) (y : ℕ) → IsAscending xs → All (λ x. x < y) xs → IsAscending (xs ++ y ∷ [])
IsAscending-snoc [] y h below = (tt, tt)
IsAscending-snoc (x ∷ xs) y h below =
    (All-append (λ z. x < z) xs (y ∷ []) h.0 (below.0, tt), IsAscending-snoc xs y h.1 below.1)

pub le-maximum : (xs : List ℕ) → All (λ x. x ≤ maximum xs) xs
le-maximum [] = tt
le-maximum (x ∷ xs) =
    (omega arith, All-mono (λ y. y ≤ maximum xs) (λ y h. omega arith) xs (le-maximum xs))

-- The greatest of an ascending list is its last.
pub elem-lt : (a b : ℕ) (xs : List ℕ) → All (λ x. x < b) xs → elem a xs ≡ true → a < b
elem-lt a b [] h e = absurd (ground arith)
elem-lt a b (x ∷ xs) h e = elim (Bool-cases (x == a)) [
  | inl same ↦ ground arith
  | inr other ↦ elem-lt a b xs h.1 (rw other at e)
]

pub elem-append : (a : ℕ) (xs ys : List ℕ) → elem a xs ≡ true → elem a (xs ++ ys) ≡ true
elem-append a [] ys e = absurd (ground arith)
elem-append a (x ∷ xs) ys e = elim (Bool-cases (x == a)) [
  | inl same ↦ rw same
  | inr other ↦ rw other (elem-append a xs ys (rw other at e))
]

module _ {ℓ} {A : Type ℓ} where
  pub find-append_some :
      (test : A → Bool) (xs ys : List A) (x : A)
      → find test xs ≡ some x
      → find test (xs ++ ys) ≡ some x
  find-append_some test [] ys x h = absurd (ground arith)
  find-append_some test (z ∷ xs) ys x h = elim (Bool-cases (test z)) [
    | inl found ↦ rw found (rw found at h)
    | inr other ↦ rw other (find-append_some test xs ys x (rw other at h))
  ]

  pub find-append_none :
      (test : A → Bool) (xs ys : List A) → find test xs ≡ none → find test (xs ++ ys) ≡ find test ys
  find-append_none test [] ys h = refl
  find-append_none test (z ∷ xs) ys h = elim (Bool-cases (test z)) [
    | inl found ↦ absurd (ground arith)
    | inr other ↦ rw other (find-append_none test xs ys (rw other at h))
  ]

  pub find-test : (test : A → Bool) (xs : List A) (x : A) → find test xs ≡ some x → test x ≡ true
  find-test test [] x h = absurd (ground arith)
  find-test test (z ∷ xs) x h = elim (Bool-cases (test z)) [
    | inl found ↦ ground arith
    | inr other ↦ find-test test xs x (rw other at h)
  ]
