-- ===== src/Base/Keys.antt =====
-- Searches by an ascending key, as a table's rows are found by their id.
use ancalagon.Base.{
  ℕ, zero, suc, take, ◌<◌, ◌≡◌, refl, Bool, true, false, ◌==◌, ==_refl, ==_iff, List, [], ◌∷◌, ◌++◌,
  map, All, find, select, some, elem, arith, Bool-cases, inl, inr, subst,
}
use ancalagon.Base.Order.{IsAscending}

module _ {ℓ} {A : Type ℓ} where
  -- A list with an element that passes has a first one.
  pub find-exists :
      (test test' : A → Bool) (xs : List A) {x : A}
      → find test xs ≡ some x
      → test' x ≡ true
      → (y : A) × (find test' xs ≡ some y)
  find-exists test test' [] h p = absurd (ground arith)
  find-exists test test' (z ∷ xs) h p = elim (Bool-cases (test' z)) [
    | inl found ↦ (z, rw found)
    | inr other ↦ elim (Bool-cases (test z)) [
      | inl first ↦ absurd (ground arith)
      | inr later ↦ let (y, e) = find-exists test test' xs (rw later at h) p in (y, rw other e)
    ]
  ]

  pub find-snoc :
      (test : A → Bool) (xs : List A) (x : A)
      → test x ≡ true
      → (y : A) × (find test (xs ++ x ∷ []) ≡ some y)
  find-snoc test [] x p = (x, rw p)
  find-snoc test (z ∷ xs) x p = elim (Bool-cases (test z)) [
    | inl found ↦ (z, rw found)
    | inr other ↦ let (y, e) = find-snoc test xs x p in (y, rw other e)
  ]

  -- What holds of every element holds of the one found.
  pub All-found {κ} :
      (P : A → Type κ) (test : A → Bool) (xs : List A) {x : A}
      → All P xs
      → find test xs ≡ some x
      → P x
  All-found P test [] h e = absurd (ground arith)
  All-found P test (z ∷ xs) {x} h e = elim (Bool-cases (test z)) [
    | inl found ↦ subst P (found-eq (rw found at e)) h.0
    | inr later ↦ All-found P test xs h.1 (rw later at e)
  ]
    where
      found-eq : some z ≡ some x → z ≡ x
      found-eq p = cc

  pub All-take {κ} : (P : A → Type κ) (n : ℕ) (xs : List A) → All P xs → All P (take n xs)
  All-take P zero xs h = tt
  All-take P (suc n) [] h = tt
  All-take P (suc n) (x ∷ xs) h = (h.0, All-take P n xs h.1)

  pub select-nil :
      (test : A → Bool) (xs : List A) → All (λ x. test x ≡ false) xs → select test xs ≡ []
  select-nil test [] h = refl
  select-nil test (x ∷ xs) h = rw h.0 (select-nil test xs h.1)

-- What holds of the key of every element holds of a key in the list.
pub All-elem {ℓ} :
    {A : Type ℓ} (key : A → ℕ) (P : ℕ → Type 0) (a : ℕ) (xs : List A)
    → All (λ x. P (key x)) xs
    → elem a (map key xs) ≡ true
    → P a
All-elem key P a [] h e = absurd (ground arith)
All-elem key P a (x ∷ xs) h e = elim (Bool-cases (key x == a)) [
  | inl same ↦ subst P ((==_iff (key x) a).0 same) h.0
  | inr other ↦ All-elem key P a xs h.1 (rw other at e)
]

module _ {ℓ} {A : Type ℓ} (key : A → ℕ) where
  pub All-find :
      (P : ℕ → Type 0) (test : A → Bool) (xs : List A) {x : A}
      → All P (map key xs)
      → find test xs ≡ some x
      → P (key x)
  All-find P test [] h e = absurd (ground arith)
  All-find P test (z ∷ xs) {x} h e = elim (Bool-cases (test z)) [
    | inl found ↦ subst (λ (y : A). P (key y)) (found-eq (rw found at e)) h.0
    | inr later ↦ All-find P test xs h.1 (rw later at e)
  ]
    where
      found-eq : some z ≡ some x → z ≡ x
      found-eq p = cc

  pub All-map_take :
      (P : ℕ → Type 0) (n : ℕ) (xs : List A) → All P (map key xs) → All P (map key (take n xs))
  All-map_take P zero xs h = tt
  All-map_take P (suc n) [] h = tt
  All-map_take P (suc n) (x ∷ xs) h = (h.0, All-map_take P n xs h.1)

  pub IsAscending-take :
      (n : ℕ) (xs : List A) → IsAscending (map key xs) → IsAscending (map key (take n xs))
  IsAscending-take zero xs h = tt
  IsAscending-take (suc n) [] h = tt
  IsAscending-take (suc n) (x ∷ xs) h =
      (All-map_take (λ i. key x < i) n xs h.0, IsAscending-take n xs h.1)

  -- A key of an ascending table finds its own row.
  pub find-key :
      (test : A → Bool) (xs : List A) {x : A}
      → IsAscending (map key xs)
      → find test xs ≡ some x
      → find (λ y. key y == key x) xs ≡ some x
  find-key test [] a e = absurd (ground arith)
  find-key test (z ∷ xs) {x} a e = elim (Bool-cases (test z)) [
    | inl found ↦ first (rw found at e)
    | inr later ↦
        let below : key z < key x = All-find (λ i. key z < i) test xs a.0 (rw later at e) in
        let other : (key z == key x) ≡ false = ground arith in
        rw other (find-key test xs a.1 (rw later at e))
  ]
    where
      first : some z ≡ some x → find (λ y. key y == key x) (z ∷ xs) ≡ some x
      first p = let q : z ≡ x = cc in rw (← q) (rw (==_refl (key z)))

  pub find-key_snoc :
      (xs : List A) (x : A)
      → All (λ i. i < key x) (map key xs)
      → find (λ y. key y == key x) (xs ++ x ∷ []) ≡ some x
  find-key_snoc [] x h = rw (==_refl (key x))
  find-key_snoc (z ∷ xs) x h =
      let other : (key z == key x) ≡ false = ground arith in rw other (find-key_snoc xs x h.1)

  pub elem-key_snoc : (xs : List A) (x : A) → elem (key x) (map key (xs ++ x ∷ [])) ≡ true
  elem-key_snoc [] x = rw (==_refl (key x))
  elem-key_snoc (z ∷ xs) x = elim (Bool-cases (key z == key x)) [
    | inl found ↦ rw found
    | inr other ↦ rw other (elem-key_snoc xs x)
  ]

  pub elem-key_append :
      (a : ℕ) (xs ys : List A) → elem a (map key xs) ≡ true → elem a (map key (xs ++ ys)) ≡ true
  elem-key_append a [] ys e = absurd (ground arith)
  elem-key_append a (x ∷ xs) ys e = elim (Bool-cases (key x == a)) [
    | inl same ↦ rw same
    | inr other ↦ rw other (elem-key_append a xs ys (rw other at e))
  ]

  -- An id that is in the table has a row.
  pub elem-find :
      (a : ℕ) (xs : List A)
      → elem a (map key xs) ≡ true
      → (x : A) × (find (λ y. key y == a) xs ≡ some x)
  elem-find a [] e = absurd (ground arith)
  elem-find a (x ∷ xs) e = elim (Bool-cases (key x == a)) [
    | inl same ↦ (x, rw same)
    | inr other ↦ let (y, h) = elem-find a xs (rw other at e) in (y, rw other h)
  ]
