-- ===== src/Base/Dicts.antt =====
-- Dicts with integer keys: each key is there once, and what insertion and removal do to the others.
use ancalagon.Base.{
  ℕ, suc, ◌≤◌, ◌≡◌, refl, Bool, false, ◌==◌, List, [], ◌∷◌, some, lookup, insert, without, has_key,
  length, select, arith, Bool-cases, inl, inr, All, ==_refl,
}
use ancalagon.Base.Order.{All-with}

module _ {ℓ} {V : Type ℓ} where
  abbrev pub HasDistinctKeys : List (ℕ × V) → Type 0
  HasDistinctKeys [] = Unit
  HasDistinctKeys ((k, v) ∷ m) = (has_key k m ≡ false) × HasDistinctKeys m

  has_key-without :
      (k j : ℕ) (m : List (ℕ × V)) → has_key j m ≡ false → has_key j (without k m) ≡ false
  has_key-without k j [] h = refl
  has_key-without k j ((i, v) ∷ m) h = ground (arith, has_key-without k j m)

  pub HasDistinctKeys-without :
      (k : ℕ) (m : List (ℕ × V)) → HasDistinctKeys m → HasDistinctKeys (without k m)
  HasDistinctKeys-without k [] h = tt
  HasDistinctKeys-without k ((i, v) ∷ m) h = elim (Bool-cases (i == k)) [
    | inl same ↦ rw same (HasDistinctKeys-without k m h.1)
    | inr other ↦ rw other (has_key-without k i m h.0, HasDistinctKeys-without k m h.1)
  ]

  has_key-insert :
      (k j : ℕ) (v : V) (m : List (ℕ × V))
      → (k == j) ≡ false
      → has_key j m ≡ false
      → has_key j (insert k v m) ≡ false
  has_key-insert k j v [] n h = rw n refl
  has_key-insert k j v ((i, w) ∷ m) n h = ground (arith, has_key-insert k j v m)

  pub HasDistinctKeys-insert :
      (k : ℕ) (v : V) (m : List (ℕ × V)) → HasDistinctKeys m → HasDistinctKeys (insert k v m)
  HasDistinctKeys-insert k v [] h = (refl, tt)
  HasDistinctKeys-insert k v ((i, w) ∷ m) h = elim (Bool-cases (i == k)) [
    | inl same ↦ rw same h
    | inr other ↦
        rw other (has_key-insert k i v m (ground arith) h.0, HasDistinctKeys-insert k v m h.1)
  ]

  -- How many items pass a test: an insertion adds one at most, and a removal none.
  pub length-select-insert :
      (test : ℕ × V → Bool) (k : ℕ) (v : V) (m : List (ℕ × V))
      → length (select test (insert k v m)) ≤ suc (length (select test m))
  length-select-insert test k v [] = ground arith
  length-select-insert test k v ((i, w) ∷ m) = ground (arith, length-select-insert test k v m)

  pub length-select-without :
      (test : ℕ × V → Bool) (k : ℕ) (m : List (ℕ × V))
      → length (select test (without k m)) ≤ length (select test m)
  length-select-without test k [] = ground arith
  length-select-without test k ((i, w) ∷ m) = ground (arith, length-select-without test k m)

  pub key-apart :
      (k : ℕ) (m : List (ℕ × V)) → has_key k m ≡ false → All (λ (x : ℕ × V). (k == x.0) ≡ false) m
  key-apart k [] h = tt
  key-apart k ((i, v) ∷ m) h = (ground arith, key-apart k m (ground arith))

  -- Each item of a dict is what its key is looked up to.
  pub lookup-items :
      (m : List (ℕ × V)) → HasDistinctKeys m → All (λ (x : ℕ × V). lookup x.0 m ≡ some x.1) m
  lookup-items [] h = tt
  lookup-items ((k, v) ∷ m) h = (
    rw (==_refl k) refl,
    All-with (λ (x : ℕ × V). (k == x.0) ≡ false) (λ x other e. rw other e) m (key-apart k m h.0)
        (lookup-items m h.1),
  )
