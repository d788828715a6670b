-- ===== src/Base/Exec.antt =====
-- Methods that change an object and may raise: what was written before an exception stays written.
use ancalagon.Base.{
  Result, ok, raise, List, [], ◌∷◌, ◌≡◌, refl, Bool, if◌then◌else◌, Bool-cases, inl, inr, ap,
  Exception,
}

abbrev pub Exec : Type 0 → Type 0 → Type 0
Exec S A = S → Result A × S

module _ {S A : Type 0} where
  abbrev pub pure : A → Exec S A
  pure a s = (ok a, s)

  -- A part that reads and may raise.
  abbrev pub lift : Result A → Exec S A
  lift r s = (r, s)

  abbrev pub gets : (S → A) → Exec S A
  gets f s = (ok (f s), s)

module _ {S : Type 0} where
  abbrev pub modify : (S → S) → Exec S (Unit {0})
  modify f s = (ok tt, f s)

module _ {S A B : Type 0} where
  abbrev pub continue : (A → Exec S B) → Result A × S → Result B × S
  continue f (ok a, s) = f a s
  continue f (raise e, s) = (raise e, s)

  infixl 5 ◌>>=◌ ◌>>◌
  abbrev pub ◌>>=◌ : Exec S A → (A → Exec S B) → Exec S B
  ◌>>=◌ m f s = continue f (m s)

  abbrev pub ◌>>◌ : Exec S A → Exec S B → Exec S B
  m >> n = m >>= λ _. n

module _ {S A : Type 0} where
  -- `for x in xs: body(x)`.
  abbrev pub for_each : (A → Exec S (Unit {0})) → List A → Exec S (Unit {0})
  for_each body [] = pure tt
  for_each body (x ∷ xs) = body x >> for_each body xs

-- From a state of `P` the method returns, and `Q` holds of what it returns and leaves.
abbrev pub Total : {S A : Type 0} → (S → Type 0) → Exec S A → (A → S → Type 0) → Type 0
Total {S} {A} P m Q = (s : S) → P s → (a : A) × (s' : S) × (m s ≡ (ok a, s')) × Q a s'

module _ {S A B : Type 0} where
  pub Total-bind :
      (P : S → Type 0) (Q : A → S → Type 0) (R : B → S → Type 0) (m : Exec S A) (f : A → Exec S B)
      → Total P m Q
      → ((a : A) → Total (Q a) (f a) R)
      → Total P (m >>= f) R
  Total-bind P Q R m f hm hf s p =
      let (a, s', e, q) = hm s p in let (b, s'', e', r) = hf a s' q in (b, s'', rw e e', r)

module _ {S A : Type 0} where
  -- A loop whose body keeps the invariant `I xs` of what is left.
  pub Total-for_each :
      (I : List A → S → Type 0) (body : A → Exec S (Unit {0}))
      → ((x : A) (xs : List A) → Total (I (x ∷ xs)) (body x) (λ _. I xs))
      → (xs : List A) → Total (I xs) (for_each body xs) (λ _. I [])
  Total-for_each I body h [] s p = (tt, s, refl, p)
  Total-for_each I body h (x ∷ xs) s p =
      Total-bind (I (x ∷ xs)) (λ _. I xs) (λ _. I []) (body x) (λ _. for_each body xs) (h x xs)
        (λ _. Total-for_each I body h xs) s p

-- Whatever the method returns or raises, it leaves a state of `I`.
pub record Leaves {S A : Type 0} (I : S → Type 0) (m : Exec S A) : Type 0 where
  pub at : (s : S) → I s → I (m s).1

module _ {S A B : Type 0} (I : S → Type 0) where
  pub Leaves-after :
      (m : Exec S A) (f : A → Exec S B) (s : S)
      → I (m s).1
      → ((a : A) → Leaves I (f a))
      → I ((m >>= f) s).1
  Leaves-after m f s i h = go (m s) i
    where
      go : (p : Result A × S) → I p.1 → I (continue f p).1
      go (ok a, s') i' = (h a).at s' i'
      go (raise x, s') i' = i'

  pub Leaves-bind :
      (m : Exec S A) (f : A → Exec S B)
      → Leaves I m
      → ((a : A) → Leaves I (f a))
      → Leaves I (m >>= f)
  Leaves-bind m f hm hf = record { at = λ s i. Leaves-after m f s (hm.at s i) hf }

module _ {S A : Type 0} (I : S → Type 0) where
  pub Leaves-if :
      (m n : Exec S A) (test : S → Bool)
      → Leaves I m
      → Leaves I n
      → Leaves I (λ s. if test s then m s else n s)
  Leaves-if m n test hm hn = record {
    at = λ s i. elim (Bool-cases (test s)) [ inl h ↦ rw h (hm.at s i) | inr h ↦ rw h (hn.at s i) ];
  }

  pub Leaves-for_each :
      (body : A → Exec S (Unit {0}))
      → ((a : A) → Leaves I (body a))
      → (xs : List A) → Leaves I (for_each body xs)
  Leaves-for_each body h [] = record { at = λ s i. i }
  Leaves-for_each body h (x ∷ xs) =
      Leaves-bind I (body x) (λ _. for_each body xs) (h x) (λ _. Leaves-for_each body h xs)

-- What the method returns, from whatever state.
abbrev pub Returned : {A : Type 0} → (A → Type 0) → Result A → Type 0
Returned Q (ok a) = Q a
Returned Q (raise x) = Unit

pub record Returns {S A : Type 0} (Q : A → Type 0) (m : Exec S A) : Type 0 where
  pub at : (s : S) → Returned Q (m s).0

module _ {S A B : Type 0} where
  pub Returns-bind :
      (Q : A → Type 0) (R : B → Type 0) (m : Exec S A) (f : A → Exec S B)
      → Returns Q m
      → ((a : A) → Q a → Returns R (f a))
      → Returns R (m >>= f)
  Returns-bind Q R m f hm hf = record { at = λ s. go (m s) (hm.at s) }
    where
      go : (p : Result A × S) → Returned Q p.0 → Returned R (continue f p).0
      go (ok a, s') q = (hf a q).at s'
      go (raise x, s') q = tt

  pub Returns-then :
      (R : B → Type 0) (m : Exec S A) (f : A → Exec S B)
      → ((a : A) → Returns R (f a))
      → Returns R (m >>= f)
  Returns-then R m f hf = record { at = λ s. go (m s) }
    where
      go : (p : Result A × S) → Returned R (continue f p).0
      go (ok a, s') = (hf a).at s'
      go (raise x, s') = tt

module _ {S A B : Type 0} where
  -- What a method that returned went through.
  pub >>=-returned :
      (m : Exec S A) (f : A → Exec S B) (s : S) (b : B) (s' : S)
      → (m >>= f) s ≡ (ok b, s')
      → (a : A) × (s₁ : S) × (m s ≡ (ok a, s₁)) × (f a s₁ ≡ (ok b, s'))
  >>=-returned m f s b s' h = go (m s) refl h
    where
      go :
          (p : Result A × S)
          → m s ≡ p
          → continue f p ≡ (ok b, s')
          → (a : A) × (s₁ : S) × (m s ≡ (ok a, s₁)) × (f a s₁ ≡ (ok b, s'))
      go (ok a, s₁) e k = (a, s₁, e, k)
      go (raise x, s₁) e k = absurd (raised (ap (λ (p : Result B × S). p.0) k))
        where
          raised : {x : Exception} {b : B} → raise x ≡ ok b → ⊥
          raised h = cc
