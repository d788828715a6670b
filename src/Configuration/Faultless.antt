-- ===== src/Configuration/Faultless.antt =====
-- Lists of faults: when a check finds none, and when it raises nothing.
use ancalagon.Base.{
  Bool, true, not, map, select, List, [], ◌∷◌, All, Option, none, some, Result, Exception, ok,
  raise, sym, >>=-eq-raise, >>=-eq-ok, collect_result, ◌≡◌, inl, inr, refl, ◌∙◌, ap, ok-injective,
  raise-ok, Bool-cases,
}
use ancalagon.Configuration.Contracts.{with_fault, faults_of, unless_faults}

pub unless_faults-ok :
    {A : Type 0} (faults : List A) (rest : Result (Unit {0}))
    → unless_faults faults rest ≡ ok tt
    → (faults ≡ []) × (rest ≡ ok tt)
unfolding unless_faults
unless_faults-ok [] rest h = (refl, h)
unless_faults-ok (fault ∷ faults) rest h = raise-ok h

pub with_fault-nil :
    {A : Type 0} (o : Option A) (faults : List A)
    → with_fault o faults ≡ []
    → (o ≡ none) × (faults ≡ [])
unfolding with_fault
with_fault-nil none faults h = (refl, h)
with_fault-nil (some fault) faults h = cc

module _ {A B : Type 0} where
  pub faults_of-All :
      (check : A → Option B) (xs : List A) → faults_of check xs ≡ [] → All (λ x. check x ≡ none) xs
  unfolding faults_of with_fault
  faults_of-All check [] h = tt
  faults_of-All check (x ∷ xs) h =
      let (first, rest) = with_fault-nil (check x) (faults_of check xs) h in
      (first, faults_of-All check xs rest)

  pub All-faults_of :
      (check : A → Option B) (xs : List A) → All (λ x. check x ≡ none) xs → faults_of check xs ≡ []
  unfolding faults_of with_fault
  All-faults_of check [] h = refl
  All-faults_of check (x ∷ xs) h = rw h.0 (All-faults_of check xs h.1)

  pub collect_result-All :
      (check : A → Result (Option B)) (xs : List A)
      → collect_result check xs ≡ ok []
      → All (λ x. check x ≡ ok none) xs
  collect_result-All check [] h = tt
  collect_result-All check (x ∷ xs) h =
      let (o, first, k) = >>=-eq-ok (check x) _ h in
      let (later, rest, e) = >>=-eq-ok (collect_result check xs) _ k in
      let (no_fault, none_later) = found o later (ok-injective e) in
      (first ∙ ap ok no_fault, collect_result-All check xs (rest ∙ ap ok none_later))
    where
      found :
          (o : Option B) (later : List B)
          → elim o [ none ↦ later | some b ↦ b ∷ later ] ≡ []
          → (o ≡ none) × (later ≡ [])
      found none later e = (refl, e)
      found (some b) later e = cc

  pub All-collect_result :
      (check : A → Result (Option B)) (xs : List A)
      → All (λ x. check x ≡ ok none) xs
      → collect_result check xs ≡ ok []
  All-collect_result check [] h = refl
  All-collect_result check (x ∷ xs) h = rw h.0 (rw (All-collect_result check xs h.1) refl)

  pub select-All :
      (p : A → Bool) (f : B → A) (xs : List B)
      → select (λ a. not (p a)) (map f xs) ≡ []
      → All (λ x. p (f x) ≡ true) xs
  select-All p f [] h = tt
  select-All p f (x ∷ xs) h = elim (Bool-cases (p (f x))) [
    | inl used ↦ (used, select-All p f xs (rw used at h))
    | inr other ↦ let k : f x ∷ select (λ a. not (p a)) (map f xs) ≡ [] = rw other at h in cc
  ]

  pub All-select :
      (p : A → Bool) (f : B → A) (xs : List B)
      → All (λ x. p (f x) ≡ true) xs
      → select (λ a. not (p a)) (map f xs) ≡ []
  All-select p f [] h = refl
  All-select p f (x ∷ xs) h = rw h.0 (All-select p f xs h.1)

  -- Checks that raise nothing are collected.
  pub collect_result_total :
      (check : A → Result (Option B)) (xs : List A)
      → All (λ x. (o : Option B) × (check x ≡ ok o)) xs
      → (ys : List B) × (collect_result check xs ≡ ok ys)
  collect_result_total check [] h = ([], refl)
  collect_result_total check (x ∷ xs) ((o, first), h) =
      let (ys, rest) = collect_result_total check xs h in
      (elim o [ none ↦ ys | some b ↦ b ∷ ys ], rw first (rw rest refl))

  -- What the collecting raises, one of the checks raised.
  pub collect_result-raise :
      (check : A → Result (Option B)) (xs : List A) (e : Exception)
      → collect_result check xs ≡ raise e
      → (x : A) × (check x ≡ raise e)
  collect_result-raise check [] e h = cc
  collect_result-raise check (x ∷ xs) e h = elim (>>=-eq-raise (check x) _ h) [
    | inl first ↦ (x, first)
    | inr (o, _, k) ↦ elim (>>=-eq-raise (collect_result check xs) _ k) [
      | inl later ↦ collect_result-raise check xs e later
      | inr (ys, _, done) ↦ raise-ok (sym done)
    ]
  ]
