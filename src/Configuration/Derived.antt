-- ===== src/Configuration/Derived.antt =====
-- How config/from_document.py makes the roles of a document those of a configuration.
use ancalagon.Base.{
  String, true, false, List, [], ◌∷◌, ok, value_error, map_result, if-true, ◌≡◌, ◌⊎◌, inl, inr,
  refl, sym, ap, ◌∙◌, subst, Bool-cases, ok-injective, raise-ok, >>=-eq-ok,
}
use ancalagon.Session.Faults.{ClassRef, same_class, free_text}
use ancalagon.Configuration.Document.{SerialisableRole}
use ancalagon.Configuration.Roles.{
  Python, no_run_ref, derived, role_written, named_role, is_role_name,
}

module _ (py : Python) where
  -- A role without a run function stays as it is written. One with such a function states no contract
  -- of its own and has those of the function.
  abbrev pub IsDerived : SerialisableRole → SerialisableRole → Type 0
  IsDerived written role =
      (same_class written.run no_run_ref ≡ true) × (role ≡ written)
      ⊎ (same_class written.run no_run_ref ≡ false)
        × (same_class written.input free_text ≡ true)
        × (same_class written.answer free_text ≡ true)
        × ((given produced : ClassRef) × (py.run_contracts written.run ≡ ok (given, produced))
            × (role ≡ record written { input = given; answer = produced }))

  -- Each role has its name, which is one that a role may have, and is derived from what is written.
  abbrev pub Configured :
      List (String × SerialisableRole) → List (String × SerialisableRole) → Type 0
  Configured [] [] = Unit
  Configured [] (role ∷ roles) = ⊥
  Configured (written ∷ items) [] = ⊥
  Configured (written ∷ items) (role ∷ roles) =
      (role.0 ≡ written.0)
      × (is_role_name written.0 ≡ true)
      × IsDerived written.1 role.1
      × Configured items roles

  derived-IsDerived :
      (written role : SerialisableRole) → derived py written ≡ ok role → IsDerived written role
  unfolding derived
  derived-IsDerived written role h = elim (Bool-cases (same_class written.run no_run_ref)) [
    | inl n ↦ inl (n, sym (ok-injective (rw n at h)))
    | inr r ↦ elim (Bool-cases (same_class written.input free_text)) [
      | inr i ↦ raise-ok {failure = value_error} {x = role} (rw i at rw r at h)
      | inl i ↦ elim (Bool-cases (same_class written.answer free_text)) [
        | inr a ↦ raise-ok {failure = value_error} {x = role} (rw a at rw i at rw r at h)
        | inl a ↦
            let ((given, produced), c, k) =
              >>=-eq-ok (py.run_contracts written.run) _ (rw a at rw i at rw r at h) in
            inr (r, i, a, (given, produced, c, sym (ok-injective k)))
      ]
    ]
  ]

  IsDerived-derived :
      (written role : SerialisableRole) → IsDerived written role → derived py written ≡ ok role
  unfolding derived
  IsDerived-derived written role (inl (n, e)) = if-true _ _ n ∙ ap ok (sym e)
  IsDerived-derived written role (inr (r, i, a, (given, produced, c, e))) =
      rw r (rw i (rw a (rw c (ap ok (sym e)))))

  named_role-IsDerived :
      (written made : String × SerialisableRole)
      → named_role py written ≡ ok made
      → (made.0 ≡ written.0) × (is_role_name written.0 ≡ true) × IsDerived written.1 made.1
  unfolding named_role role_written
  named_role-IsDerived written made h = elim (Bool-cases (is_role_name written.0)) [
    | inr refused ↦ raise-ok {failure = value_error} {x = made} (rw refused at h)
    | inl accepted ↦
        let (role, d, k) = >>=-eq-ok (derived py written.1) _ (rw accepted at h) in
        subst
          (λ (m : String × SerialisableRole).
            (m.0 ≡ written.0) × (is_role_name written.0 ≡ true) × IsDerived written.1 m.1)
          (ok-injective k) (refl, accepted, derived-IsDerived written.1 role d)
  ]

  pub map_result-Configured :
      (items roles : List (String × SerialisableRole))
      → map_result (named_role py) items ≡ ok roles
      → Configured items roles
  unfolding named_role role_written
  map_result-Configured [] [] h = tt
  map_result-Configured [] (role ∷ roles) h = cc
  map_result-Configured (written ∷ items) roles h =
      let (made, first, k) = >>=-eq-ok (named_role py written) _ h in
      let (later, rest, e) = >>=-eq-ok (map_result (named_role py) items) _ k in
      subst (Configured (written ∷ items)) (ok-injective e) (
        let (name, accepted, d) = named_role-IsDerived written made first in
        (name, accepted, d, map_result-Configured items later rest))

  pub Configured-map_result :
      (items roles : List (String × SerialisableRole))
      → Configured items roles
      → map_result (named_role py) items ≡ ok roles
  unfolding named_role role_written
  Configured-map_result [] [] h = refl
  Configured-map_result [] (role ∷ roles) h = absurd h
  Configured-map_result (written ∷ items) [] h = absurd h
  Configured-map_result (written ∷ items) (role ∷ roles) (name, accepted, d, rest) = rw accepted (
      rw (IsDerived-derived written.1 role.1 d)
        (rw (Configured-map_result items roles rest) (rw name refl)))
