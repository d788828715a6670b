-- ===== src/Configuration/Sound.antt =====
-- Which roles check_contracts.py lets a run start with.
use ancalagon.Base.{
  String, same_text, same_text_iff, true, sym, raise-ok, ◌>>=◌, >>=-eq-raise, ◌||◌, any, ◌++◌, List,
  [], ◌∷◌, All, Option, none, some, Result, ok, raise, value_error, Exception, >>=-eq-ok,
  collect_result, ◌≡◌, ◌↔◌, ◌⊎◌, inl, inr, refl, ◌∙◌, ap, ok-injective, Bool-cases,
}
use ancalagon.Session.Faults.{ClassRef}
use ancalagon.Configuration.Document.{SerialisableRole}
use ancalagon.Configuration.Contracts.{
  Imports, ContractFault, said, no_profile, faults_of, contracts_of, unless_faults, contract_fault,
  profile_fault, not_in_role, fault_where, profile_fault_by, hook_fault_among, hook_fault,
  check_contracts,
}
use ancalagon.Configuration.Faultless.{
  unless_faults-ok, faults_of-All, All-faults_of, collect_result-All, All-collect_result,
  select-All, All-select, collect_result_total, collect_result-raise,
}

-- A role that a run may start with: its classes and its profile can be loaded, the profile finds no fault
-- with it, its hooks are for tools that it uses, and it can be assembled.
pub record IsSound (im : Imports) (item : String × SerialisableRole) : Type 0 where
  pub input : im.resolve_class item.1.input ≡ ok tt
  pub answer : im.resolve_class item.1.answer ≡ ok tt
  pub answer_file : im.resolve_class item.1.answer_file ≡ ok tt
  pub kind : im.Kind
  pub profile : im.resolve_profile item.1.profile ≡ ok kind
  pub said_nothing : im.faults kind item.0 item.1 ≡ ok ""
  pub hooks_used :
      All
        (λ (hook : String × List ClassRef).
          (any (same_text hook.0) item.1.tools || any (same_text hook.0) (im.brings kind)) ≡ true)
        (item.1.before ++ item.1.after)
  pub assembled : im.assembles item.0 item.1 ≡ ok tt

module _ (im : Imports) where
  fault_where-none :
      {B : Type 0} (fault : Exception → B) (r : Result (Unit {0}))
      → fault_where fault r ≡ none
      → r ≡ ok tt
  unfolding fault_where
  fault_where-none fault (ok tt) h = refl
  fault_where-none fault (raise e) h = cc

  profile_fault_by-none :
      (name : String) (written : SerialisableRole) (r : Result im.Kind)
      → profile_fault_by im name written r ≡ ok none
      → (kind : im.Kind) × (r ≡ ok kind) × (im.faults kind name written ≡ ok "")
  unfolding profile_fault_by
  profile_fault_by-none name written (ok kind) h =
      let (fault, told, k) = >>=-eq-ok (im.faults kind name written) _ h in
      elim (Bool-cases (same_text fault "")) [
        | inl nothing ↦ (kind, refl, told ∙ ap ok ((same_text_iff fault "").0 nothing))
        | inr something ↦
            let k' : ok (some (said fault)) ≡ ok none = rw something at k in absurd (cc)
      ]
  profile_fault_by-none name written (raise e) h = absurd (cc)

  -- What a profile's `faults` raised for a role.
  abbrev pub Faulted : Exception → Type 0
  Faulted e =
      (kind : im.Kind) × (name : String) × (written : SerialisableRole) × (im.resolve_profile
          written.profile
        ≡ ok kind)
      × (im.faults kind name written ≡ raise e)

  profile_fault-Faulted :
      (item : String × SerialisableRole) (e : Exception)
      → profile_fault im item ≡ raise e
      → Faulted e
  unfolding profile_fault profile_fault_by
  profile_fault-Faulted (name, written) e h = by (im.resolve_profile written.profile) refl
    where
      by : (r : Result im.Kind) → im.resolve_profile written.profile ≡ r → Faulted e
      by (raise x) k =
          let none_raised : ok (some (no_profile name x)) ≡ raise e = rw k at h in
          raise-ok (sym none_raised)
      by (ok kind) k = elim (>>=-eq-raise (im.faults kind name written) _ (rw k at h)) [
        | inl raised ↦ (kind, name, written, k, raised)
        | inr (fault, _, told) ↦ raise-ok (sym told)
      ]

  hook_fault_among-none :
      (tools : List String) (name : String) (written : SerialisableRole)
      → hook_fault_among im tools name written ≡ none
      → (tools ≡ []) × (im.assembles name written ≡ ok tt)
  unfolding hook_fault_among
  hook_fault_among-none [] name written h = (refl, fault_where-none _ _ h)
  hook_fault_among-none (tool ∷ tools) name written h = cc

  -- What the three checks find of some roles, one role at a time.
  roles-IsSound :
      (roles : List (String × SerialisableRole))
      → All (λ contract. contract_fault im contract ≡ none) (contracts_of roles)
      → All (λ item. profile_fault im item ≡ ok none) roles
      → All (λ item. hook_fault im item ≡ ok none) roles
      → All (IsSound im) roles
  unfolding contract_fault contracts_of profile_fault hook_fault not_in_role
  roles-IsSound [] c p k = tt
  roles-IsSound ((name, role) ∷ roles) (input, (answer, (file, c))) (profile, p) (hook, k) =
      let (kind, resolved, nothing) =
        profile_fault_by-none name role (im.resolve_profile role.profile) profile in
      let (unused, assembled) =
        hook_fault_among-none (not_in_role im kind role) name role
          (ok-injective (rw resolved at hook)) in
      (
        record {
          input = fault_where-none _ _ input;
          answer = fault_where-none _ _ answer;
          answer_file = fault_where-none _ _ file;
          kind = kind;
          profile = resolved;
          said_nothing = nothing;
          hooks_used = select-All _ _ (role.before ++ role.after) unused;
          assembled = assembled;
        },
        roles-IsSound roles c p k,
      )

  IsSound-roles :
      (roles : List (String × SerialisableRole))
      → All (IsSound im) roles
      → All (λ contract. contract_fault im contract ≡ none) (contracts_of roles)
        × All (λ item. profile_fault im item ≡ ok none) roles
        × All (λ item. hook_fault im item ≡ ok none) roles
  unfolding contract_fault contracts_of profile_fault profile_fault_by hook_fault hook_fault_among
      fault_where not_in_role
  IsSound-roles [] h = (tt, tt, tt)
  IsSound-roles ((name, role) ∷ roles) (sound, rest) =
      let (c, p, k) = IsSound-roles roles rest in
      (
        (rw sound.input refl, (rw sound.answer refl, (rw sound.answer_file refl, c))),
        (rw sound.profile (rw sound.said_nothing refl), p),
        (
          rw sound.profile (
              rw (All-select _ _ (role.before ++ role.after) sound.hooks_used)
                (rw sound.assembled refl)),
          k,
        ),
      )

  -- Where every profile is found, the hooks' checks raise nothing.
  profiles-hooks :
      (roles : List (String × SerialisableRole))
      → All (λ item. profile_fault im item ≡ ok none) roles
      → All (λ item. (o : Option ContractFault) × (hook_fault im item ≡ ok o)) roles
  unfolding profile_fault hook_fault
  profiles-hooks [] h = tt
  profiles-hooks ((name, role) ∷ roles) (profile, h) =
      let (kind, resolved, _) =
        profile_fault_by-none name role (im.resolve_profile role.profile) profile in
      (
        (hook_fault_among im (not_in_role im kind role) name role, rw resolved refl),
        profiles-hooks roles h,
      )

  -- How the checks end.
  abbrev pub Ends : Result (Unit {0}) → Type 0
  Ends r = (r ≡ ok tt) ⊎ (r ≡ raise value_error) ⊎ ((e : Exception) × Faulted e × (r ≡ raise e))

  unless_faults-Ends :
      {A : Type 0} (faults : List A) (rest : Result (Unit {0}))
      → (faults ≡ [] → Ends rest)
      → Ends (unless_faults faults rest)
  unfolding unless_faults
  unless_faults-Ends [] rest h = h refl
  unless_faults-Ends (fault ∷ faults) rest h = inr (inl refl)

  hooks-Ends :
      (roles : List (String × SerialisableRole))
      → All (λ item. profile_fault im item ≡ ok none) roles
      → Ends (do faults ← collect_result (hook_fault im) roles; unless_faults faults (ok tt))
  hooks-Ends roles profiles =
      let (faults, collected) = collect_result_total _ _ (profiles-hooks roles profiles) in
      rw collected (unless_faults-Ends faults (ok tt) (λ _. inl refl))

  profiles-Ends :
      (roles : List (String × SerialisableRole)) (r : Result (List ContractFault))
      → collect_result (profile_fault im) roles ≡ r
      → Ends (do
        faults ← r
        unless_faults faults
            (do faults ← collect_result (hook_fault im) roles; unless_faults faults (ok tt)))
  profiles-Ends roles (raise e) h =
      let (item, raised) = collect_result-raise (profile_fault im) roles e h in
      inr (inr (e, profile_fault-Faulted item e raised, refl))
  profiles-Ends roles (ok faults) h =
      unless_faults-Ends faults _
        (λ nothing. hooks-Ends roles (collect_result-All _ _ (h ∙ ap ok nothing)))

  check_contracts-Ends :
      (roles : List (String × SerialisableRole)) → Ends (check_contracts im roles)
  unfolding check_contracts
  check_contracts-Ends roles =
      unless_faults-Ends (faults_of (contract_fault im) (contracts_of roles)) _
        (λ contracts. profiles-Ends roles (collect_result (profile_fault im) roles) refl)

-- `check_contracts` returns just where a run may start with every role of the configuration. Otherwise it
-- raises a ValueError, or what the profile of a role raised when it was asked for the faults of the role.
pub check_contracts-IsSound :
    (im : Imports) (roles : List (String × SerialisableRole))
    → ((check_contracts im roles ≡ ok tt) ↔ All (IsSound im) roles)
      × Ends im (check_contracts im roles)
unfolding check_contracts
check_contracts-IsSound im roles = (
  (
    λ h.
        let (contracts, more) =
          unless_faults-ok (faults_of (contract_fault im) (contracts_of roles)) _ h in
        let (found, profiles, more') = >>=-eq-ok (collect_result (profile_fault im) roles) _ more in
        let (nothing, last) = unless_faults-ok found _ more' in
        let (faults, hooks, k) = >>=-eq-ok (collect_result (hook_fault im) roles) _ last in
        roles-IsSound im roles (faults_of-All _ _ contracts)
          (collect_result-All _ _ (profiles ∙ ap ok nothing))
          (collect_result-All _ _ (hooks ∙ ap ok (unless_faults-ok faults (ok tt) k).0)),
    λ h.
        let (contracts, profiles, hooks) = IsSound-roles im roles h in
        rw (All-faults_of _ _ contracts)
          (rw (All-collect_result _ _ profiles) (rw (All-collect_result _ _ hooks) refl)),
  ),
  check_contracts-Ends im roles,
)
