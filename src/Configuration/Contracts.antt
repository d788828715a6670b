-- ===== src/Configuration/Contracts.antt =====
-- check_contracts.py: what the roles of a configuration must satisfy before a run starts.
use ancalagon.Base.{
  String, same_text, not, ◌||◌, any, if◌then◌else◌, List, [], ◌∷◌, ◌++◌, map, select, Option, none,
  some, Result, ok, raise, Exception, value_error, ◌>>=◌, collect_result,
}
use ancalagon.Session.Faults.{ClassRef}
use ancalagon.Configuration.Document.{SerialisableRole}

-- A fault, that its text is formatted from.
pub data ContractFault : Type 0 where
  not_loaded : (name field : String) (ref : ClassRef) (error : Exception) → ContractFault
  no_profile : (name : String) (error : Exception) → ContractFault
  said : (fault : String) → ContractFault
  unused_hook : (name : String) (tools : List String) → ContractFault
  not_assembled : (name : String) (error : Exception) → ContractFault

-- The imports of classes and of profiles, what a profile finds wrong with a role, which may raise, as
-- Deterministic imports the role's function for it, the tools that a profile brings, and what `assemble` raises for a role of the configuration.
pub record Imports : Type 1 where
  pub Kind : Type 0
  pub resolve_class : ClassRef → Result (Unit {0})
  pub resolve_profile : ClassRef → Result Kind
  pub faults : Kind → String → SerialisableRole → Result String
  pub brings : Kind → List String
  pub assembles : String → SerialisableRole → Result (Unit {0})

-- The fault that an exception makes.
unfoldable pub fault_where : {A B : Type 0} → (Exception → B) → Result A → Option B
fault_where fault (ok a) = none
fault_where fault (raise error) = some (fault error)

-- `fault` in a list, where it is one.
unfoldable pub with_fault : {A : Type 0} → Option A → List A → List A
with_fault none faults = faults
with_fault (some fault) faults = fault ∷ faults

-- `[fault for x in xs if (fault := check(x))]`.
unfoldable pub faults_of : {A B : Type 0} → (A → Option B) → List A → List B
unfolding with_fault
faults_of check [] = []
faults_of check (x ∷ xs) = with_fault (check x) (faults_of check xs)

-- Each role's `(name, field, ref)`, in order.
unfoldable pub contracts_of : List (String × SerialisableRole) → List (String × String × ClassRef)
contracts_of [] = []
contracts_of ((name, role) ∷ roles) =
    (name, "input", role.input)
    ∷ (name, "answer", role.answer)
    ∷ (name, "answer_file", role.answer_file)
    ∷ contracts_of roles

-- `faults or ...`, and the exception where there are faults.
unfoldable pub unless_faults : {A : Type 0} → List A → Result (Unit {0}) → Result (Unit {0})
unless_faults [] rest = rest
unless_faults (fault ∷ faults) rest = raise value_error

module _ (im : Imports) where
  -- `_contract_fault`.
  unfoldable pub contract_fault : String × String × ClassRef → Option ContractFault
  unfolding fault_where
  contract_fault (name, field, ref) = fault_where (not_loaded name field ref) (im.resolve_class ref)

  unfoldable pub profile_fault_by :
      String → SerialisableRole → Result im.Kind → Result (Option ContractFault)
  profile_fault_by name written (ok kind) = do
    text ← im.faults kind name written
    ok (if same_text text "" then none else some (said text))
  profile_fault_by name written (raise error) = ok (some (no_profile name error))

  -- `_profile_fault`, whose `try` ends before the profile is asked.
  unfoldable pub profile_fault : String × SerialisableRole → Result (Option ContractFault)
  unfolding profile_fault_by
  profile_fault (name, written) = profile_fault_by name written (im.resolve_profile written.profile)

  -- `not_in_role`: the tools that hooks are for and that the role does not use.
  unfoldable pub not_in_role : im.Kind → SerialisableRole → List String
  not_in_role kind written =
      select
        (λ tool. not (any (same_text tool) written.tools || any (same_text tool) (im.brings kind)))
        (map (λ (hook : String × List ClassRef). hook.0) (written.before ++ written.after))

  unfoldable pub hook_fault_among : List String → String → SerialisableRole → Option ContractFault
  unfolding fault_where
  hook_fault_among [] name written = fault_where (not_assembled name) (im.assembles name written)
  hook_fault_among (tool ∷ tools) name written = some (unused_hook name (tool ∷ tools))

  -- `_hook_fault`, where the profile's import may raise.
  unfoldable pub hook_fault : String × SerialisableRole → Result (Option ContractFault)
  unfolding hook_fault_among not_in_role
  hook_fault (name, written) = do
    kind ← im.resolve_profile written.profile
    ok (hook_fault_among (not_in_role kind written) name written)

  -- `check_contracts`, of a configuration's roles.
  unfoldable pub check_contracts : List (String × SerialisableRole) → Result (Unit {0})
  unfolding faults_of contract_fault contracts_of profile_fault hook_fault unless_faults
  check_contracts roles = unless_faults (faults_of contract_fault (contracts_of roles)) (do
    faults ← collect_result profile_fault roles
    unless_faults faults
        (do faults ← collect_result hook_fault roles; unless_faults faults (ok tt)))
