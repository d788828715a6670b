-- ===== src/Session/Faults.antt =====
-- The `faults` of profiles/answering.py, answering_as_file.py, standing.py and deterministic.py: what
-- is wrong with a role of that profile. A fault is a value, that its text is formatted from.
use ancalagon.Base.{
  String, same_text, Bool, not, ◌&&◌, if◌then◌else◌, Option, none, some, ◌≡◌, ◌⊎◌, inl, inr, refl,
  List, [], ◌∷◌, Result, ok, ◌>>=◌,
}

-- `ClassRef`, `FunctionRef`: a name in a module.
pub record ClassRef : Type 0 where
  pub source : String
  pub name : String

abbrev pub same_class : ClassRef → ClassRef → Bool
same_class a b = same_text a.source b.source && same_text a.name b.name

-- What the faults of a profile read of a role; `NO_RUN` and `NO_ANSWER_FILE` are `none`.
pub record Role : Type 0 where
  pub input : ClassRef
  pub answer : ClassRef
  pub answer_file : Option ClassRef
  pub run : Option ClassRef

pub data Fault : Type 0 where
  names_run : (ref : ClassRef) → Fault
  unchecked_file : (ref : ClassRef) → Fault
  wrong_answer : (ref : ClassRef) → Fault
  no_answer_file : Fault
  no_run : Fault
  disagrees : (field : String) (declared derived : ClassRef) → Fault

-- `run_ref_fault`.
unfoldable pub run_ref_fault : Role → Option Fault
run_ref_fault role = elim role.run [ none ↦ none | some ref ↦ some (names_run ref) ]

unfoldable pub unchecked_fault : Role → Option Fault
unchecked_fault role = elim role.answer_file [ none ↦ none | some ref ↦ some (unchecked_file ref) ]

-- `next((fault for check in checks if (fault := check(...))), "")`.
unfoldable pub first_fault : List (Role → Option Fault) → Role → Option Fault
first_fault [] role = none
first_fault (check ∷ checks) role = elim (check role) [
  | none ↦ first_fault checks role
  | some fault ↦ some fault
]

-- `Answering.faults`.
unfoldable pub answering_faults : Role → Option Fault
unfolding first_fault run_ref_fault unchecked_fault
answering_faults role = first_fault (run_ref_fault ∷ unchecked_fault ∷ []) role

abbrev pub answer_file_class : ClassRef
answer_file_class = record { source = "ancalagon.contracts.answer_file"; name = "AnswerFile" }

abbrev pub free_text : ClassRef
free_text = record { source = "ancalagon.contracts.free_text"; name = "FreeText" }

unfoldable pub answer_fault : ClassRef → Role → Option Fault
answer_fault wanted role =
    if same_class role.answer wanted then none else some (wrong_answer role.answer)

unfoldable pub content_fault : Role → Option Fault
content_fault role = elim role.answer_file [ none ↦ some no_answer_file | some ref ↦ none ]

-- `AnsweringAsFile.faults`.
unfoldable pub answering_as_file_faults : Role → Option Fault
unfolding first_fault run_ref_fault answer_fault content_fault
answering_as_file_faults role =
    first_fault (run_ref_fault ∷ answer_fault answer_file_class ∷ content_fault ∷ []) role

-- `Standing.faults`.
unfoldable pub standing_faults : Role → Option Fault
unfolding first_fault run_ref_fault answer_fault unchecked_fault
standing_faults role =
    first_fault (run_ref_fault ∷ answer_fault free_text ∷ unchecked_fault ∷ []) role

-- What a run function takes and gives is read from its annotations.
module _ (run_contracts : ClassRef → Result (ClassRef × ClassRef)) where
  disagreement : Role → ClassRef × ClassRef → Option Fault
  disagreement role (given, produced) =
      if not (same_class role.input given)
      then some (disagrees "input" role.input given)
      else if not (same_class role.answer produced)
      then some (disagrees "answer" role.answer produced)
      else none

  deterministic_by : Role → Option ClassRef → Result (Option Fault)
  unfolding disagreement
  deterministic_by role none = ok (some no_run)
  deterministic_by role (some ref) = do found ← run_contracts ref; ok (disagreement role found)

  -- `Deterministic.faults`.
  unfoldable pub deterministic_faults : Role → Result (Option Fault)
  unfolding deterministic_by
  deterministic_faults role = deterministic_by role role.run

some-none : {A B : Type 0} {a : A} → some a ≡ none → B
some-none h = cc

-- A role that one of the three conversing profiles takes is refused by the deterministic one, for
-- the run function that it does not name.
pub deterministic_faults-conversing :
    (run_contracts : ClassRef → Result (ClassRef × ClassRef)) (role : Role)
    → (answering_faults role ≡ none)
      ⊎ (answering_as_file_faults role ≡ none)
      ⊎ (standing_faults role ≡ none)
    → deterministic_faults run_contracts role ≡ ok (some no_run)
unfolding deterministic_faults deterministic_by answering_faults answering_as_file_faults
    standing_faults first_fault run_ref_fault
deterministic_faults-conversing run_contracts role h = go role.run refl h
  where
    go :
        (o : Option ClassRef)
        → role.run ≡ o
        → (answering_faults role ≡ none)
          ⊎ (answering_as_file_faults role ≡ none)
          ⊎ (standing_faults role ≡ none)
        → deterministic_by run_contracts role o ≡ ok (some no_run)
    go none e k = refl
    go (some ref) e (inl k) = some-none (rw e at k)
    go (some ref) e (inr (inl k)) = some-none (rw e at k)
    go (some ref) e (inr (inr k)) = some-none (rw e at k)
