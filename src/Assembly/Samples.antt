-- ===== src/Assembly/Samples.antt =====
-- A role that reads and delegates, assembled where it may and where it may not, and the theorems at it.
use ancalagon.Base.{
  ℕ, String, same_text, if◌then◌else◌, ◌++◌, true, false, [], ◌∷◌, map, List, Result, ok, raise,
  value_error, ◌≡◌, refl, ◌>>=◌,
}
use ancalagon.Session.Tools.{
  BoundTool, Payload, registry_of, registry_from, put_tool, name_of_tool, same_spec,
}
use ancalagon.Session.Profiles.{spec_from, spec_for}
use ancalagon.Session.Answering.{answering_for}
use ancalagon.Assembly.ToolClass.{Bindings, bind_tool, bound_for, spec_of}
use ancalagon.Assembly.Available.{
  Answers, available_tools, available_classes, delegate_tools, delegate, delegate_to,
  no_delegate_to, delegate_name, delegate_description, watch_for, watcher_in, watch_class,
  idle_class, submit_answer, submit_answer_as_file,
}
use ancalagon.Assembly.Permitting.{
  Config, Assembly, assemble, assemble_from, catalogue_for, answering_tools, answering_supplies,
  profile_tools, has_unknown, is_permitted,
}
use ancalagon.Assembly.Answerable.{answering_tools-catalogue_for}

abbrev bindings : Bindings ℕ
bindings = record {
  resolve_hooks = λ c. ok tt;
  parameters = λ c. "{}";
  invoke = λ c arguments w. (
    ok (record {
      is_ok = true;
      summary = Payload.other "done";
      path = "out.txt";
      byte_count = 4;
      truncated = false;
      error = "";
    }),
    w,
  );
}

abbrev answers : Answers
answers = record { answer_description = "Submit."; answer_file_description = "Submit a file." }

abbrev config : Config
config = record {
  roles =
      (record { name = "reader"; behaviour = "Read."; run = "" })
      ∷ (record { name = "watcher"; behaviour = "Wait."; run = watch_for })
      ∷ [];
  max_depth = 2;
}

abbrev tools : List String
tools = "read_file" ∷ "delegate_reader" ∷ []

names : Result (Assembly ℕ) → Result (List String)
names r = r >>= λ a. ok (map name_of_tool a.registry)

at_depth : ℕ → List String → Result (List String)
unfolding names assemble assemble_from catalogue_for available_tools available_classes
    delegate_tools delegate delegate_to no_delegate_to delegate_name delegate_description watcher_in
    watch_class idle_class bind_tool bound_for answering_tools answering_supplies profile_tools
    has_unknown is_permitted same_spec registry_of registry_from put_tool spec_from spec_for
    answering_for
at_depth depth asked =
    names (assemble bindings true answers config asked depth (answering_tools "SubmitAnswer"))

permitted_names :
    (at_depth 1 tools ≡ ok ("read_file" ∷ "delegate_reader" ∷ "idle" ∷ "submit_answer" ∷ []))
    × (at_depth 2 tools ≡ ok ("read_file" ∷ "idle" ∷ "submit_answer" ∷ []))
    × (at_depth 1 ("read" ∷ []) ≡ raise value_error)
unfolding at_depth
permitted_names = (refl, refl, refl)

abbrev catalogue : List (BoundTool ℕ)
catalogue =
    map (bind_tool bindings) (
      available_classes true answers
        (record { name = "reader"; behaviour = "Read."; run = "" } ∷ []))
    ++ bind_tool bindings (watch_class true) ∷ []

catalogued : catalogue_for bindings true answers config tools ≡ ok catalogue
unfolding catalogue_for available_tools available_classes delegate_tools delegate delegate_to
    no_delegate_to delegate_name delegate_description watcher_in watch_class idle_class bind_tool
    bound_for
catalogued = refl

-- The hooks of one tool cannot be resolved.
abbrev hooked : Bindings ℕ
hooked = record bindings {
  resolve_hooks = λ c. if same_text c.name "ripgrep" then raise value_error else ok tt;
}

unhooked :
    assemble hooked true answers config tools 2 (answering_tools "SubmitAnswer") ≡ raise value_error
unfolding assemble catalogue_for available_tools available_classes delegate_tools delegate
    delegate_to no_delegate_to delegate_name delegate_description idle_class bound_for
unhooked = refl

answering_tools-catalogue_for_example :
    (answering_tools "SubmitAnswer" catalogue
      ≡ ok (spec_of bindings (submit_answer answers) ∷ spec_of bindings (idle_class true) ∷ []))
    × (answering_tools "SubmitAnswerAsFile" catalogue
        ≡ ok (
            spec_of bindings (submit_answer_as_file answers)
            ∷ spec_of bindings (idle_class true)
            ∷ []))
answering_tools-catalogue_for_example =
    answering_tools-catalogue_for bindings true answers config tools catalogue catalogued
