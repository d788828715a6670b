-- ===== src/Assembly/Available.antt =====
-- `available_tools`, `watcher_in` and `assemble`'s catalogue in session_for.py, with
-- tools/delegate/delegate_tools.py, delegating.py and no_delegate_to.py.
use ancalagon.Base.{
  String, joined, same_text, Bool, if◌then◌else◌, List, [], ◌∷◌, ◌++◌, map, select, Result,
  map_result,
}
use ancalagon.Session.Tools.{ToolCategory, BoundTool}
use ancalagon.Assembly.ToolClass.{ToolClass, Bindings, bound_for}
use ancalagon.Assembly.FileTools
use ancalagon.Assembly.TaskTools

-- What the assembly reads of a role that the configuration names; its run is a reference to a
-- function, as text.
pub record RoleEntry : Type 0 where
  pub name : String
  pub behaviour : String
  pub run : String

unfoldable pub delegate_name : String → String
delegate_name role_name = joined "delegate_" role_name

unfoldable pub delegate_description : RoleEntry → String
delegate_description role = joined "Queue a " (
    joined role.name (
      joined " task. Returns its task id immediately without waiting. That agent is told: " (
        joined role.behaviour
          " Reusing a task_id after that task has finished retries it, and the new agent inherits the previous one's transcript. Use a new task_id for a clean start.")))

-- `DelegateTo(...)` and, with no bus, `NoDelegateTo(...)`.
unfoldable pub delegate_to : RoleEntry → ToolClass
unfolding delegate_name delegate_description
delegate_to role = record {
  source = "DelegateTo";
  name = delegate_name role.name;
  description = delegate_description role;
  category = ToolCategory.delegate;
  cost = 1;
}

unfoldable pub no_delegate_to : RoleEntry → ToolClass
unfolding delegate_to
no_delegate_to role = record (delegate_to role) { source = "NoDelegateTo" }

-- `_delegate`.
unfoldable pub delegate : Bool → RoleEntry → ToolClass
unfolding delegate_to no_delegate_to
delegate has_bus role = if has_bus then delegate_to role else no_delegate_to role

-- `delegate_tools`, before they are bound.
unfoldable pub delegate_tools : Bool → List RoleEntry → List ToolClass
unfolding delegate
delegate_tools has_bus roles = map (delegate has_bus) roles

-- `_idle`.
unfoldable pub idle_class : Bool → ToolClass
idle_class has_bus = if has_bus then TaskTools.idle else TaskTools.no_idle

-- `_watch`.
unfoldable pub watch_class : Bool → ToolClass
watch_class has_bus = if has_bus then TaskTools.watch_file else TaskTools.no_watch_file

-- What the descriptions of the submitting tools say, which names the fields of a class.
pub record Answers : Type 0 where
  pub answer_description : String
  pub answer_file_description : String

-- `SubmitAnswer(output_class)`.
abbrev pub submit_answer : Answers → ToolClass
submit_answer answers = record {
  source = "SubmitAnswer";
  name = "submit_answer";
  description = answers.answer_description;
  category = ToolCategory.submit;
  cost = 0;
}

-- `SubmitAnswerAsFile(answer_file_class)`.
abbrev pub submit_answer_as_file : Answers → ToolClass
submit_answer_as_file answers = record {
  source = "SubmitAnswerAsFile";
  name = "submit_answer_as_file";
  description = answers.answer_file_description;
  category = ToolCategory.submit;
  cost = 0;
}

-- The tools of every agent, before its delegate tools.
abbrev pub working_classes : List ToolClass
working_classes =
    FileTools.read_file ∷ FileTools.write_file ∷ FileTools.append_file ∷ FileTools.edit_file
    ∷ FileTools.delete_file ∷ FileTools.list_dir ∷ FileTools.diff_regions ∷ FileTools.cite
    ∷ FileTools.ripgrep ∷ FileTools.ast_grep ∷ FileTools.transform_file ∷ FileTools.find_symbol
    ∷ FileTools.code_stats ∷ FileTools.file_type ∷ FileTools.extract_strings
    ∷ FileTools.convert_document ∷ FileTools.query_json ∷ FileTools.edit_json
    ∷ TaskTools.git_history ∷ TaskTools.tree_sitter ∷ TaskTools.ast_query ∷ TaskTools.shell
    ∷ TaskTools.web_search ∷ TaskTools.fetch_url ∷ []

-- And after them.
abbrev pub task_classes : Bool → Answers → List ToolClass
task_classes has_bus answers =
    TaskTools.check_task
    ∷ TaskTools.collect_task
    ∷ TaskTools.answer_task
    ∷ TaskTools.need_input
    ∷ idle_class has_bus
    ∷ submit_answer answers
    ∷ submit_answer_as_file answers
    ∷ []

-- `available_tools`, before they are bound.
unfoldable pub available_classes : Bool → Answers → List RoleEntry → List ToolClass
unfolding delegate_tools idle_class
available_classes has_bus answers roles =
    working_classes ++ delegate_tools has_bus roles ++ task_classes has_bus answers

module _ {W : Type 0} where
  unfoldable pub available_tools :
      Bindings W → Bool → Answers → List RoleEntry → Result (List (BoundTool W))
  unfolding available_classes bound_for
  available_tools b has_bus answers roles =
      map_result (bound_for b) (available_classes has_bus answers roles)

abbrev pub watch_for : String
watch_for = "ancalagon.watch.watch_for.watch_for"

unfoldable pub watcher_in : List RoleEntry → List RoleEntry
watcher_in roles = select (λ role. same_text role.run watch_for) roles
