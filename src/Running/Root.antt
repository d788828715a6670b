-- ===== src/Running/Root.antt =====
-- The root task of run.py: `goal_of`, `root_spec` and `_from_goal`.
use ancalagon.Base.{
  String, same_text, FilePath, Bool, if◌then◌else◌, List, [], ◌∷◌, Option, none, some, Result,
  raise, require, value_error, validation_error,
}
use ancalagon.Base.Exec.{Exec, pure, lift, ◌>>=◌}
use ancalagon.Tools.Workspace.{FileSystem}

pub record RunSettings : Type 0 where
  pub goal_file : String
  pub input_file : String
  pub role : String

-- A dict of roles by name.
unfoldable pub role_named : {Role : Type 0} → String → List (String × Role) → Option Role
role_named name [] = none
role_named name ((key, role) ∷ roles) =
    if same_text key name then some role else role_named name roles

-- What the values of a run are, and what pydantic and Python do with them: a path's parts, whether a
-- text is all white space, the import of a role's input class, and the validation of an input from
-- JSON or from the goal alone.
pub record Values : Type 1 where
  pub Role : Type 0
  pub Class : Type 0
  pub Value : Type 0
  pub path_of : String → FilePath
  pub is_blank : String → Bool
  pub input_class : Role → Result Class
  pub from_json : Class → String → Result Value
  pub from_text : Class → String → Result Value

-- `AgentSpec` of the root task.
pub record AgentSpec (v : Values) : Type 0 where
  pub task_id : String
  pub role : v.Role
  pub goal : String
  pub input : v.Value

-- `except pydantic.ValidationError as error: raise ValueError`.
unfoldable pub as_value_error : {A : Type 0} → Result A → Result A
as_value_error (raise validation_error) = raise value_error
as_value_error r = r

module _ {W : Type 0} (v : Values) (fs : FileSystem W) where
  -- `_text_of`.
  unfoldable pub text_of : FilePath → Exec W String
  text_of path = do
    there ← fs.is_file path
    if there then fs.read_text path else lift (raise value_error)

  -- `goal_of`.
  unfoldable pub goal_of : RunSettings → Exec W String
  unfolding text_of
  goal_of settings = if same_text settings.goal_file "" then lift (raise value_error) else (do
    goal ← text_of (v.path_of settings.goal_file)
    if v.is_blank goal then lift (raise value_error) else pure goal)

  -- `_from_goal`.
  unfoldable pub from_goal : v.Class → String → Result v.Value
  unfolding as_value_error
  from_goal class goal = as_value_error (v.from_text class goal)

  -- The input that the root task is given.
  unfoldable pub input_given : RunSettings → v.Class → String → Exec W v.Value
  unfolding text_of from_goal
  input_given settings class goal =
      if same_text settings.input_file ""
      then lift (from_goal class goal)
      else (do content ← text_of (v.path_of settings.input_file); lift (v.from_json class content))

  -- `root_spec`.
  unfoldable pub root_spec : RunSettings → List (String × v.Role) → Exec W (AgentSpec v)
  unfolding goal_of input_given role_named
  root_spec settings roles = do
    role ← lift (require value_error (role_named settings.role roles))
    goal ← goal_of settings
    class ← lift (v.input_class role)
    given ← input_given settings class goal
    pure (record { task_id = "root"; role = role; goal = goal; input = given })
