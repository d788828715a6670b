-- ===== src/Session/Tools.antt =====
-- contracts/tool_spec.py, tool_schema.py, tool_category.py, tool_result.py and the payloads;
-- tools/registry/bound_tool.py, registry.py, tool_use.py, unknown_tool.py and resolved.py.
use ancalagon.Base.{
  ℕ, ◌==◌, ℤ, String, same_text, Bool, true, false, ◌&&◌, if◌then◌else◌, Option, none, some, List,
  [], ◌∷◌, map, Result, key_error, require,
}
use ancalagon.Contracts.Messages.{ToolUseFromModel}

pub data ToolCategory : Type 0 where
  files search parse artifacts cite compare history survey : ToolCategory
  shell web watch tasks delegate submit lifecycle : ToolCategory

-- The order of the members, for their comparison.
abbrev category_index : ToolCategory → ℕ
category_index ToolCategory.files = 0
category_index ToolCategory.search = 1
category_index ToolCategory.parse = 2
category_index ToolCategory.artifacts = 3
category_index ToolCategory.cite = 4
category_index ToolCategory.compare = 5
category_index ToolCategory.history = 6
category_index ToolCategory.survey = 7
category_index ToolCategory.shell = 8
category_index ToolCategory.web = 9
category_index ToolCategory.watch = 10
category_index ToolCategory.tasks = 11
category_index ToolCategory.delegate = 12
category_index ToolCategory.submit = 13
category_index ToolCategory.lifecycle = 14

abbrev pub is_submit : ToolCategory → Bool
is_submit ToolCategory.submit = true
is_submit _ = false

pub record ToolSchema : Type 0 where
  pub name : String
  pub description : String
  pub parameters : String

-- The class a tool was built from is known by its name.
pub record ToolSpec : Type 0 where
  pub source : String
  pub category : ToolCategory
  pub cost : ℕ
  pub declaration : ToolSchema

-- The equality of the dataclass.
unfoldable pub same_spec : ToolSpec → ToolSpec → Bool
same_spec s t =
    same_text s.source t.source
    && category_index s.category == category_index t.category
    && s.cost == t.cost
    && same_text s.declaration.name t.declaration.name
    && same_text s.declaration.description t.declaration.description
    && same_text s.declaration.parameters t.declaration.parameters

-- What a tool's result carries. An answer is the JSON text of the value that was validated.
pub data Payload : Type 0 where
  asked : (question : String) → Payload
  idled : (waiting_for : List ℕ) (seen_through : ℤ) → Payload
  submitted : (answer : String) → Payload
  other : (content : String) → Payload

pub record ToolResult : Type 0 where
  pub is_ok : Bool
  pub summary : Payload
  pub path : String
  pub byte_count : ℕ
  pub truncated : Bool
  pub error : String

-- A tool acts on the world `W` and may raise.
pub record BoundTool (W : Type 0) : Type 0 where
  pub spec : ToolSpec
  pub invoke : String → W → Result ToolResult × W

pub record ToolUse (W : Type 0) : Type 0 where
  pub id : String
  pub tool : BoundTool W
  pub arguments : String

-- `ToolUse | UnknownTool`.
pub data Call (W : Type 0) : Type 0 where
  known : ToolUse W → Call W
  unknown_tool : (id reason : String) → Call W

module _ {W : Type 0} where
  abbrev pub name_of_tool : BoundTool W → String
  name_of_tool t = t.spec.declaration.name

  -- `{t.spec.declaration.name: t for t in tools}`, in the order of the first tool of each name.
  unfoldable pub put_tool : BoundTool W → List (BoundTool W) → List (BoundTool W)
  put_tool t [] = t ∷ []
  put_tool t (u ∷ tools) =
      let rest = put_tool t tools in
      if same_text (name_of_tool u) (name_of_tool t) then t ∷ tools else u ∷ rest

  unfoldable pub registry_from : List (BoundTool W) → List (BoundTool W) → List (BoundTool W)
  unfolding put_tool
  registry_from held [] = held
  registry_from held (t ∷ tools) = registry_from (put_tool t held) tools

  -- `Registry`: its tools, as `bound()` lists them.
  unfoldable pub registry_of : List (BoundTool W) → List (BoundTool W)
  unfolding registry_from
  registry_of tools = registry_from [] tools

  unfoldable pub tool_named : String → List (BoundTool W) → Option (BoundTool W)
  tool_named name [] = none
  tool_named name (t ∷ tools) =
      if same_text (name_of_tool t) name then some t else tool_named name tools

  -- `Registry.get`.
  unfoldable pub get_tool : String → List (BoundTool W) → Result (BoundTool W)
  unfolding tool_named
  get_tool name tools = require key_error (tool_named name tools)

  call_of : ToolUseFromModel → Option (BoundTool W) → Call W
  call_of u (some t) = known (record { id = u.id; tool = t; arguments = u.arguments })
  call_of u none = unknown_tool u.id u.name

  -- `resolved`: what an unknown call is answered is formatted from its name.
  unfoldable pub resolved : List ToolUseFromModel → List (BoundTool W) → List (Call W)
  unfolding call_of tool_named
  resolved uses tools = map (λ (u : ToolUseFromModel). call_of u (tool_named u.name tools)) uses
