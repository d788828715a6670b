-- ===== src/Assembly/Permitting.antt =====
-- `assemble` of session_for.py, with profiles/assembly.py and the tools that profiles/profile.py brings.
use ancalagon.Base.{
  ℕ, String, same_text, leb, Bool, true, false, not, ◌&&◌, if◌then◌else◌, List, [], ◌∷◌, ◌++◌, map,
  select, any, take, Result, ok, raise, value_error, ◌>>=◌, map_result,
}
use ancalagon.Session.Tools.{
  ToolCategory, ToolSpec, BoundTool, is_submit, same_spec, registry_of, name_of_tool,
}
use ancalagon.Session.Profiles.{spec_for}
use ancalagon.Session.Answering.{answering_for}
use ancalagon.Assembly.ToolClass.{Bindings, bound_for}
use ancalagon.Assembly.Available.{
  RoleEntry, Answers, available_tools, watcher_in, watch_class, delegate_name,
}

abbrev pub holds_text : String → List String → Bool
holds_text text texts = any (λ t. same_text t text) texts

abbrev pub is_delegate : ToolCategory → Bool
is_delegate ToolCategory.delegate = true
is_delegate _ = false

-- What the assembly reads of the configuration.
pub record Config : Type 0 where
  pub roles : List RoleEntry
  pub max_depth : ℕ

-- What resolving a profile and constructing it comes to: the specs of `profile.tools`.
abbrev pub Construct : Type 0 → Type 0
Construct W = List (BoundTool W) → Result (List ToolSpec)

-- `Answering.supplies`, of a class with that terminal tool.
unfoldable pub answering_supplies : String → List (List String)
answering_supplies terminal_tool = (terminal_tool ∷ []) ∷ ("Idle" ∷ "NoIdle" ∷ []) ∷ []

pub record Assembly (W : Type 0) : Type 0 where
  pub registry : List (BoundTool W)
  pub brought : List ToolSpec

-- `wanted`: what the role names, and what its profile brings.
abbrev pub wanted : List String → List ToolSpec → List String
wanted tools brought = tools ++ map (λ s. s.declaration.name) brought

module _ {W : Type 0} where
  -- `Profile.__init__`, of a class that supplies these.
  unfoldable pub profile_tools : List (List String) → Construct W
  unfolding spec_for
  profile_tools supplies available = map_result (spec_for available) supplies

  -- `Answering(catalogue)`, and `AnsweringAsFile`, which differs in its terminal tool.
  unfoldable pub answering_tools : String → Construct W
  unfolding profile_tools answering_supplies answering_for
  answering_tools terminal_tool available = do
    brought ← profile_tools (answering_supplies terminal_tool) available
    specs ← answering_for terminal_tool available
    ok brought

  -- The test of the comprehension of `permitted`.
  unfoldable pub is_permitted : List String → List ToolSpec → Bool → BoundTool W → Bool
  unfolding same_spec
  is_permitted tools brought depth_capped t =
      holds_text (name_of_tool t) (wanted tools brought)
      && not (depth_capped && is_delegate t.spec.category)
      && not (is_submit t.spec.category && not (any (λ s. same_spec s t.spec) brought))

  -- `unknown`: some wanted name that no tool available has.
  unfoldable pub has_unknown : List String → List ToolSpec → List (BoundTool W) → Bool
  has_unknown tools brought available =
      any (λ name. not (holds_text name (map name_of_tool available))) (wanted tools brought)

  unfoldable pub assemble_from :
      List String → Bool → Construct W → List (BoundTool W) → Result (Assembly W)
  unfolding has_unknown is_permitted registry_of
  assemble_from tools depth_capped construct available = do
    brought ← construct available
    if has_unknown tools brought available
        then raise value_error
        else ok (record {
          registry = registry_of (select (is_permitted tools brought depth_capped) available);
          brought = brought;
        })

  unfoldable pub catalogue_for :
      Bindings W → Bool → Answers → Config → List String → Result (List (BoundTool W))
  unfolding available_tools watcher_in watch_class bound_for delegate_name
  catalogue_for b has_bus answers config tools = do
    available ←
        available_tools b has_bus answers
          (select (λ role. holds_text (delegate_name role.name) tools) config.roles)
    watching ←
        map_result (λ watcher. bound_for b (watch_class has_bus)) (take 1 (watcher_in config.roles))
    ok (available ++ watching)

  -- `assemble`, of a role with these tools at that depth.
  unfoldable pub assemble :
      Bindings W → Bool → Answers → Config → List String → ℕ → Construct W → Result (Assembly W)
  unfolding assemble_from catalogue_for
  assemble b has_bus answers config tools depth construct = do
    available ← catalogue_for b has_bus answers config tools
    assemble_from tools (leb config.max_depth depth) construct available
