-- ===== src/Assembly/ToolClass.antt =====
-- What the class of a tool declares, and `bind_tool` of tools/registry/bind_tool.py.
use ancalagon.Base.{ℕ, String, Result, ok, ◌>>=◌}
use ancalagon.Session.Tools.{ToolCategory, ToolSpec, ToolResult, BoundTool}

pub record ToolClass : Type 0 where
  pub source : String
  pub name : String
  pub description : String
  pub category : ToolCategory
  pub cost : ℕ

-- What a bound tool does with its arguments, and the schema of the arguments that its class takes.
-- Both come from the class and from the hooks that the role names for it; resolving these imports
-- functions and inspects their signatures, and may raise.
pub record Bindings (W : Type 0) : Type 0 where
  pub resolve_hooks : ToolClass → Result (Unit {0})
  pub parameters : ToolClass → String
  pub invoke : ToolClass → String → W → Result ToolResult × W

module _ {W : Type 0} where
  abbrev pub spec_of : Bindings W → ToolClass → ToolSpec
  spec_of b c = record {
    source = c.source;
    category = c.category;
    cost = c.cost;
    declaration = record {
      name = c.name;
      description = c.description;
      parameters = b.parameters c;
    };
  }

  -- `bind_tool`.
  unfoldable pub bind_tool : Bindings W → ToolClass → BoundTool W
  bind_tool b c = record { spec = spec_of b c; invoke = b.invoke c }

  -- `bound_for`: `bind_tool` with the hooks that are resolved.
  unfoldable pub bound_for : Bindings W → ToolClass → Result (BoundTool W)
  unfolding bind_tool
  bound_for b c = do hooks ← b.resolve_hooks c; ok (bind_tool b c)
