-- ===== src/Assembly/Permitted.antt =====
-- What `assemble` of session_for.py permits: known tools only, no delegation at the greatest depth,
-- and no way to answer but the profile's own.
use ancalagon.Base.{
  ℕ, ◌≤◌, String, Bool, true, false, List, map, any, All, Result, Exception, ok, raise, value_error,
  ◌≡◌, ◌⊎◌,
}
use ancalagon.Session.Tools.{ToolSpec, BoundTool, is_submit, same_spec, name_of_tool}
use ancalagon.Assembly.ToolClass.{Bindings}
use ancalagon.Assembly.Available.{Answers}
use ancalagon.Assembly.Permitting.{
  holds_text, is_delegate, Config, Construct, Assembly, wanted, catalogue_for,
}
use ancalagon.Assembly.Registering.{Has}
use ancalagon.Assembly.Hooked.{Unbound, Hooked}

module _ {W : Type 0} where
  -- The role or its profile asks for the tool; it does not delegate at the greatest depth; and it
  -- submits only if the profile brought it.
  abbrev pub Permits : Config → List String → ℕ → List ToolSpec → BoundTool W → Type 0
  Permits config tools depth brought t =
      (holds_text (name_of_tool t) (wanted tools brought) ≡ true)
      × (config.max_depth ≤ depth → is_delegate t.spec.category ≡ false)
      × (is_submit t.spec.category ≡ true → any (λ s. same_spec s t.spec) brought ≡ true)

  abbrev pub IsKnown : List (BoundTool W) → String → Type 0
  IsKnown available name = holds_text name (map name_of_tool available) ≡ true

  -- What an assembly holds of the tools available.
  pub record IsAssembled (config : Config) (tools : List String) (depth : ℕ)
      (available : List (BoundTool W)) (brought : List ToolSpec) (a : Assembly W) : Type 0 where
    pub brings : a.brought ≡ brought
    pub known : All (IsKnown available) (wanted tools brought)
    pub permits : All (Permits config tools depth brought) a.registry
    pub holds :
        All (λ t. Permits config tools depth brought t → Has (name_of_tool t) a.registry) available

  -- A name that is asked for and that no tool available has.
  abbrev pub Missing : List String → List ToolSpec → List (BoundTool W) → Type 0
  Missing tools brought available =
      (name : String) × (holds_text name (wanted tools brought) ≡ true)
      × (holds_text name (map name_of_tool available) ≡ false)

  -- What is made of the tools available and of what the profile brings.
  abbrev pub Made :
      Config → List String → ℕ → List (BoundTool W) → List ToolSpec → Result (Assembly W) → Type 0
  Made config tools depth available brought r =
      ((a : Assembly W) × (r ≡ ok a) × IsAssembled config tools depth available brought a)
      ⊎ ((r ≡ raise value_error) × Missing tools brought available)

  module _ (b : Bindings W) (has_bus : Bool) (answers : Answers) (config : Config)
      (tools : List String) (depth : ℕ) (construct : Construct W) where
    -- How the assembly ends: a hook is not resolved, the profile is not constructed, or both are.
    abbrev pub Assembles : Result (Assembly W) → Type 0
    Assembles r =
        ((e : Exception) × Unbound b e × (r ≡ raise e))
        ⊎ ((available : List (BoundTool W)) × (catalogue_for b has_bus answers config tools
              ≡ ok available)
            × Hooked b has_bus answers config tools
            × (((e : Exception) × (construct available ≡ raise e) × (r ≡ raise e))
                ⊎ ((brought : List ToolSpec) × (construct available ≡ ok brought)
                    × Made config tools depth available brought r)))
