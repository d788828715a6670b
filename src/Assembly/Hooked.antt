-- ===== src/Assembly/Hooked.antt =====
-- When the hooks that a role names for its tools can be resolved, in session_for.py's catalogue.
use ancalagon.Base.{
  String, Bool, List, [], ◌∷◌, take, sym, >>=-eq-raise, >>=-eq-ok, raise-ok, select, All, Exception,
  ok, raise, map_result, ◌≡◌, inl, inr,
}
use ancalagon.Session.Tools.{BoundTool}
use ancalagon.Assembly.ToolClass.{ToolClass, Bindings, bound_for}
use ancalagon.Assembly.Available.{
  Answers, available_tools, available_classes, delegate_name, watcher_in, watch_class,
}
use ancalagon.Assembly.Permitting.{holds_text, Config, catalogue_for}

module _ {W : Type 0} where
  -- A tool that could not be bound with the hooks that the role names for it.
  abbrev pub Unbound : Bindings W → Exception → Type 0
  Unbound b e = (c : ToolClass) × (b.resolve_hooks c ≡ raise e)

  map_result-Unbound :
      {A : Type 0} (b : Bindings W) (class : A → ToolClass) (xs : List A) (e : Exception)
      → map_result (λ x. bound_for b (class x)) xs ≡ raise e
      → Unbound b e
  unfolding bound_for
  map_result-Unbound b class [] e h = cc
  map_result-Unbound b class (x ∷ xs) e h = elim (>>=-eq-raise (bound_for b (class x)) _ h) [
    | inl first ↦ elim (>>=-eq-raise (b.resolve_hooks (class x)) _ first) [
      | inl r ↦ (class x, r)
      | inr (_, _, bound) ↦ raise-ok (sym bound)
    ]
    | inr (t, _, k) ↦ elim (>>=-eq-raise (map_result (λ x. bound_for b (class x)) xs) _ k) [
      | inl later ↦ map_result-Unbound b class xs e later
      | inr (ts, _, bound) ↦ raise-ok (sym bound)
    ]
  ]

  pub catalogue_for-Unbound :
      (b : Bindings W) (has_bus : Bool) (answers : Answers) (config : Config) (tools : List String)
      (e : Exception)
      → catalogue_for b has_bus answers config tools ≡ raise e
      → Unbound b e
  unfolding catalogue_for available_tools
  catalogue_for-Unbound b has_bus answers config tools e h =
      let roles = select (λ role. holds_text (delegate_name role.name) tools) config.roles in
      let watchers = take 1 (watcher_in config.roles) in
      elim (>>=-eq-raise (available_tools b has_bus answers roles) _ h) [
        | inl own ↦ map_result-Unbound b (λ c. c) (available_classes has_bus answers roles) e own
        | inr (own, _, k) ↦
            elim (>>=-eq-raise (map_result (λ watcher. bound_for b (watch_class has_bus)) watchers)
              _ k) [
                | inl watching ↦
                    map_result-Unbound b (λ watcher. watch_class has_bus) watchers e watching
                | inr (watching, _, bound) ↦ raise-ok (sym bound)
              ]
      ]

  -- Every hook that the role names for a tool of its own catalogue is resolved.
  abbrev pub Hooked : Bindings W → Bool → Answers → Config → List String → Type 0
  Hooked b has_bus answers config tools =
      All (λ c. b.resolve_hooks c ≡ ok tt)
        (available_classes has_bus answers
          (select (λ role. holds_text (delegate_name role.name) tools) config.roles))

  map_result-Hooked :
      (b : Bindings W) (cs : List ToolClass) (ts : List (BoundTool W))
      → map_result (bound_for b) cs ≡ ok ts
      → All (λ c. b.resolve_hooks c ≡ ok tt) cs
  unfolding bound_for
  map_result-Hooked b [] ts h = tt
  map_result-Hooked b (c ∷ cs) ts h =
      let (t, first, k) = >>=-eq-ok (bound_for b c) _ h in
      let (rest, later, _) = >>=-eq-ok (map_result (bound_for b) cs) _ k in
      let (_, hooks, _) = >>=-eq-ok (b.resolve_hooks c) _ first in
      (hooks, map_result-Hooked b cs rest later)

  pub catalogue_for-Hooked :
      (b : Bindings W) (has_bus : Bool) (answers : Answers) (config : Config) (tools : List String)
      (available : List (BoundTool W))
      → catalogue_for b has_bus answers config tools ≡ ok available
      → Hooked b has_bus answers config tools
  unfolding catalogue_for available_tools
  catalogue_for-Hooked b has_bus answers config tools available h =
      let roles = select (λ role. holds_text (delegate_name role.name) tools) config.roles in
      let (own, first, _) = >>=-eq-ok (available_tools b has_bus answers roles) _ h in
      map_result-Hooked b (available_classes has_bus answers roles) own first
