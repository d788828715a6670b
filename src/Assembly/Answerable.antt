-- ===== src/Assembly/Answerable.antt =====
-- The tools that profiles/answering.py supplies are among those that session_for.py makes available,
-- whatever the role, if its hooks can be resolved.
use ancalagon.Base.{
  String, same_text, Bool, true, false, if-false, Option, some, none, List, [], ◌∷◌, ◌++◌, map,
  select, take, Result, ok, ◌≡◌, refl, ap, sym, ◌∙◌, >>=-eq-ok, ok-injective, map_result,
  Bool-cases, inl, inr,
}
use ancalagon.Session.Tools.{ToolSpec, BoundTool}
use ancalagon.Session.Profiles.{spec_from, spec_for}
use ancalagon.Session.Answering.{answering_for}
use ancalagon.Assembly.ToolClass.{ToolClass, Bindings, bind_tool, bound_for, spec_of}
use ancalagon.Assembly.TaskTools
use ancalagon.Assembly.Available.{
  RoleEntry, Answers, available_classes, available_tools, watcher_in, watch_class, delegate_name,
  delegate, delegate_to, no_delegate_to, idle_class, working_classes, task_classes, delegate_tools,
  submit_answer, submit_answer_as_file,
}
use ancalagon.Assembly.Permitting.{
  holds_text, Config, answering_supplies, answering_tools, profile_tools, catalogue_for,
}

module _ {W : Type 0} (source : String) where
  spec_from-append_none :
      (xs ys : List (BoundTool W))
      → spec_from source ys ≡ none
      → spec_from source (xs ++ ys) ≡ spec_from source xs
  unfolding spec_from
  spec_from-append_none [] ys h = h
  spec_from-append_none (x ∷ xs) ys h = rw (spec_from-append_none xs ys h) refl

  spec_from-append_some :
      (b : Bindings W) (cs ds : List ToolClass) (u : ToolSpec)
      → spec_from source (map (bind_tool b) ds) ≡ some u
      → spec_from source (map (bind_tool b) (cs ++ ds)) ≡ some u
  unfolding spec_from
  spec_from-append_some b [] ds u h = h
  spec_from-append_some b (c ∷ cs) ds u h = rw (spec_from-append_some b cs ds u h) refl

module _ {W : Type 0} (b : Bindings W) (source : String) where
  spec_from-classes_none :
      (cs ds : List ToolClass)
      → spec_from source (map (bind_tool b) ds) ≡ none
      → spec_from source (map (bind_tool b) (cs ++ ds)) ≡ spec_from source (map (bind_tool b) cs)
  unfolding spec_from
  spec_from-classes_none [] ds h = h
  spec_from-classes_none (c ∷ cs) ds h = rw (spec_from-classes_none cs ds h) refl

module _ {W : Type 0} (available : List (BoundTool W)) (source : String)
    (sources : List String) where
  abbrev by : Option ToolSpec → Result ToolSpec
  by (some spec) = ok spec
  by none = spec_for available sources

  spec_for-some :
      (u : ToolSpec)
      → spec_from source available ≡ some u
      → spec_for available (source ∷ sources) ≡ ok u
  unfolding spec_for
  spec_for-some u h = ap by h

  spec_for-none :
      spec_from source available ≡ none
      → spec_for available (source ∷ sources) ≡ spec_for available sources
  unfolding spec_for
  spec_for-none h = ap by h

-- The tools of a role whose hooks can all be resolved.
module _ {W : Type 0} (b : Bindings W) (has_bus : Bool) (answers : Answers) where
  abbrev bound_classes : List RoleEntry → List (BoundTool W)
  bound_classes roles = map (bind_tool b) (available_classes has_bus answers roles)

  abbrev catalogue : Config → List String → List (BoundTool W)
  catalogue config tools =
      bound_classes (select (λ role. holds_text (delegate_name role.name) tools) config.roles)
      ++ map (λ watcher. bind_tool b (watch_class has_bus)) (take 1 (watcher_in config.roles))

  bound_for-ok : (c : ToolClass) (t : BoundTool W) → bound_for b c ≡ ok t → bind_tool b c ≡ t
  unfolding bound_for
  bound_for-ok c t h = let (_, _, e) = >>=-eq-ok (b.resolve_hooks c) _ h in ok-injective e

  map_result-bound_for :
      {A : Type 0} (class : A → ToolClass) (xs : List A) (ts : List (BoundTool W))
      → map_result (λ x. bound_for b (class x)) xs ≡ ok ts
      → map (λ x. bind_tool b (class x)) xs ≡ ts
  map_result-bound_for class [] ts h = ok-injective h
  map_result-bound_for class (x ∷ xs) ts h =
      let (t, first, k) = >>=-eq-ok (bound_for b (class x)) _ h in
      let (rest, later, e) = >>=-eq-ok (map_result (λ x. bound_for b (class x)) xs) _ k in
      ap (λ u. u ∷ map (λ x. bind_tool b (class x)) xs) (bound_for-ok (class x) t first)
      ∙ ap (λ l. t ∷ l) (map_result-bound_for class xs rest later)
      ∙ ok-injective e

  catalogue_for-ok :
      (config : Config) (tools : List String) (available : List (BoundTool W))
      → catalogue_for b has_bus answers config tools ≡ ok available
      → catalogue config tools ≡ available
  unfolding catalogue_for available_tools
  catalogue_for-ok config tools available h =
      let roles = select (λ role. holds_text (delegate_name role.name) tools) config.roles in
      let watchers = take 1 (watcher_in config.roles) in
      let (own, first, k) = >>=-eq-ok (available_tools b has_bus answers roles) _ h in
      let (watching, later, e) =
        >>=-eq-ok (map_result (λ watcher. bound_for b (watch_class has_bus)) watchers) _ k in
      ap (λ l. l ++ map (λ watcher. bind_tool b (watch_class has_bus)) watchers)
        (map_result-bound_for (λ c. c) (available_classes has_bus answers roles) own first)
      ∙ ap (λ l. own ++ l)
          (map_result-bound_for (λ watcher. watch_class has_bus) watchers watching later)
      ∙ ok-injective e

module _ {W : Type 0} (b : Bindings W) (has_bus : Bool) (answers : Answers) (config : Config)
    (tools : List String) where
  abbrev spawnable : List RoleEntry
  spawnable = select (λ role. holds_text (delegate_name role.name) tools) config.roles

  -- A class that is found at the end of those available, and is no watcher's, is found in the catalogue.
  found :
      (source : String) (u : ToolSpec)
      → ((l : List RoleEntry)
          → spec_from source (map (λ watcher. bind_tool b (watch_class has_bus)) (take 1 l)) ≡ none)
      → spec_from source (map (bind_tool b) (task_classes has_bus answers)) ≡ some u
      → spec_from source (catalogue b has_bus answers config tools) ≡ some u
  unfolding available_classes
  found source u unwatched h =
      spec_from-append_none source (bound_classes b has_bus answers spawnable)
        (map (λ watcher. bind_tool b (watch_class has_bus)) (take 1 (watcher_in config.roles)))
        (unwatched (watcher_in config.roles))
      ∙ spec_from-append_some source b (working_classes ++ delegate_tools has_bus spawnable)
          (task_classes has_bus answers) u h

  unwatched :
      (source : String)
      → same_text "WatchFile" source ≡ false
      → same_text "NoWatchFile" source ≡ false
      → (l : List RoleEntry)
      → spec_from source (map (λ watcher. bind_tool b (watch_class has_bus)) (take 1 l)) ≡ none
  unfolding spec_from bind_tool watch_class
  unwatched source w n [] = refl
  unwatched source w n (x ∷ l) = elim (Bool-cases has_bus) [
    | inl h ↦ rw h (if-false _ _ w)
    | inr h ↦ rw h (if-false _ _ n)
  ]

  found_terminal :
      spec_from "SubmitAnswer" (catalogue b has_bus answers config tools)
      ≡ some (spec_of b (submit_answer answers))
  unfolding spec_from bind_tool
  found_terminal =
      found "SubmitAnswer" (spec_of b (submit_answer answers)) (unwatched "SubmitAnswer" refl refl)
        refl

  -- What `AnsweringAsFile` answers with is found too.
  found_file_terminal :
      spec_from "SubmitAnswerAsFile" (catalogue b has_bus answers config tools)
      ≡ some (spec_of b (submit_answer_as_file answers))
  unfolding spec_from bind_tool
  found_file_terminal =
      found "SubmitAnswerAsFile" (spec_of b (submit_answer_as_file answers))
        (unwatched "SubmitAnswerAsFile" refl refl) refl

  found_collect :
      spec_from "CollectTask" (catalogue b has_bus answers config tools)
      ≡ some (spec_of b TaskTools.collect_task)
  unfolding spec_from bind_tool idle_class
  found_collect =
      found "CollectTask" (spec_of b TaskTools.collect_task) (unwatched "CollectTask" refl refl)
        (elim (Bool-cases has_bus) [ inl h ↦ rw h refl | inr h ↦ rw h refl ])

module _ {W : Type 0} (b : Bindings W) (answers : Answers) (config : Config)
    (tools : List String) where
  no_delegate_idles :
      (roles : List RoleEntry)
      → spec_from "Idle" (map (bind_tool b) (delegate_tools false roles)) ≡ none
  unfolding spec_from bind_tool delegate_tools delegate delegate_to no_delegate_to
  no_delegate_idles [] = refl
  no_delegate_idles (role ∷ roles) = rw (no_delegate_idles roles) refl

  -- With no bus, no tool available waits on one.
  none_idle : spec_from "Idle" (catalogue b false answers config tools) ≡ none
  unfolding available_classes spec_from bind_tool idle_class
  none_idle =
      let roles = spawnable b false answers config tools in
      spec_from-append_none "Idle" (bound_classes b false answers roles)
        (map (λ watcher. bind_tool b (watch_class false)) (take 1 (watcher_in config.roles)))
        (unwatched b false answers config tools "Idle" refl refl (watcher_in config.roles))
      ∙ spec_from-classes_none b "Idle" (working_classes ++ delegate_tools false roles)
          (task_classes false answers) refl
      ∙ spec_from-classes_none b "Idle" working_classes (delegate_tools false roles)
          (no_delegate_idles roles)

  found_idle :
      (has_bus : Bool)
      → spec_for (catalogue b has_bus answers config tools) ("Idle" ∷ "NoIdle" ∷ [])
        ≡ ok (spec_of b (idle_class has_bus))
  unfolding spec_from bind_tool idle_class
  found_idle true =
      spec_for-some (catalogue b true answers config tools) "Idle" ("NoIdle" ∷ [])
        (spec_of b (idle_class true))
        (found b true answers config tools "Idle" (spec_of b (idle_class true))
          (unwatched b true answers config tools "Idle" refl refl) refl)
  found_idle false =
      spec_for-none (catalogue b false answers config tools) "Idle" ("NoIdle" ∷ []) none_idle
      ∙ spec_for-some (catalogue b false answers config tools) "NoIdle" []
          (spec_of b (idle_class false))
          (found b false answers config tools "NoIdle" (spec_of b (idle_class false))
            (unwatched b false answers config tools "NoIdle" refl refl) refl)

  made :
      (has_bus : Bool) (terminal_tool : String) (terminal : ToolSpec)
      → spec_from terminal_tool (catalogue b has_bus answers config tools) ≡ some terminal
      → answering_tools terminal_tool (catalogue b has_bus answers config tools)
        ≡ ok (terminal ∷ spec_of b (idle_class has_bus) ∷ [])
  unfolding answering_tools profile_tools answering_supplies answering_for
  made has_bus terminal_tool terminal h =
      let available = catalogue b has_bus answers config tools in
      rw (spec_for-some available terminal_tool [] terminal h) (
        rw (found_idle has_bus) (
          rw
            (spec_for-some available "CollectTask" [] (spec_of b TaskTools.collect_task)
              (found_collect b has_bus answers config tools))
            refl))

-- Whatever tools a role names and whether or not there is a bus, where every hook that it names can be
-- resolved, so that its tools are available, the profiles Answering and AnsweringAsFile can be
-- constructed: what they supply is available, and they bring the tool that they answer with and the one
-- that waits.
pub answering_tools-catalogue_for :
    {W : Type 0} (b : Bindings W) (has_bus : Bool) (answers : Answers) (config : Config)
    (tools : List String) (available : List (BoundTool W))
    → catalogue_for b has_bus answers config tools ≡ ok available
    → (answering_tools "SubmitAnswer" available
        ≡ ok (spec_of b (submit_answer answers) ∷ spec_of b (idle_class has_bus) ∷ []))
      × (answering_tools "SubmitAnswerAsFile" available
          ≡ ok (spec_of b (submit_answer_as_file answers) ∷ spec_of b (idle_class has_bus) ∷ []))
answering_tools-catalogue_for b has_bus answers config tools available bound =
    let same = catalogue_for-ok b has_bus answers config tools available bound in
    (
      ap (answering_tools "SubmitAnswer") (sym same)
          ∙ made b answers config tools has_bus "SubmitAnswer" (spec_of b (submit_answer answers))
              (found_terminal b has_bus answers config tools),
      ap (answering_tools "SubmitAnswerAsFile") (sym same)
          ∙ made b answers config tools has_bus "SubmitAnswerAsFile"
              (spec_of b (submit_answer_as_file answers))
              (found_file_terminal b has_bus answers config tools),
    )
