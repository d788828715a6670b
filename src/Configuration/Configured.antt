-- ===== src/Configuration/Configured.antt =====
-- When config/from_document.py makes a configuration of a document, and which.
use ancalagon.Base.{
  String, same_text, any, ◌++◌, FilePath, true, false, List, [], ◌∷◌, Result, ok, map_result,
  if◌then◌else◌, if-true, ◌≡◌, ◌↔◌, ◌⊎◌, inl, inr, refl, sym, ap, ◌∙◌, subst, Bool-cases,
  ok-injective, >>=-eq-ok,
}
use ancalagon.Running.Root.{RunSettings}
use ancalagon.Configuration.Document.{DocumentFromConfig, Config}
use ancalagon.Configuration.Roles.{Python, named_role}
use ancalagon.Configuration.Loading.{
  on_path, root, optional_root, run_settings, config_with, config_stated, config_from,
}
use ancalagon.Configuration.Derived.{Configured, map_result-Configured, Configured-map_result}

-- Two lists of one length, related at each place.
abbrev pub Zip : {A B : Type 0} → (A → B → Type 0) → List A → List B → Type 0
Zip P [] [] = Unit
Zip P [] (y ∷ ys) = ⊥
Zip P (x ∷ xs) [] = ⊥
Zip P (x ∷ xs) (y ∷ ys) = P x y × Zip P xs ys

module _ {A B : Type 0} (f : A → Result B) (P : A → B → Type 0) where
  map_result-Zip :
      ((x : A) (y : B) → f x ≡ ok y → P x y)
      → (xs : List A) (ys : List B) → map_result f xs ≡ ok ys
      → Zip P xs ys
  map_result-Zip p [] [] h = tt
  map_result-Zip p [] (y ∷ ys) h = cc
  map_result-Zip p (x ∷ xs) ys h =
      let (y, first, k) = >>=-eq-ok (f x) _ h in
      let (later, rest, e) = >>=-eq-ok (map_result f xs) _ k in
      subst (Zip P (x ∷ xs)) (ok-injective e) (p x y first, map_result-Zip p xs later rest)

  Zip-map_result :
      ((x : A) (y : B) → P x y → f x ≡ ok y)
      → (xs : List A) (ys : List B) → Zip P xs ys
      → map_result f xs ≡ ok ys
  Zip-map_result p [] [] h = refl
  Zip-map_result p [] (y ∷ ys) h = absurd h
  Zip-map_result p (x ∷ xs) [] h = absurd h
  Zip-map_result p (x ∷ xs) (y ∷ ys) h = rw (p x y h.0) (rw (Zip-map_result p xs ys h.1) refl)

module _ (py : Python) (base : FilePath) where
  -- The path that a text of the document stands for: its user's home is expanded, it is taken from the
  -- base unless it is absolute, and it is resolved.
  pub record IsRoot (value : String) (path : FilePath) : Type 0 where
    pub given : FilePath
    pub expanded : py.expanduser (py.path_of value) ≡ ok given
    pub absolute : py.is_absolute given ≡ true → py.resolve given ≡ ok path
    pub relative : py.is_absolute given ≡ false → py.resolve (base ++ given) ≡ ok path

  -- An empty text stands for none.
  abbrev pub IsOptional : String → String → Type 0
  IsOptional value text =
      (same_text value "" ≡ true) × (text ≡ "")
      ⊎ (same_text value "" ≡ false)
        × ((path : FilePath) × IsRoot value path × (text ≡ py.str path))

  root-IsRoot :
      (value : String) (path : FilePath) → root py base value ≡ ok path → IsRoot value path
  unfolding root
  root-IsRoot value path h =
      let (given, expanded, k) = >>=-eq-ok (py.expanduser (py.path_of value)) _ h in
      record {
        given = given;
        expanded = expanded;
        absolute = λ a. rw a at k;
        relative = λ r. rw r at k;
      }

  IsRoot-root :
      (value : String) (path : FilePath) → IsRoot value path → root py base value ≡ ok path
  unfolding root
  IsRoot-root value path i = elim (Bool-cases (py.is_absolute i.given)) [
    | inl a ↦ rw i.expanded (rw a (i.absolute a))
    | inr r ↦ rw i.expanded (rw r (i.relative r))
  ]

  optional_root-IsOptional :
      (value text : String) → optional_root py base value ≡ ok text → IsOptional value text
  unfolding optional_root
  optional_root-IsOptional value text h = elim (Bool-cases (same_text value "")) [
    | inl empty ↦ inl (empty, sym (ok-injective (rw empty at h)))
    | inr some_text ↦
        let (path, found, k) = >>=-eq-ok (root py base value) _ (rw some_text at h) in
        inr (some_text, (path, root-IsRoot value path found, sym (ok-injective k)))
  ]

  IsOptional-optional_root :
      (value text : String) → IsOptional value text → optional_root py base value ≡ ok text
  unfolding optional_root
  IsOptional-optional_root value text (inl (empty, e)) = if-true _ _ empty ∙ ap ok (sym e)
  IsOptional-optional_root value text (inr (some_text, (path, i, e))) =
      rw some_text (rw (IsRoot-root value path i) (ap ok (sym e)))

  -- The configuration that a document states.
  pub record IsStated (raw : DocumentFromConfig) (c : Config) : Type 0 where
    pub home : IsRoot raw.workspace.home c.home
    pub write_roots : Zip IsRoot raw.workspace.write_roots c.write_roots
    pub read_roots : Zip IsRoot raw.workspace.read_roots c.read_roots
    pub roles : Configured py raw.roles c.roles
    pub goal_file : IsOptional raw.run.goal_file c.run.goal_file
    pub input_file : IsOptional raw.run.input_file c.run.input_file
    -- and the rest is as it is written
    pub rest : c ≡ record c {
      model = raw.model.name;
      custom_llm_provider = raw.model.custom_llm_provider;
      max_tokens = raw.model.max_tokens;
      num_retries = raw.model.num_retries;
      request_timeout_s = raw.model.request_timeout_s;
      allowed_domains = raw.model.allowed_domains;
      max_concurrent_agents = raw.limits.max_concurrent_agents;
      agent_timeout_s = raw.limits.agent_timeout_s;
      max_depth = raw.limits.max_depth;
      summary_chars = raw.limits.summary_chars;
      compact_above_tokens = raw.limits.compact_above_tokens;
      keep_recent_messages = raw.limits.keep_recent_messages;
      run = record {
        goal_file = c.run.goal_file;
        input_file = c.run.input_file;
        role = raw.run.role;
      };
      web_domains = raw.web.allowed_domains;
      import_paths = base ∷ [];
      log_socket = raw.log.socket;
      sandbox = raw.sandbox.strategy;
    }

  config_stated-IsStated :
      (raw : DocumentFromConfig) (c : Config) → config_stated py base raw ≡ ok c → IsStated raw c
  unfolding config_stated config_with run_settings
  config_stated-IsStated raw c h =
      let (home, at_home, h₁) = >>=-eq-ok (root py base raw.workspace.home) _ h in
      let (writes, at_writes, h₂) =
        >>=-eq-ok (map_result (root py base) raw.workspace.write_roots) _ h₁ in
      let (reads, at_reads, h₃) =
        >>=-eq-ok (map_result (root py base) raw.workspace.read_roots) _ h₂ in
      let (roles, named, h₄) = >>=-eq-ok (map_result (named_role py) raw.roles) _ h₃ in
      let (run, ran, h₅) = >>=-eq-ok (run_settings py base raw.run) _ h₄ in
      let (goal, at_goal, k₁) = >>=-eq-ok (optional_root py base raw.run.goal_file) _ ran in
      let (input, at_input, k₂) = >>=-eq-ok (optional_root py base raw.run.input_file) _ k₁ in
      subst (IsStated raw) (ok-injective h₅) (
        subst
          (λ (r : RunSettings). IsStated raw (config_with py base raw home writes reads roles r))
          (ok-injective k₂)
          (record {
            home = root-IsRoot _ _ at_home;
            write_roots = map_result-Zip (root py base) IsRoot root-IsRoot _ _ at_writes;
            read_roots = map_result-Zip (root py base) IsRoot root-IsRoot _ _ at_reads;
            roles = map_result-Configured py raw.roles roles named;
            goal_file = optional_root-IsOptional _ _ at_goal;
            input_file = optional_root-IsOptional _ _ at_input;
            rest = refl;
          }))

  IsStated-config_stated :
      (raw : DocumentFromConfig) (c : Config) → IsStated raw c → config_stated py base raw ≡ ok c
  unfolding config_stated config_with run_settings
  IsStated-config_stated raw c i = rw (IsRoot-root _ _ i.home) (
      rw (Zip-map_result (root py base) IsRoot IsRoot-root _ _ i.write_roots) (
        rw (Zip-map_result (root py base) IsRoot IsRoot-root _ _ i.read_roots) (
          rw (Configured-map_result py raw.roles c.roles i.roles) (
            rw (IsOptional-optional_root _ _ i.goal_file)
              (rw (IsOptional-optional_root _ _ i.input_file) (ap ok (sym i.rest)))))))

  -- `sys.path` once it has the base.
  abbrev pub with_base : List String → List String
  with_base s = if any (same_text (py.str base)) s then s else s ++ py.str base ∷ []

  on_path-with_base : (s : List String) → (on_path py (base ∷ []) s).1 ≡ with_base s
  unfolding on_path
  on_path-with_base s = elim (Bool-cases (any (same_text (py.str base)) s)) [
    | inl there ↦ rw there (append_nil s)
    | inr fresh ↦ rw fresh refl
  ]
    where
      append_nil : (l : List String) → l ++ [] ≡ l
      append_nil [] = refl
      append_nil (x ∷ l) = ap (λ k. x ∷ k) (append_nil l)

-- `config_from` returns a configuration just where it is the one that the document states: its home and
-- its roots, the read roots and the write roots apart, and where they are given the goal's file and the input's, are
-- the paths that the document's texts stand for, none of which raises when it is expanded or resolved;
-- every role has a name that a role may have and either names no run function, and is as it is
-- written, or has no contract of its own and has those of its function; and every other field is the
-- document's. `sys.path` then has the base at its end, unless it had it before.
pub config_from-Configured :
    (py : Python) (base : FilePath) (raw : DocumentFromConfig) (c : Config) (s s' : List String)
    → (config_from py base raw s ≡ (ok c, s'))
      ↔ (IsStated py base raw c × (s' ≡ with_base py base s))
unfolding config_from
config_from-Configured py base raw c s s' = (
  λ h. (
    config_stated-IsStated py base raw c (ap (λ (r : Result Config × List String). r.0) h),
    sym (ap (λ (r : Result Config × List String). r.1) h) ∙ on_path-with_base py base s,
  ),
  λ (i, e).
      rw (IsStated-config_stated py base raw c i) (rw (on_path-with_base py base s) (rw e refl)),
)
