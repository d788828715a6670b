-- ===== src/Assembly/Registering.antt =====
-- The registry that is made from some tools holds each of their names and nothing but them, and the
-- names that are asked for are there or one is not.
use ancalagon.Base.{
  String, same_text, same_text_iff, Bool, true, false, not, if-true, if-false, some, none, List, [],
  ◌∷◌, map, select, any, All, ◌≡◌, inl, inr, refl, sym, subst, ◌∙◌, Bool-cases, arith,
}
use ancalagon.Session.Tools.{BoundTool, put_tool, registry_from, tool_named, name_of_tool}
use ancalagon.Assembly.Permitting.{holds_text}

module _ {W : Type 0} where
  put_tool-All :
      (P : BoundTool W → Type 0) (t : BoundTool W) (held : List (BoundTool W))
      → P t
      → All P held
      → All P (put_tool t held)
  unfolding put_tool
  put_tool-All P t [] p h = (p, tt)
  put_tool-All P t (u ∷ held) p h =
      elim (Bool-cases (same_text (name_of_tool u) (name_of_tool t))) [
        | inl same ↦ rw same (p, h.1)
        | inr other ↦ rw other (h.0, put_tool-All P t held p h.1)
      ]

  pub registry_from-All :
      (P : BoundTool W → Type 0) (held tools : List (BoundTool W))
      → All P held
      → All P tools
      → All P (registry_from held tools)
  unfolding registry_from
  registry_from-All P held [] h hs = h
  registry_from-All P held (t ∷ tools) h hs =
      registry_from-All P (put_tool t held) tools (put_tool-All P t held hs.0 h) hs.1

  -- A registry holds a tool of that name.
  abbrev pub Has : String → List (BoundTool W) → Type 0
  Has name held = (t : BoundTool W) × (tool_named name held ≡ some t)

  put_tool-Has :
      (t : BoundTool W) (held : List (BoundTool W)) → Has (name_of_tool t) (put_tool t held)
  unfolding put_tool tool_named
  put_tool-Has t [] = (t, rw ((same_text_iff (name_of_tool t) (name_of_tool t)).1 refl) refl)
  put_tool-Has t (u ∷ held) = elim (Bool-cases (same_text (name_of_tool u) (name_of_tool t))) [
    | inl same ↦ (t, rw same (rw ((same_text_iff (name_of_tool t) (name_of_tool t)).1 refl) refl))
    | inr other ↦ let (v, e) = put_tool-Has t held in (v, rw other (rw other e))
  ]

  put_tool-keeps :
      (name : String) (t : BoundTool W) (held : List (BoundTool W))
      → Has name held
      → Has name (put_tool t held)
  unfolding put_tool tool_named
  put_tool-keeps name t [] (v, e) = absurd (none-some e)
    where
      none-some : {A : Type 0} {a : A} → none ≡ some a → ⊥
      none-some h = cc
  put_tool-keeps name t (u ∷ held) (v, e) =
      elim (Bool-cases (same_text (name_of_tool u) (name_of_tool t))) [
        | inl same ↦
            let names = (same_text_iff (name_of_tool u) (name_of_tool t)).0 same in
            rw same (elim (Bool-cases (same_text (name_of_tool u) name)) [
              | inl this ↦ (t, if-true _ _ (subst (λ n. same_text n name ≡ true) names this))
              | inr that ↦ (
                v,
                if-false _ _ (subst (λ n. same_text n name ≡ false) names that)
                    ∙ (sym (if-false _ _ that) ∙ e),
              )
            ])
        | inr other ↦ rw other (elim (Bool-cases (same_text (name_of_tool u) name)) [
          | inl this ↦ (u, rw this refl)
          | inr that ↦ let (z, f) = put_tool-keeps name t held (v, rw that at e) in (z, rw that f)
        ])
      ]

  registry_from-Has :
      (name : String) (held tools : List (BoundTool W))
      → Has name held
      → Has name (registry_from held tools)
  unfolding registry_from
  registry_from-Has name held [] h = h
  registry_from-Has name held (t ∷ tools) h =
      registry_from-Has name (put_tool t held) tools (put_tool-keeps name t held h)

  -- Every tool's name is in the registry that is made from them.
  pub registry_from-named :
      (held tools : List (BoundTool W))
      → All (λ t. Has (name_of_tool t) (registry_from held tools)) tools
  unfolding registry_from
  registry_from-named held [] = tt
  registry_from-named held (t ∷ tools) = (
    registry_from-Has (name_of_tool t) (put_tool t held) tools (put_tool-Has t held),
    registry_from-named (put_tool t held) tools,
  )

  pub select-All :
      {P : BoundTool W → Type 0} (test : BoundTool W → Bool)
      → ((t : BoundTool W) → test t ≡ true → P t)
      → (ts : List (BoundTool W)) → All P (select test ts)
  select-All test h [] = tt
  select-All test h (t ∷ ts) = elim (Bool-cases (test t)) [
    | inl kept ↦ rw kept (h t kept, select-All test h ts)
    | inr gone ↦ rw gone (select-All test h ts)
  ]

  -- What holds of the selected holds of those that pass.
  pub All-of_select :
      (P : BoundTool W → Type 0) (test : BoundTool W → Bool) (ts : List (BoundTool W))
      → All P (select test ts)
      → All (λ t. test t ≡ true → P t) ts
  All-of_select P test [] h = tt
  All-of_select P test (t ∷ ts) h = elim (Bool-cases (test t)) [
    | inl kept ↦ let (head, tail) = rw kept at h in ((λ _. head), All-of_select P test ts tail)
    | inr gone ↦ ((λ yes'. absurd (ground arith)), All-of_select P test ts (rw gone at h))
  ]

  -- Where no name is unknown, each is there; where some is, there is one.
  pub unknown-none :
      (names : List String) (available : List (BoundTool W))
      → any (λ name. not (holds_text name (map name_of_tool available))) names ≡ false
      → All (λ name. holds_text name (map name_of_tool available) ≡ true) names
  unknown-none [] available h = tt
  unknown-none (n ∷ names) available h = (ground arith, unknown-none names available (ground arith))

  pub unknown-some :
      (names : List String) (available : List (BoundTool W))
      → any (λ name. not (holds_text name (map name_of_tool available))) names ≡ true
      → (name : String) × (holds_text name names ≡ true)
        × (holds_text name (map name_of_tool available) ≡ false)
  unknown-some [] available h = absurd (ground arith)
  unknown-some (n ∷ names) available h =
      elim (Bool-cases (holds_text n (map name_of_tool available))) [
        | inl there ↦
            let (m, asked, gone) = unknown-some names available (ground arith) in
            (m, ground arith, gone)
        | inr gone ↦ (n, rw ((same_text_iff n n).1 refl) refl, gone)
      ]
