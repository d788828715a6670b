-- ===== src/Session/Answering/Offered.antt =====
-- What an agent that answers is offered: a tool to wait with, or to answer with, only when it may.
use ancalagon.Base.{
  ◌≡◌, refl, sym, Bool, true, false, not, ◌&&◌, ◌||◌, if◌then◌else◌, Option, none, some, List, [],
  ◌∷◌, select, All, Bool-cases, inl, inr, arith, subst, ◌∙◌,
}
use ancalagon.Session.Tools.{ToolSpec, BoundTool, same_spec}
use ancalagon.Session.Profiles.{Turn, is_final, bound, bound_in}
use ancalagon.Session.Answering.{
  Answering, is_nonempty, collecting, forces, is_withheld, offers, alone,
}

not-withheld :
    (o u i t : Bool)
    → not (not o && i || (o || u) && t) ≡ true
    → (i ≡ true → o ≡ true) × (t ≡ true → (o || u) ≡ false)
not-withheld o u i t h = ground arith

true-false : true ≡ false → ⊥
true-false h = ground arith

some-injective : {A : Type 0} {a b : A} → some a ≡ some b → a ≡ b
some-injective h = cc

none-some : {A : Type 0} {a : A} → none ≡ some a → ⊥
none-some h = cc

module _ {W : Type 0} where
  -- The one spec that a final turn may offer.
  abbrev pub final_spec : Answering → Turn W → ToolSpec
  final_spec p turn = if collecting p turn then p.collect else p.terminal

  -- A turn that is not final offers `idle` only while a child is outstanding, and the terminal tool
  -- only when none is and none is uncollected; a final turn offers nothing but the forced tool.
  abbrev pub MayOffer : Answering → Turn W → BoundTool W → Type 0
  MayOffer p turn t =
      (is_final turn ≡ false → same_spec t.spec p.idle ≡ true → is_nonempty turn.outstanding ≡ true)
      × (is_final turn ≡ false
          → same_spec t.spec p.terminal ≡ true
          → (is_nonempty turn.outstanding || is_nonempty turn.uncollected) ≡ false)
      × (is_final turn ≡ true → same_spec t.spec (final_spec p turn) ≡ true)

  All-select :
      {P : BoundTool W → Type 0} (test : BoundTool W → Bool)
      → ((t : BoundTool W) → test t ≡ true → P t)
      → (ts : List (BoundTool W)) → All P (select test ts)
  All-select test h [] = tt
  All-select test h (t ∷ ts) = elim (Bool-cases (test t)) [
    | inl kept ↦ rw kept (h t kept, All-select test h ts)
    | inr gone ↦ rw gone (All-select test h ts)
  ]

  bound_in-same_spec :
      (spec : ToolSpec) (ts : List (BoundTool W)) (t : BoundTool W)
      → bound_in spec ts ≡ some t
      → same_spec t.spec spec ≡ true
  unfolding bound_in
  bound_in-same_spec spec [] t h = absurd (cc)
  bound_in-same_spec spec (u ∷ ts) t h =
      go (bound_in spec ts) refl (λ v k. bound_in-same_spec spec ts v k) h
    where
      go :
          (o : Option (BoundTool W))
          → bound_in spec ts ≡ o
          → ((v : BoundTool W) → bound_in spec ts ≡ some v → same_spec v.spec spec ≡ true)
          → (elim o [ some w ↦ some w | none ↦ if same_spec u.spec spec then some u else none ])
            ≡ some t
          → same_spec t.spec spec ≡ true
      go (some w) e rest k = rest t (e ∙ k)
      go none e rest k = elim (Bool-cases (same_spec u.spec spec)) [
        | inl same ↦
            subst (λ (v : BoundTool W). same_spec v.spec spec ≡ true)
              (some-injective (rw same at k)) same
        | inr different ↦ absurd (none-some (rw different at k))
      ]

  forces-same_spec :
      (p : Answering) (turn : Turn W) (t : BoundTool W)
      → forces p turn ≡ some t
      → same_spec t.spec (final_spec p turn) ≡ true
  unfolding forces bound
  forces-same_spec p turn t h = elim (Bool-cases (collecting p turn)) [
    | inl collects ↦ rw collects (bound_in-same_spec p.collect turn.offered t (rw collects at h))
    | inr answers ↦ rw answers (bound_in-same_spec p.terminal turn.offered t (rw answers at h))
  ]

  kept-MayOffer :
      (p : Answering) (turn : Turn W) (t : BoundTool W)
      → is_final turn ≡ false
      → not (is_withheld p turn t.spec) ≡ true
      → MayOffer p turn t
  unfolding is_withheld
  kept-MayOffer p turn t more kept =
      let (waits, answers) =
        not-withheld (is_nonempty turn.outstanding) (is_nonempty turn.uncollected)
          (same_spec t.spec p.idle) (same_spec t.spec p.terminal) kept in
      (λ _. waits, λ _. answers, λ final. absurd (true-false (sym final ∙ more)))

  alone-MayOffer :
      (p : Answering) (turn : Turn W)
      → is_final turn ≡ true
      → All (MayOffer p turn) (alone p (forces p turn))
  unfolding alone
  alone-MayOffer p turn final = go (forces p turn) refl
    where
      go : (o : Option (BoundTool W)) → forces p turn ≡ o → All (MayOffer p turn) (alone p o)
      go none e = tt
      go (some t) e = (
        (
          λ more. absurd (true-false (sym final ∙ more)),
          λ more. absurd (true-false (sym final ∙ more)),
          λ _. forces-same_spec p turn t e,
        ),
        tt,
      )

-- Every tool that an answering agent is offered may be offered at that turn: before the final turn,
-- the tool to wait with only while a child is outstanding, and the terminal tool only when none is
-- outstanding and none is left to collect; at a final turn, only the tool that is forced, which is
-- the one that collects while there is something to collect and tries are left, and otherwise the
-- terminal one.
pub offers-MayOffer :
    {W : Type 0} (p : Answering) (turn : Turn W) → All (MayOffer p turn) (offers p turn)
unfolding offers
offers-MayOffer p turn = elim (Bool-cases (is_final turn)) [
  | inl final ↦ rw final (alone-MayOffer p turn final)
  | inr more ↦ rw more (
      All-select (λ t. not (is_withheld p turn t.spec)) (λ t. kept-MayOffer p turn t more)
        turn.offered)
]
