-- ===== src/Session/Loop/Ending.antt =====
-- A session of an answering agent comes to an end.
use ancalagon.Base.{
  raise-ok, ℕ, zero, suc, ◌+◌, ◌<◌, ◌≡◌, refl, sym, ltb_ℤ, ap, ◌∙◌, subst, ℤ, pos, Bool, true, ◌&&◌,
  List, Option, none, some, Bool-cases, inl, inr, arith, ◌⊎◌, Result, ok, raise, if-true, if-false,
  Exception, String,
}
use ancalagon.Base.Exec.{pure, ◌>>=◌, continue}
use ancalagon.Session.Tools.{BoundTool}
use ancalagon.Session.Profiles.{Outcome, Turn, Delivery, is_final, bound, bound_in}
use ancalagon.Session.Answering.{Answering, collecting, forces, is_bound, is_nonempty}
use ancalagon.Session.Rounds.{Setting, Session, is_answering}
use ancalagon.Contracts.Budgets.{finite}
use ancalagon.Session.Loop.Keeping.{Leaves-deliver}
use ancalagon.Session.Loop.{
  turn_of, deliver, unless_halted, forced_in, pass, loop, run, converse, caught, collect_tries,
}
use ancalagon.Session.Loop.Progress.{
  Left, unpaid, Progress, TurnIs, turn_of-TurnIs, forced-Progress, free-Progress,
}

ok-some : {A : Type 0} {a : A} → ok (some a) ≡ ok none → ⊥
ok-some h = cc

positive_tries : (k : ℕ) → ltb_ℤ (pos 0) (pos k) ≡ true → 0 < k
positive_tries k h = ground arith

and-parts : (a b c : Bool) → (a && b && c) ≡ true → (b ≡ true) × (c ≡ true)
and-parts a b c h = ground arith

module _ {W : Type 0} (e : Setting W) (p : Answering) (t : BoundTool W) (u : List ℕ)
    (decides : (turn : Turn W) → e.profile.forces turn ≡ forces p turn)
    (holds : bound_in p.terminal e.registry ≡ some t) (answers : is_answering (some t) ≡ true)
    (same : (w : W) → e.uncollected w ≡ ok u) where
  -- What an answering agent is forced to at a final turn.
  forces-cases :
      (turn : Turn W) (k : ℕ)
      → turn.tries ≡ pos k
      → turn.offered ≡ e.registry
      → (f : BoundTool W) × (forces p turn ≡ some f) × ((0 < k) ⊎ (is_answering (some f) ≡ true))
  unfolding forces bound collecting
  forces-cases turn k ht ho = elim (Bool-cases (collecting p turn)) [
    | inl collects ↦ rw collects (collects-cases collects)
    | inr not_collecting ↦ rw (not_collecting, ho) (t, holds, inr answers)
  ]
    where
      tried : (o : Option (BoundTool W)) → is_bound p o ≡ true → (f : BoundTool W) × (o ≡ some f)
      tried none h = absurd (ground arith)
      tried (some f) h = (f, refl)

      collects-cases :
          collecting p turn ≡ true
          → (f : BoundTool W) × (bound_in p.collect turn.offered ≡ some f)
            × ((0 < k) ⊎ (is_answering (some f) ≡ true))
      collects-cases h =
          let (more, bound_to) =
            and-parts (is_nonempty turn.uncollected) (ltb_ℤ (pos 0) turn.tries)
              (is_bound p (bound turn p.collect)) h in
          let (f, e') = tried (bound turn p.collect) bound_to in
          (f, e', inl (positive_tries k (subst (λ n. ltb_ℤ (pos 0) n ≡ true) ht more)))

  decided-Progress :
      (turn : Turn W) (k q : ℕ) (s s' : Session W)
      → TurnIs e u (pos k) s (ok turn, s')
      → s.remaining.turns ≡ finite (pos q)
      → Progress e (q + k) (unless_halted e turn (pos k) (e.profile.halts turn) s')
  unfolding TurnIs unless_halted forced_in Progress
  decided-Progress turn k q s s' (hr, hu, ht, ho, hs) left = go (e.profile.halts turn)
    where
      left' : s'.remaining.turns ≡ finite (pos q)
      left' = ap (λ (z : Session W). z.remaining.turns) hs ∙ left

      final_turn :
          is_final turn ≡ true
          → (f : BoundTool W) × (forces p turn ≡ some f)
            × ((0 < k) ⊎ (is_answering (some f) ≡ true))
          → Progress e (q + k) (converse e turn (pos k) (e.profile.forces turn) s')
      final_turn final (f, ef, tried) =
          subst (λ forced. Progress e (q + k) (converse e turn (pos k) forced s'))
            (sym (decides turn ∙ ef)) (forced-Progress e u turn k q f s' same hu final tried left')

      go : (o : Option Outcome) → Progress e (q + k) (unless_halted e turn (pos k) o s')
      go (some o) = tt
      go none = elim (Bool-cases (is_final turn)) [
        | inl final ↦
            subst (λ f. Progress e (q + k) (converse e turn (pos k) f s'))
              (sym (if-true (e.profile.forces turn) none final))
              (final_turn final (forces-cases turn k ht ho))
        | inr more ↦
            subst (λ f. Progress e (q + k) (converse e turn (pos k) f s'))
              (sym (if-false (e.profile.forces turn) none more))
              (free-Progress e u turn k q s' same hu
                (hr ∙ ap (λ (z : Session W). z.remaining) (sym hs)) more left')
      ]

  pass-Progress :
      (k q : ℕ) (s : Session W)
      → s.remaining.turns ≡ finite (pos q)
      → Progress e (q + k) (pass e (pos k) s)
  unfolding pass Progress TurnIs Left
  pass-Progress k q s left =
      delivered (deliver e s)
        ((Leaves-deliver e (Left e (finite (pos q))) (unpaid e (finite (pos q)))).at s left)
    where
      turned :
          (s : Session W) (r : Result (Turn W) × Session W)
          → TurnIs e u (pos k) s r
          → s.remaining.turns ≡ finite (pos q)
          → Progress e
              (q + k)
              (continue (λ turn. unless_halted e turn (pos k) (e.profile.halts turn)) r)
      turned s (ok turn, s') h l = decided-Progress turn k q s s' h l
      turned s (raise x, s') h l = tt

      delivered :
          (r : Result Delivery × Session W)
          → r.1.remaining.turns ≡ finite (pos q)
          → Progress e (q + k) (
              continue
                (λ d. turn_of e d (pos k) >>= λ turn.
                  unless_halted e turn (pos k) (e.profile.halts turn))
                r)
      delivered (ok d, s') l =
          turned s' (turn_of e d (pos k) s') (turn_of-TurnIs e u d (pos k) s' same) l
      delivered (raise x, s') l = tt

  loop-ends :
      (fuel k q : ℕ) (s : Session W)
      → s.remaining.turns ≡ finite (pos q)
      → q + k < fuel
      → ((loop e fuel (pos k) s).0 ≡ ok none)
      → ⊥
  unfolding loop Progress
  loop-ends zero k q s left lt h = omega arith
  loop-ends (suc fuel) k q s left lt h =
      go (λ k' q' z. loop-ends fuel k' q' z) (pass e (pos k) s) (pass-Progress k q s left) h
    where
      go :
          ((k' q' : ℕ) (z : Session W)
            → z.remaining.turns ≡ finite (pos q')
            → q' + k' < fuel
            → ((loop e fuel (pos k') z).0 ≡ ok none)
            → ⊥)
          → (r : Result (Outcome ⊎ ℤ) × Session W) → Progress e (q + k) r
          → ((continue
                (λ step. elim step [ inl o ↦ pure (some o) | inr tries ↦ loop e fuel tries ])
                r).0
              ≡ ok none)
          → ⊥
      go rest (ok (inl o), z) g k' = ok-some k'
      go rest (ok (inr tries), z) (q', k', l, et, lt') h' =
          rest k' q' z l (omega (arith, lt, lt')) (subst (λ n. (loop e fuel n z).0 ≡ ok none) et h')
      go rest (raise x, z) g k' = raise-ok k'

-- A session of an answering agent ends: where its registry holds the terminal tool, its role gives a
-- finite number of turns, and nothing becomes collected or uncollected while it runs, it has an
-- outcome after at most three passes more than it has turns, whatever the model replies and whether
-- or not something raises.
pub run-ends :
    {W : Type 0} (e : Setting W) (p : Answering) (t : BoundTool W) (u : List ℕ)
    (trace said : Exception → String) (q : ℕ) (s : Session W)
    → ((turn : Turn W) → e.profile.forces turn ≡ forces p turn)
    → bound_in p.terminal e.registry ≡ some t
    → is_answering (some t) ≡ true
    → ((w : W) → e.uncollected w ≡ ok u)
    → s.remaining.turns ≡ finite (pos q)
    → (outcome : Outcome) × ((run e trace said (q + 3) s).0 ≡ some outcome)
unfolding run caught
run-ends {W = W} e p t u trace said q s decides holds answers same left =
    go (loop e (q + 3) collect_tries s)
      (loop-ends e p t u decides holds answers same (q + 3) 2 q s left (omega arith))
  where
    go :
        (r : Result (Option Outcome) × Session W)
        → ((r.0 ≡ ok none) → ⊥)
        → (outcome : Outcome) × ((caught e trace said r).0 ≡ some outcome)
    go (ok (some o), z) h = (o, refl)
    go (ok none, z) h = absurd (h refl)
    go (raise x, z) h = (_, refl)
