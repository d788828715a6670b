-- ===== src/Session/Loop/Progress.antt =====
-- What a pass of a session uses: a turn, or, at the turns that are free, a try.
use ancalagon.Base.{
  ℕ, ◌+◌, ◌-◌, ◌<◌, ◌≡◌, refl, leb, ap, ◌∙◌, subst, ℤ, pos, ◌-ℤ◌, Bool, true, false, List, [], ◌∷◌,
  Option, none, some, Bool-cases, inl, inr, arith, ◌⊎◌, Result, ok, raise, if◌then◌else◌,
}
use ancalagon.Base.Exec.{Leaves-after, Leaves-bind, Returned, Returns, Returns-bind, Returns-then}
use ancalagon.Contracts.Messages.{MessageRole, ToolUseFromModel}
use ancalagon.Transcript.History.{uses_in}
use ancalagon.Session.Tools.{BoundTool, resolved}
use ancalagon.Session.Profiles.{Outcome, Reply, Turn, Delivery, is_final}
use ancalagon.Session.Rounds.{
  Setting, Session, record_message, run_tools, uncalled, evaluate_uses, evaluate_turn, after_tools,
  settled, first_of, is_answering,
}
use ancalagon.Contracts.Budgets.{
  Allowance, finite, Budget, Spend, permits, spend, spend_turn, is_exhausted, turns_exhausted,
  spend_tool_calls, plus_tool_calls,
}
use ancalagon.Session.Loop.Keeping.{
  Leaves-prepare_final_turn, Leaves-complete, Leaves-record_message, Leaves-evaluate_turn,
  Leaves-unless_settled,
}
use ancalagon.Session.Loop.{
  tries_after, turn_of, complete, begin_turn, converse, unless_settled, next_tries, is_collecting,
  same_numbers,
}

-- The tries that the next pass has, if there is one.
abbrev pub GoesOn : (ℤ → Type 0) → Outcome ⊎ ℤ → Type 0
GoesOn P (inl outcome) = Unit
GoesOn P (inr tries) = P tries

IsSettled : Option Outcome → Type 0
IsSettled none = ⊥
IsSettled (some outcome) = Unit

same_numbers_refl : (l : List ℕ) → same_numbers l l ≡ true
unfolding same_numbers
same_numbers_refl [] = refl
same_numbers_refl (a ∷ l) = ground (arith, same_numbers_refl l)

module _ {W : Type 0} (e : Setting W) where
  settles : (o rest : Option Outcome) → IsSettled rest → IsSettled (first_of e o rest)
  unfolding first_of IsSettled
  settles none rest h = h
  settles (some o) rest h = tt

  evaluate_uses-IsSettled :
      (uses : List ToolUseFromModel) (reply : Reply) (turn : Turn W) (t : BoundTool W)
      → is_final turn ≡ true
      → is_answering (some t) ≡ true
      → Returns IsSettled (evaluate_uses e uses reply turn (some t))
  unfolding evaluate_uses uncalled after_tools IsSettled
  evaluate_uses-IsSettled [] reply turn t final answers = record { at = λ s. rw final tt }
  evaluate_uses-IsSettled (u ∷ uses) reply turn t final answers =
      Returns-then IsSettled (run_tools e (some t) (resolved (u ∷ uses) e.registry)) _ (λ ran.
        record {
          at = λ s. settles (settled e ran (is_final turn) s.spent) _ (rw (final, answers) tt);
        })

  settled-ends :
      (turn : Turn W) (tries : ℤ) (forced : Option (BoundTool W)) (o : Option Outcome)
      → IsSettled o
      → Returns (GoesOn (λ _. ⊥)) (unless_settled e turn tries forced o)
  unfolding unless_settled IsSettled
  settled-ends turn tries forced none h = absurd h
  settled-ends turn tries forced (some o) h = record { at = λ s. tt }

  -- A final turn at which the answer is forced is the last.
  converse-answering :
      (turn : Turn W) (tries : ℤ) (t : BoundTool W)
      → is_final turn ≡ true
      → is_answering (some t) ≡ true
      → Returns (GoesOn (λ _. ⊥)) (converse e turn tries (some t))
  unfolding converse evaluate_turn unless_settled IsSettled
  converse-answering turn tries t final answers = Returns-then _ (begin_turn e turn) _ (λ _.
      Returns-then _ (complete e turn _ (some t)) _ (λ reply.
        Returns-then _ (record_message e MessageRole.assistant reply.blocks) _ (λ _.
          Returns-bind IsSettled _ (evaluate_uses e (uses_in reply.blocks) reply turn (some t)) _
            (evaluate_uses-IsSettled (uses_in reply.blocks) reply turn t final answers)
            (λ o h. settled-ends turn tries (some t) o h))))

  -- The tries that follow a turn on which nothing changed.
  next : ℤ → Option (BoundTool W) → ℤ
  next tries forced = if is_collecting forced then tries -ℤ pos 1 else tries

  next_tries-next :
      (u : List ℕ) (turn : Turn W) (tries : ℤ) (forced : Option (BoundTool W))
      → ((w : W) → e.uncollected w ≡ ok u)
      → turn.uncollected ≡ u
      → Returns (λ t. t ≡ next tries forced) (next_tries e turn tries forced)
  unfolding next_tries next tries_after
  next_tries-next u turn tries forced same hu = record {
    at = λ s. elim (Bool-cases (is_collecting forced)) [
      | inl collects ↦ rw (collects, same s.world, hu, same_numbers_refl u) refl
      | inr answers ↦ rw answers refl
    ];
  }

  unless_settled-next :
      (u : List ℕ) (turn : Turn W) (tries : ℤ) (forced : Option (BoundTool W)) (o : Option Outcome)
      → ((w : W) → e.uncollected w ≡ ok u)
      → turn.uncollected ≡ u
      → Returns (GoesOn (λ t. t ≡ next tries forced)) (unless_settled e turn tries forced o)
  unfolding unless_settled
  unless_settled-next u turn tries forced none same hu =
      Returns-bind (λ t. t ≡ next tries forced) _ (next_tries e turn tries forced) _
        (next_tries-next u turn tries forced same hu) (λ t h. record { at = λ s. h })
  unless_settled-next u turn tries forced (some o) same hu = record { at = λ s. tt }

  converse-next :
      (u : List ℕ) (turn : Turn W) (tries : ℤ) (forced : Option (BoundTool W))
      → ((w : W) → e.uncollected w ≡ ok u)
      → turn.uncollected ≡ u
      → Returns (GoesOn (λ t. t ≡ next tries forced)) (converse e turn tries forced)
  unfolding converse
  converse-next u turn tries forced same hu = Returns-then _ (begin_turn e turn) _ (λ _.
      Returns-then _ (complete e turn _ forced) _ (λ reply.
        Returns-then _ (record_message e MessageRole.assistant reply.blocks) _ (λ _.
          Returns-then _ (evaluate_turn e reply turn forced) _
            (λ o. unless_settled-next u turn tries forced o same hu))))

  -- The turns that are left, by which tool calls are not counted.
  unfoldable pub Left : Allowance → Budget → Spend → Type 0
  Left left budget used = budget.turns ≡ left

  pub unpaid :
      (left : Allowance) (b : Budget) (used : Spend) (cost : ℕ)
      → permits b.tool_calls cost ≡ true
      → Left left b used
      → Left left (spend_tool_calls b cost) (plus_tool_calls used cost)
  unfolding Left spend_tool_calls
  unpaid left b used cost p h = h

  converse-Left :
      (left : Allowance) (turn : Turn W) (tries : ℤ) (forced : Option (BoundTool W)) (s : Session W)
      → (begin_turn e turn s).1.remaining.turns ≡ left
      → (converse e turn tries forced s).1.remaining.turns ≡ left
  unfolding converse Left
  converse-Left left turn tries forced s h =
      Leaves-after (λ s. s.remaining.turns ≡ left) (begin_turn e turn) _ s h
        (λ _.
          Leaves-bind _ (complete e turn _ forced) _
            (Leaves-complete e (Left left) (unpaid left) turn _ forced)
            (λ reply.
              Leaves-bind _ (record_message e MessageRole.assistant reply.blocks) _
                (Leaves-record_message e (Left left) (unpaid left) MessageRole.assistant
                  reply.blocks)
                (λ _.
                  Leaves-bind _ (evaluate_turn e reply turn forced) _
                    (Leaves-evaluate_turn e (Left left) (unpaid left) reply turn forced)
                    (λ o. Leaves-unless_settled e (Left left) (unpaid left) turn tries forced o))))

  begin_turn-final :
      (left : Allowance) (turn : Turn W) (s : Session W)
      → is_final turn ≡ true
      → s.remaining.turns ≡ left
      → (begin_turn e turn s).1.remaining.turns ≡ left
  unfolding begin_turn Left
  begin_turn-final left turn s final h =
      rw final ((Leaves-prepare_final_turn e (Left left) (unpaid left) turn).at s h)

  -- A pass that does not return uses a turn or a try.
  unfoldable pub Progress : ℕ → Result (Outcome ⊎ ℤ) × Session W → Type 0
  Progress n (ok (inr tries), s) =
      (q k : ℕ) × (s.remaining.turns ≡ finite (pos q)) × (tries ≡ pos k) × (q + k < n)
  Progress n _ = Unit

  -- From what is left after a pass and the tries it leaves, its progress.
  progress :
      (n q k : ℕ) (r : Result (Outcome ⊎ ℤ) × Session W)
      → r.1.remaining.turns ≡ finite (pos q)
      → Returned (GoesOn (λ t. t ≡ pos k)) r.0
      → q + k < n
      → Progress n r
  unfolding Progress
  progress n q k (ok (inr t), s) left tries lt = (q, k, left, tries, lt)
  progress n q k (ok (inl o), s) left tries lt = tt
  progress n q k (raise x, s) left tries lt = tt

  never :
      (n : ℕ) (r : Result (Outcome ⊎ ℤ) × Session W) → Returned (GoesOn (λ _. ⊥)) r.0 → Progress n r
  unfolding Progress
  never n (ok (inr t), s) h = absurd h
  never n (ok (inl o), s) h = tt
  never n (raise x, s) h = tt

  positive : (k : ℕ) → 0 < k → leb 1 (k + 0) ≡ true
  positive k lt = ground arith

  pos-one : (k : ℕ) → 0 < k → pos k -ℤ pos 1 ≡ pos (k - 1)
  unfolding ◌-ℤ◌
  pos-one k lt = rw (positive k lt) (ap pos (omega arith))

  by_trying : (k : ℕ) (answers : Bool) → (0 < k) ⊎ (answers ≡ true) → answers ≡ false → 0 < k
  by_trying k answers (inl lt) h = lt
  by_trying k answers (inr yes') h = absurd (ground arith)

  unexhausted : (q : ℕ) → is_exhausted (finite (pos q)) ≡ false → 0 < q
  unfolding is_exhausted
  unexhausted q h = ground arith

  -- A final turn at which a tool that only collects is forced leaves a try less.
  pub forced-Progress :
      (u : List ℕ) (turn : Turn W) (k q : ℕ) (t : BoundTool W) (s : Session W)
      → ((w : W) → e.uncollected w ≡ ok u)
      → turn.uncollected ≡ u
      → is_final turn ≡ true
      → (0 < k) ⊎ (is_answering (some t) ≡ true)
      → s.remaining.turns ≡ finite (pos q)
      → Progress (q + k) (converse e turn (pos k) (some t) s)
  unfolding next is_collecting
  forced-Progress u turn k q t s same hu final tried left =
      elim (Bool-cases (is_answering (some t))) [
        | inl answers ↦ never (q + k) _ ((converse-answering turn (pos k) t final answers).at s)
        | inr collects ↦
            let lt : 0 < k = by_trying k _ tried collects in
            progress (q + k) q (k - 1) _
              (converse-Left (finite (pos q)) turn (pos k) (some t) s
                (begin_turn-final (finite (pos q)) turn s final left))
              (subst
                (λ (n : ℤ). Returned (GoesOn (λ t'. t' ≡ n)) (converse e turn (pos k) (some t) s).0)
                (rw collects (pos-one k lt)) ((converse-next u turn (pos k) (some t) same hu).at s))
              (omega (arith, lt))
      ]

  pub free-Progress :
      (u : List ℕ) (turn : Turn W) (k q : ℕ) (s : Session W)
      → ((w : W) → e.uncollected w ≡ ok u)
      → turn.uncollected ≡ u
      → turn.remaining ≡ s.remaining
      → is_final turn ≡ false
      → s.remaining.turns ≡ finite (pos q)
      → Progress (q + k) (converse e turn (pos k) none s)
  unfolding next is_collecting is_final turns_exhausted begin_turn spend_turn is_exhausted spend
  free-Progress u turn k q s same hu hr more left =
      let lt : 0 < q =
        unexhausted q
          (subst (λ a. is_exhausted a ≡ false) (ap (λ (b : Budget). b.turns) hr ∙ left) more) in
      progress (q + k) (q - 1) k _
        (converse-Left (finite (pos (q - 1))) turn (pos k) none s
          (rw more (ap (λ a. spend a 1) left ∙ ap finite (pos-one q lt))))
        ((converse-next u turn (pos k) none same hu).at s) (omega (arith, lt))

  unfoldable pub TurnIs : List ℕ → ℤ → Session W → Result (Turn W) × Session W → Type 0
  TurnIs u tries s (ok turn, s') =
      (turn.remaining ≡ s.remaining)
      × (turn.uncollected ≡ u)
      × (turn.tries ≡ tries)
      × (turn.offered ≡ e.registry)
      × (s' ≡ s)
  TurnIs u tries s (raise x, s') = Unit

  pub turn_of-TurnIs :
      (u : List ℕ) (delivered : Delivery) (tries : ℤ) (s : Session W)
      → ((w : W) → e.uncollected w ≡ ok u)
      → TurnIs u tries s (turn_of e delivered tries s)
  unfolding turn_of TurnIs
  turn_of-TurnIs u delivered tries s same = go (e.outstanding s.world) refl
    where
      go :
          (o : Result (List ℕ))
          → e.outstanding s.world ≡ o
          → TurnIs u tries s (turn_of e delivered tries s)
      go (ok o) ho = rw (ho, same s.world) (refl, refl, refl, refl, refl)
      go (raise x) ho = rw ho tt
