-- ===== src/Attempt/Folds.antt =====
-- attempt_of of attempt/attempt_of.py: what the state that a history folds to says of the history.
use ancalagon.Base.{
  ℕ, ◌≡◌, refl, true, false, List, [], ◌∷◌, ◌++◌, map, ok, raise, Result, ◌>>=◌, ◌⊎◌, inl, inr,
  >>=-eq-ok, subst, ◌∙◌,
}
use mathlib.Core.List.{append-nil, append_assoc}
use ancalagon.Contracts.Status.{AgentStatus, EventSource, AgentEvent}
use ancalagon.Attempt.{Attempt, next_state, fold_from, attempt_of}
use ancalagon.Attempt.Table.{
  Legal, Verdict, Close, enqueue, claim, spawn, speak, lose, abandon, collect_closed, collect_lost,
  next_state-Legal,
}

fold-bind :
    (r : Result Attempt) (xs ys : List AgentEvent)
    → ((b : Attempt) → fold_from b (xs ++ ys) ≡ (fold_from b xs >>= λ c. fold_from c ys))
    → (r >>= λ b. fold_from b (xs ++ ys)) ≡ ((r >>= λ b. fold_from b xs) >>= λ c. fold_from c ys)
fold-bind (ok b) xs ys ih = ih b
fold-bind (raise e) xs ys ih = refl

pub fold_from-append :
    (a : Attempt) (xs ys : List AgentEvent)
    → fold_from a (xs ++ ys) ≡ (fold_from a xs >>= λ b. fold_from b ys)
unfolding fold_from
fold_from-append a [] ys = refl
fold_from-append a (x ∷ xs) ys =
    fold-bind (next_state a x.status x.source x.pid) xs ys (λ b. fold_from-append b xs ys)

-- One more event is one more step from the state before it.
pub attempt_of-snoc :
    (xs : List AgentEvent) (e : AgentEvent) (a : Attempt)
    → attempt_of xs ≡ ok a
    → attempt_of (xs ++ e ∷ []) ≡ next_state a e.status e.source e.pid
unfolding attempt_of
attempt_of-snoc xs e a h =
    fold_from-append Attempt.nascent xs (e ∷ [])
    ∙ rw h (step (next_state a e.status e.source e.pid))
  where
    step : (r : Result Attempt) → (r >>= λ b. fold_from b []) ≡ r
    step (ok b) = refl
    step (raise x) = refl

-- The statuses, in order, that lead to a state.
abbrev pub begun : List AgentStatus
begun = AgentStatus.queued ∷ AgentStatus.claimed ∷ []

abbrev pub spawned : List AgentStatus
spawned = AgentStatus.queued ∷ AgentStatus.claimed ∷ AgentStatus.running ∷ []

-- What a history of these statuses must be for an attempt to be in this state.
abbrev pub Told : List AgentStatus → Attempt → Type 0
Told l Attempt.nascent = l ≡ []
Told l Attempt.queued = l ≡ AgentStatus.queued ∷ []
Told l Attempt.claimed = l ≡ begun
Told l (Attempt.running p) = l ≡ spawned
Told l (Attempt.closed v) = Verdict v × (l ≡ spawned ++ v ∷ [])
Told l (Attempt.lost c) = Close c × ((l ≡ begun ++ c ∷ []) ⊎ (l ≡ spawned ++ c ∷ []))
Told l (Attempt.collected v true) = Verdict v × (l ≡ spawned ++ v ∷ AgentStatus.collected ∷ [])
Told l (Attempt.collected c false) =
    Close c
    × ((l ≡ begun ++ c ∷ AgentStatus.collected ∷ [])
        ⊎ (l ≡ spawned ++ c ∷ AgentStatus.collected ∷ []))

Told-Legal :
    {a b : Attempt} {s : AgentStatus} {src : EventSource} {p : ℕ} (l : List AgentStatus)
    → Legal a s src p b
    → Told l a
    → Told (l ++ s ∷ []) b
Told-Legal l (enqueue p) t = rw t
Told-Legal l (claim p) t = rw t
Told-Legal l (spawn p) t = rw t
Told-Legal l (speak s q p v) t = (v, rw t)
Told-Legal l (lose s q p c) t = (c, inr (rw t))
Told-Legal l (abandon s p c) t = (c, inl (rw t))
Told-Legal l (collect_closed s p) (v, t) = (v, rw t)
Told-Legal l (collect_lost s p) (c, inl t) = (c, inl (rw t))
Told-Legal l (collect_lost s p) (c, inr t) = (c, inr (rw t))

Told-fold_from :
    (l : List AgentStatus) (a b : Attempt) (events : List AgentEvent)
    → Told l a
    → fold_from a events ≡ ok b
    → Told (l ++ map (λ e. e.status) events) b
unfolding fold_from
Told-fold_from l a b [] t h = rw append-nil (subst (Told l) (ok-inj h) t)
  where
    ok-inj : {x y : Attempt} → ok x ≡ ok y → x ≡ y
    ok-inj e = cc
Told-fold_from l a b (e ∷ events) t h =
    let (c, moved, rest) =
      >>=-eq-ok (next_state a e.status e.source e.pid) (λ c. fold_from c events) h in
    rw (← append_assoc l (e.status ∷ []) (map (λ e. e.status) events)) (
      Told-fold_from (l ++ e.status ∷ []) c b events
        (Told-Legal l ((next_state-Legal a e.status e.source e.pid c).0 moved) t) rest)

-- The state that a history folds to determines the history's statuses, but for whether a lost
-- attempt had been spawned.
pub attempt_of-Told :
    (events : List AgentEvent) (a : Attempt)
    → attempt_of events ≡ ok a
    → Told (map (λ e. e.status) events) a
unfolding attempt_of
attempt_of-Told events a h = Told-fold_from [] Attempt.nascent a events refl h
