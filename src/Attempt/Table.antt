-- ===== src/Attempt/Table.antt =====
-- next_state of attempt/next_state.py against the lifecycle as a relation.
use ancalagon.Base.{ℕ, ◌≡◌, refl, ◌↔◌, true, false, ok, arith, subst, Bool-cases, inl, inr}
use ancalagon.Contracts.Status.{AgentStatus, EventSource, supervisor, worker}
use ancalagon.Attempt.{Attempt, in_verdicts, in_closes, next_state}

-- What an attempt can say for itself, and how it can end without a word.
pub data Verdict : AgentStatus → Type 0 where
  completed : Verdict AgentStatus.completed
  exhausted : Verdict AgentStatus.exhausted
  failed : Verdict AgentStatus.failed
  needs_input : Verdict AgentStatus.needs_input
  idling : Verdict AgentStatus.idling

pub data Close : AgentStatus → Type 0 where
  crashed : Close AgentStatus.crashed
  timed_out : Close AgentStatus.timed_out

-- The legal moves: what each party may record on which state, and the state after it.
pub data Legal : Attempt → AgentStatus → EventSource → ℕ → Attempt → Type 0 where
  enqueue : (p : ℕ) → Legal Attempt.nascent AgentStatus.queued supervisor p Attempt.queued
  claim : (p : ℕ) → Legal Attempt.queued AgentStatus.claimed supervisor p Attempt.claimed
  spawn : (p : ℕ) → Legal Attempt.claimed AgentStatus.running supervisor p (Attempt.running p)
  speak :
      (s : AgentStatus) (q p : ℕ)
      → Verdict s
      → Legal (Attempt.running q) s supervisor p (Attempt.closed s)
  lose :
      (s : AgentStatus) (q p : ℕ)
      → Close s
      → Legal (Attempt.running q) s supervisor p (Attempt.lost s)
  abandon :
      (s : AgentStatus) (p : ℕ) → Close s → Legal Attempt.claimed s supervisor p (Attempt.lost s)
  collect_closed :
      (s : AgentStatus) (p : ℕ)
      → Legal (Attempt.closed s) AgentStatus.collected worker p (Attempt.collected s true)
  collect_lost :
      (s : AgentStatus) (p : ℕ)
      → Legal (Attempt.lost s) AgentStatus.collected worker p (Attempt.collected s false)

Verdict→in_verdicts : (s : AgentStatus) → Verdict s → in_verdicts s ≡ true
unfolding in_verdicts
Verdict→in_verdicts s completed = refl
Verdict→in_verdicts s exhausted = refl
Verdict→in_verdicts s failed = refl
Verdict→in_verdicts s needs_input = refl
Verdict→in_verdicts s idling = refl

in_verdicts→Verdict : (s : AgentStatus) → in_verdicts s ≡ true → Verdict s
unfolding in_verdicts
in_verdicts→Verdict AgentStatus.completed h = completed
in_verdicts→Verdict AgentStatus.exhausted h = exhausted
in_verdicts→Verdict AgentStatus.failed h = failed
in_verdicts→Verdict AgentStatus.needs_input h = needs_input
in_verdicts→Verdict AgentStatus.idling h = idling
in_verdicts→Verdict _ h = cc

Close→in_closes : (s : AgentStatus) → Close s → in_closes s ≡ true
unfolding in_closes
Close→in_closes s crashed = refl
Close→in_closes s timed_out = refl

in_closes→Close : (s : AgentStatus) → in_closes s ≡ true → Close s
unfolding in_closes
in_closes→Close AgentStatus.crashed h = crashed
in_closes→Close AgentStatus.timed_out h = timed_out
in_closes→Close _ h = cc

Close→not_in_verdicts : (s : AgentStatus) → Close s → in_verdicts s ≡ false
unfolding in_verdicts
Close→not_in_verdicts s crashed = refl
Close→not_in_verdicts s timed_out = refl

Legal→next_state :
    {a b : Attempt} {s : AgentStatus} {src : EventSource} {p : ℕ}
    → Legal a s src p b
    → next_state a s src p ≡ ok b
unfolding next_state
Legal→next_state (enqueue p) = refl
Legal→next_state (claim p) = refl
Legal→next_state (spawn p) = refl
Legal→next_state (speak s q p v) = ground (arith, Verdict→in_verdicts s v)
Legal→next_state (lose s q p c) = ground (arith, Close→in_closes s c, Close→not_in_verdicts s c)
Legal→next_state (abandon s p crashed) = refl
Legal→next_state (abandon s p timed_out) = refl
Legal→next_state (collect_closed s p) = refl
Legal→next_state (collect_lost s p) = refl

ok-injective : {a b : Attempt} → ok a ≡ ok b → a ≡ b
ok-injective h = cc

arrives :
    {a b c : Attempt} {s : AgentStatus} {src : EventSource} {p : ℕ}
    → Legal a s src p b
    → ok b ≡ ok c
    → Legal a s src p c
arrives {a} {s = s} {src = src} {p = p} l h = subst (λ x. Legal a s src p x) (ok-injective h) l

runs :
    (s : AgentStatus) (q p : ℕ) (b : Attempt)
    → next_state (Attempt.running q) s supervisor p ≡ ok b
    → Legal (Attempt.running q) s supervisor p b
unfolding next_state
runs s q p b h = elim (Bool-cases (in_verdicts s)) [
  | inl v ↦ arrives (speak s q p (in_verdicts→Verdict s v)) (ground arith)
  | inr n ↦ elim (Bool-cases (in_closes s)) [
    | inl c ↦ arrives (lose s q p (in_closes→Close s c)) (ground arith)
    | inr m ↦ absurd (ground arith)
  ]
]

waits :
    (s : AgentStatus) (p : ℕ) (b : Attempt)
    → next_state Attempt.claimed s supervisor p ≡ ok b
    → Legal Attempt.claimed s supervisor p b
unfolding next_state
waits AgentStatus.running p b h = arrives (spawn p) h
waits AgentStatus.crashed p b h = arrives (abandon AgentStatus.crashed p crashed) h
waits AgentStatus.timed_out p b h = arrives (abandon AgentStatus.timed_out p timed_out) h
waits _ p b h = cc

silent : (s : AgentStatus) (p : ℕ) (b : Attempt) → next_state Attempt.claimed s worker p ≡ ok b → ⊥
unfolding next_state
silent AgentStatus.running p b h = cc
silent _ p b h = cc

next_state→Legal :
    (a : Attempt) (s : AgentStatus) (src : EventSource) (p : ℕ) (b : Attempt)
    → next_state a s src p ≡ ok b
    → Legal a s src p b
unfolding next_state
next_state→Legal Attempt.nascent AgentStatus.queued supervisor p b h = arrives (enqueue p) h
next_state→Legal Attempt.queued AgentStatus.claimed supervisor p b h = arrives (claim p) h
next_state→Legal Attempt.claimed s supervisor p b h = waits s p b h
next_state→Legal Attempt.claimed s worker p b h = absurd (silent s p b h)
next_state→Legal (Attempt.running q) s supervisor p b h = runs s q p b h
next_state→Legal (Attempt.closed v) AgentStatus.collected worker p b h =
    arrives (collect_closed v p) h
next_state→Legal (Attempt.lost c) AgentStatus.collected worker p b h = arrives (collect_lost c p) h
next_state→Legal _ _ _ _ b h = cc

-- The transition table allows a status from a source exactly where the lifecycle has a move for it,
-- and leads to the state of that move.
pub next_state-Legal :
    (a : Attempt) (s : AgentStatus) (src : EventSource) (p : ℕ) (b : Attempt)
    → (next_state a s src p ≡ ok b) ↔ Legal a s src p b
next_state-Legal a s src p b = (next_state→Legal a s src p b, Legal→next_state)
