-- ===== src/Attempt.antt =====
-- attempt/: the state of one attempt, and the transition table that its events go through.
pub mod Folds
pub mod Table
mod Samples
use ancalagon.Base.{
  ℕ, Bool, true, false, if◌then◌else◌, List, [], ◌∷◌, Result, ok, raise, illegal_transition, ◌>>=◌,
}
use ancalagon.Contracts.Status.{AgentStatus, EventSource, supervisor, worker, AgentEvent}

pub data Attempt : Type 0 where
  nascent queued claimed : Attempt
  running : (pid : ℕ) → Attempt
  closed : (verdict : AgentStatus) → Attempt
  lost : (close : AgentStatus) → Attempt
  collected : (verdict : AgentStatus) (spoke : Bool) → Attempt

-- `status in VERDICTS`.
unfoldable pub in_verdicts : AgentStatus → Bool
in_verdicts AgentStatus.completed = true
in_verdicts AgentStatus.exhausted = true
in_verdicts AgentStatus.failed = true
in_verdicts AgentStatus.needs_input = true
in_verdicts AgentStatus.idling = true
in_verdicts _ = false

-- `status in CLOSES`.
unfoldable pub in_closes : AgentStatus → Bool
in_closes AgentStatus.crashed = true
in_closes AgentStatus.timed_out = true
in_closes _ = false

unfoldable pub next_state : Attempt → AgentStatus → EventSource → ℕ → Result Attempt
unfolding in_verdicts in_closes
next_state Attempt.nascent AgentStatus.queued supervisor pid = ok Attempt.queued
next_state Attempt.queued AgentStatus.claimed supervisor pid = ok Attempt.claimed
next_state Attempt.claimed AgentStatus.running supervisor pid = ok (Attempt.running pid)
next_state (Attempt.running p) status supervisor pid =
    if in_verdicts status
    then ok (Attempt.closed status)
    else if in_closes status
    then ok (Attempt.lost status)
    else raise illegal_transition
next_state Attempt.claimed status supervisor pid =
    if in_closes status then ok (Attempt.lost status) else raise illegal_transition
next_state (Attempt.closed verdict) AgentStatus.collected worker pid =
    ok (Attempt.collected verdict true)
next_state (Attempt.lost close) AgentStatus.collected worker pid =
    ok (Attempt.collected close false)
next_state _ _ _ _ = raise illegal_transition

-- The `functools.reduce` of `attempt_of`, from a state that need not be `Nascent()`.
unfoldable pub fold_from : Attempt → List AgentEvent → Result Attempt
fold_from state [] = ok state
fold_from state (e ∷ events) = do
  state' ← next_state state e.status e.source e.pid
  fold_from state' events

unfoldable pub attempt_of : List AgentEvent → Result Attempt
unfolding fold_from
attempt_of events = fold_from Attempt.nascent events
