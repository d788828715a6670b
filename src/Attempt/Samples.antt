-- ===== src/Attempt/Samples.antt =====
-- The theorems about an attempt at small histories.
use ancalagon.Base.{◌≡◌, refl, ◌↔◌, List, [], ◌∷◌, ok, pos}
use ancalagon.Contracts.Status.{AgentStatus, EventSource, supervisor, AgentEvent}
use ancalagon.Attempt.{Attempt, next_state, attempt_of}
use ancalagon.Attempt.Table.{Legal, next_state-Legal}
use ancalagon.Attempt.Folds.{Told, attempt_of-Told}

abbrev event : AgentStatus → EventSource → AgentEvent
event status source = record {
  id = 1;
  agent = 1;
  ts = 0;
  status = status;
  source = source;
  pid = 7;
  summary = "";
  seen_through = pos 0;
}

-- An attempt that was spawned, and lost when its time was over.
abbrev cut_short : List AgentEvent
cut_short =
    event AgentStatus.queued supervisor
    ∷ event AgentStatus.claimed supervisor
    ∷ event AgentStatus.running supervisor
    ∷ event AgentStatus.timed_out supervisor
    ∷ []

attempt_of-Told_example :
    Told
      (AgentStatus.queued ∷ AgentStatus.claimed ∷ AgentStatus.running ∷ AgentStatus.timed_out ∷ [])
      (Attempt.lost AgentStatus.timed_out)
unfolding attempt_of next_state
attempt_of-Told_example = attempt_of-Told cut_short (Attempt.lost AgentStatus.timed_out) refl

next_state-Legal_example :
    (next_state (Attempt.running 7) AgentStatus.failed supervisor 0
      ≡ ok (Attempt.closed AgentStatus.failed))
    ↔ Legal (Attempt.running 7) AgentStatus.failed supervisor 0 (Attempt.closed AgentStatus.failed)
next_state-Legal_example =
    next_state-Legal (Attempt.running 7) AgentStatus.failed supervisor 0
      (Attempt.closed AgentStatus.failed)
