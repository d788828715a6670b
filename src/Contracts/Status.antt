-- ===== src/Contracts/Status.antt =====
-- contracts/agent_status.py, event_source.py, agent_event.py, harness_task.py, lifecycle_line.py
-- and outcome_kind.py. A time is a number; `ts` is a time and not its ISO text.
use ancalagon.Base.{ℕ, ℤ, String, FilePath, Bool, true, ◌==◌, ◌≡◌, ◌↔◌, arith}

pub data AgentStatus : Type 0 where
  queued claimed running completed needs_input exhausted failed : AgentStatus
  crashed timed_out idling collected : AgentStatus

pub data EventSource : Type 0 where
  supervisor worker : EventSource

pub record AgentEvent : Type 0 where
  pub id : ℕ
  pub agent : ℕ
  pub ts : ℕ
  pub status : AgentStatus
  pub source : EventSource
  pub pid : ℕ
  pub summary : String
  pub seen_through : ℤ

pub record HarnessTask : Type 0 where
  pub id : ℕ
  pub dir : FilePath
  pub parent_agent : ℕ
  pub created : ℕ

pub record LifecycleLine : Type 0 where
  pub agent : ℕ
  pub status : AgentStatus
  pub source : EventSource
  pub pid : ℕ
  pub summary : String

-- `status is other`: members of an enumeration are told apart by their place in it.
abbrev pub place : AgentStatus → ℕ
place AgentStatus.queued = 0
place AgentStatus.claimed = 1
place AgentStatus.running = 2
place AgentStatus.completed = 3
place AgentStatus.needs_input = 4
place AgentStatus.exhausted = 5
place AgentStatus.failed = 6
place AgentStatus.crashed = 7
place AgentStatus.timed_out = 8
place AgentStatus.idling = 9
place AgentStatus.collected = 10

abbrev pub same_status : AgentStatus → AgentStatus → Bool
same_status a b = place a == place b

pub same_status_iff : (a b : AgentStatus) → (same_status a b ≡ true) ↔ (a ≡ b)
same_status_iff a b = ground arith

pub data OutcomeKind : Type 0 where
  completed exhausted needs_input failed idling : OutcomeKind

-- `AgentStatus(kind.value)`: each kind's text is that of one status.
abbrev pub status_of_kind : OutcomeKind → AgentStatus
status_of_kind OutcomeKind.completed = AgentStatus.completed
status_of_kind OutcomeKind.exhausted = AgentStatus.exhausted
status_of_kind OutcomeKind.needs_input = AgentStatus.needs_input
status_of_kind OutcomeKind.failed = AgentStatus.failed
status_of_kind OutcomeKind.idling = AgentStatus.idling

pub record OutcomeHeader : Type 0 where
  pub kind : OutcomeKind
  pub summary : String
  pub seen_through : ℤ
