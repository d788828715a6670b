-- ===== src/Supervisor/State.antt =====
-- The state of a Supervisor of supervisor/supervisor.py, supervisor/adopted_process.py, and what the
-- world outside answers it.
use ancalagon.Base.{ℕ, ℤ, String, Bool, true, false, not, Option, List, Exception, Result}
use ancalagon.Base.Exec.{Exec}
use ancalagon.Contracts.Status.{OutcomeHeader}
use ancalagon.Bus.Rows.{Database}
use ancalagon.Bus.Log.{Store, Reading}

-- A worker that this supervisor spawned, or one that an earlier supervisor left and this one adopted.
pub data Process : Type 0 where
  spawned adopted : (pid : ℕ) → Process

-- What `spawner.spawn` comes to: a process, an OSError, or another exception.
pub data Spawned : Type 0 where
  process : ℕ → Spawned
  os_error : Spawned
  other : Exception → Spawned

-- What is asked of the outside once for each agent in a tick or at startup: the answers of the
-- spawner, of `Process.poll`, of the task's directory, of the clock and of the operating system.
pub record World : Type 0 where
  pub now : Reading → ℕ
  pub spawn : ℕ → Spawned
  -- whether a spawned process's `poll` returns a code
  pub ended : ℕ → Bool
  -- `Liveness.is_running`, for a pid
  pub is_running : ℕ → Bool
  -- the outcome file of an agent: none, or what reading its header comes to
  pub outcome : ℕ → Option (Result OutcomeHeader)
  -- `clock.time()` when the agent is started or adopted, and when it is reaped
  pub time_started : ℕ → ℕ
  pub time_reaped : ℕ → ℕ
  -- `clock.now()` when the agent is resolved at startup
  pub now_resolved : ℕ → ℕ

pub record Settings : Type 0 where
  pub db : Database
  pub max_concurrent : ℕ
  pub timeout_s : ℕ
  -- the texts that the code formats
  pub spawn_failed : String
  pub killed_after : String

pub record Supervisor : Type 0 where
  pub bus : Store
  pub live : List (ℕ × Process)
  pub started : List (ℕ × ℤ)
  -- what was killed: the pids, in order
  pub killed : List ℕ

-- An operation of the bus, as a step of the supervisor that holds it.
abbrev pub on_bus : {A : Type 0} → (Store → Result A × Store) → Exec Supervisor A
on_bus op s = let (r, b) = op s.bus in (r, record s { bus = b })

abbrev pub pid_of : Process → ℕ
pid_of (spawned pid) = pid
pid_of (adopted pid) = pid

-- `process.poll() is not None`.
abbrev pub polled : World → ℕ → Process → Bool
polled w agent (spawned pid) = w.ended agent
polled w agent (adopted pid) = not (w.is_running pid)

abbrev pub is_spawned : Process → Bool
is_spawned (spawned pid) = true
is_spawned (adopted pid) = false
