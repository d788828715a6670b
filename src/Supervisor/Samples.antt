-- ===== src/Supervisor/Samples.antt =====
-- A supervisor of two queued agents, and the theorems at it.
use ancalagon.Base.{
  ℕ, ◌+◌, pos, refl, false, ◌==◌, if◌then◌else◌, ◌≡◌, ok, none, some, List, [], arith,
}
use ancalagon.Contracts.Status.{AgentStatus, OutcomeKind}
use ancalagon.Attempt.{Attempt}
use ancalagon.Bus.Rows.{AgentState}
use ancalagon.Bus.Log.{attempt}
use ancalagon.Bus.Samples.{rowids, noon, two, two-WellFormed, two-closed, program}
use ancalagon.Supervisor.State.{World, Settings, Supervisor, Spawned}
use ancalagon.Supervisor.Ticks.{
  start_queued, reap, spawned_count, spawn, spawn_as, reap_one, close, close_as, finish,
  reap_timeout,
}
use ancalagon.Supervisor.Invariant.{IsTended}
use ancalagon.Supervisor.Starting.{Starts, IsAnswered, start_queued_total}

abbrev pub settings : Settings
settings = record {
  db = rowids;
  max_concurrent = 2;
  timeout_s = 60;
  spawn_failed = "spawn failed";
  killed_after = "killed after 60s";
}

-- The first agent's process ends and leaves an outcome; the second's goes on past its time.
abbrev pub world : World
world = record {
  now = noon;
  spawn = λ a. Spawned.process (100 + a);
  ended = λ a. a == 1;
  is_running = λ pid. false;
  outcome = λ a.
      if a == 1
      then some
          (ok (record { kind = OutcomeKind.completed; summary = "done"; seen_through = pos 0 }))
      else none;
  time_started = λ a. 10;
  time_reaped = λ a. 100;
  now_resolved = λ a. 0;
}

abbrev pub fresh : Supervisor
fresh = record { bus = two; live = []; started = []; killed = [] }

fresh-IsTended : IsTended fresh
fresh-IsTended = record {
  well_formed = two-WellFormed;
  closed = two-closed;
  distinct = tt;
  tended = λ a p h. absurd (ground arith);
}

answers : (a : ℕ) → IsAnswered (world.spawn a)
answers a = tt

start_queued_total_example :
    (states : List AgentState) × (s' : Supervisor) × (start_queued settings world fresh
      ≡ (ok tt, s'))
    × Starts settings world fresh s' states
start_queued_total_example = start_queued_total settings world fresh answers fresh-IsTended

abbrev started : Supervisor
started = (start_queued settings world fresh).1

reaped_verdicts :
    (attempt 1 (reap settings world started).1.bus.tables
      ≡ ok (Attempt.closed AgentStatus.completed))
    × (attempt 2 (reap settings world started).1.bus.tables
        ≡ ok (Attempt.lost AgentStatus.timed_out))
unfolding program start_queued spawned_count spawn spawn_as reap reap_one close close_as finish
    reap_timeout
reaped_verdicts = (refl, refl)
