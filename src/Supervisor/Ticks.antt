-- ===== src/Supervisor/Ticks.antt =====
-- `tick` of supervisor/supervisor.py and what it calls.
use ancalagon.Base.{
  ℕ, ◌-◌, ◌++◌, [], ◌∷◌, ℤ, pos, ◌-ℤ◌, ltb_ℤ, leb, String, if◌then◌else◌, Option, none, some, List,
  Result, ok, raise, require, key_error, lookup, insert, without, has_key, length, select,
  collect_result,
}
use ancalagon.Base.Errors
use ancalagon.Base.Exec.{Exec, pure, lift, modify, ◌>>=◌, ◌>>◌, for_each}
use ancalagon.Contracts.Status.{AgentStatus, supervisor, OutcomeHeader, status_of_kind, HarnessTask}
use ancalagon.Bus.Rows.{AgentState}
use ancalagon.Bus.Log.{dir_of, record_status}
use ancalagon.Bus.Queue.{claim, enqueue}
use ancalagon.Bus.Snapshots.{Snapshot, snapshot}
use ancalagon.Schedule.Queries.{newest_agent}
use ancalagon.Schedule.News.{wakeable}
use ancalagon.Supervisor.State.{
  World, Spawned, Settings, Supervisor, Process, spawned, on_bus, pid_of, polled, is_spawned,
}

unfoldable pub spawned_count : Supervisor → ℕ
spawned_count s = length (select (λ (p : ℕ × Process). is_spawned p.1) s.live)

module _ (c : Settings) (w : World) where
  -- `bus.record` by the supervisor.
  abbrev pub note : ℕ → AgentStatus → ℕ → String → ℤ → Exec Supervisor (Unit {0})
  note agent status pid summary seen_through =
      on_bus (record_status c.db w.now agent status supervisor pid summary seen_through)

  abbrev pub forget : ℕ → Supervisor → Supervisor
  forget agent s = record s { live = without agent s.live; started = without agent s.started }

  -- `_finish`.
  unfoldable pub finish : ℕ → AgentStatus → String → ℤ → Exec Supervisor (Unit {0})
  finish agent status summary seen_through = do
    note agent status 0 summary seen_through
    modify (forget agent)

  abbrev pub remember : ℕ → ℕ → Supervisor → Supervisor
  remember agent pid s = record s {
    live = insert agent (spawned pid) s.live;
    started = insert agent (pos (w.time_started agent)) s.started;
  }

  unfoldable pub spawn_as : ℕ → Spawned → Exec Supervisor (Unit {0})
  unfolding finish
  spawn_as agent (Spawned.process pid) = do
    note agent AgentStatus.running pid "" (pos 0)
    modify (remember agent pid)
  spawn_as agent Spawned.os_error = finish agent AgentStatus.crashed c.spawn_failed (pos 0)
  spawn_as agent (Spawned.other e) = lift (raise e)

  -- `_spawn`.
  unfoldable pub spawn : AgentState → Exec Supervisor (Unit {0})
  unfolding spawn_as
  spawn state = spawn_as state.agent (w.spawn state.agent)

  -- `_start_queued`.
  unfoldable pub start_queued : Exec Supervisor (Unit {0})
  unfolding spawn spawned_count
  start_queued s =
      let free = c.max_concurrent - spawned_count s in
      if leb free 0
      then pure tt s
      else (do states ← on_bus (claim c.db w.now free); for_each spawn states) s

  unfoldable pub close_as :
      ℕ → AgentStatus → String → Option (Result OutcomeHeader) → Exec Supervisor (Unit {0})
  unfolding finish
  close_as agent close summary none = finish agent close summary (pos 0)
  close_as agent close summary (some (raise e)) = lift (raise e)
  close_as agent close summary (some (ok spoken)) =
      finish agent (status_of_kind spoken.kind) spoken.summary spoken.seen_through

  -- `_close`: an outcome that the worker left speaks for it.
  unfoldable pub close : ℕ → AgentStatus → String → Exec Supervisor (Unit {0})
  unfolding close_as dir_of
  close agent status summary = do
    dir ← (λ (s : Supervisor). lift (dir_of agent s.bus.tables) s)
    close_as agent status summary (w.outcome agent)

  abbrev pub kill : Process → Supervisor → Supervisor
  kill p s = record s { killed = s.killed ++ pid_of p ∷ [] }

  -- `_reap_timeout`.
  unfoldable pub reap_timeout : ℕ → Process → Exec Supervisor (Unit {0})
  unfolding close ◌-ℤ◌
  reap_timeout agent process = do
    started ← (λ (s : Supervisor). lift (require key_error (lookup agent s.started)) s)
    if ltb_ℤ (pos (w.time_reaped agent) -ℤ started) (pos c.timeout_s)
        then pure tt
        else (do modify (kill process); close agent AgentStatus.timed_out c.killed_after)

  -- `_reap_one`.
  unfoldable pub reap_one : ℕ × Process → Exec Supervisor (Unit {0})
  unfolding reap_timeout close
  reap_one (agent, process) =
      if polled w agent process
      then close agent AgentStatus.crashed "no outcome written"
      else reap_timeout agent process

  -- `_reap`, over the items of `live` as they were when it began.
  unfoldable pub reap : Exec Supervisor (Unit {0})
  unfolding reap_one
  reap s = for_each reap_one s.live s

  -- A task whose newest agent is not one of these.
  asleep_if : List (ℕ × Process) → Snapshot → HarnessTask → Result (Option HarnessTask)
  unfolding newest_agent
  asleep_if live snap task =
      Errors.◌>>=◌ (newest_agent snap task.id)
        (λ newest. ok (if has_key newest live then none else some task))

  abbrev pub wake : HarnessTask → Exec Supervisor (Unit {0})
  wake task = do agent ← on_bus (enqueue c.db w.now task.dir task.parent_agent); pure tt

  -- `_wake_idling`.
  unfoldable pub wake_idling : Snapshot → Exec Supervisor (Unit {0})
  unfolding asleep_if wakeable
  wake_idling snap = do
    asleep ← (λ (s : Supervisor).
        lift (Errors.◌>>=◌ (wakeable snap) (λ tasks. collect_result (asleep_if s.live snap) tasks))
          s)
    for_each wake asleep

  unfoldable pub tick : Exec Supervisor (Unit {0})
  unfolding start_queued reap wake_idling snapshot
  tick = do
    start_queued
    reap
    snap ← (λ (s : Supervisor). lift (snapshot s.bus) s)
    wake_idling snap
