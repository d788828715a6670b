-- ===== src/Supervisor/Stale.antt =====
-- `resolve_stale`, `_idle_step`, `run_until_idle` and `shutdown` of supervisor/supervisor.py.
use ancalagon.Base.{
  ℕ, ◌++◌, [], ◌∷◌, ℤ, pos, ◌-ℤ◌, leb_ℤ, sub_ℕ, ◌==◌, Bool, true, false, not, if◌then◌else◌, Option,
  none, some, List, Result, ok, raise, insert, select, last,
}
use ancalagon.Base.Exec.{Exec, pure, lift, modify, ◌>>=◌, ◌>>◌, for_each}
use ancalagon.Contracts.Status.{AgentStatus, AgentEvent, same_status}
use ancalagon.Bus.Log.{history}
use ancalagon.Bus.Queue.{queued_count}
use ancalagon.Bus.Snapshots.{snapshot}
use ancalagon.Schedule.Queries.{unreaped}
use ancalagon.Supervisor.State.{World, Settings, Supervisor, adopted}
use ancalagon.Supervisor.Ticks.{close, tick}

module _ (c : Settings) (w : World) where
  abbrev pub adopt : ℕ → ℕ → ℤ → Supervisor → Supervisor
  adopt agent pid elapsed s = record s {
    live = insert agent (adopted pid) s.live;
    started = insert agent (pos (w.time_started agent) -ℤ elapsed) s.started;
  }

  abbrev kill_pid : ℕ → Supervisor → Supervisor
  kill_pid pid s = record s { killed = s.killed ++ pid ∷ [] }

  -- `_resolve_running`: the difference of two times may be negative.
  unfoldable pub resolve_running : ℕ → AgentEvent → Exec Supervisor (Unit {0})
  unfolding close ◌-ℤ◌
  resolve_running agent running =
      let elapsed = sub_ℕ (w.now_resolved agent) running.ts in
      if leb_ℤ elapsed (pos c.timeout_s)
      then modify (adopt agent running.pid elapsed)
      else (do modify (kill_pid running.pid); close c w agent AgentStatus.timed_out c.killed_after)

  resolve_last : ℕ → Option AgentEvent → Exec Supervisor (Unit {0})
  unfolding resolve_running
  resolve_last agent none = close c w agent AgentStatus.crashed "no live process at startup"
  resolve_last agent (some running) =
      if w.is_running running.pid
      then resolve_running agent running
      else close c w agent AgentStatus.crashed "no live process at startup"

  -- `_resolve_one`.
  unfoldable pub resolve_one : ℕ → Exec Supervisor (Unit {0})
  unfolding resolve_last history
  resolve_one agent s =
      resolve_last agent
        (last (select (λ e. same_status e.status AgentStatus.running) (history agent s.bus.tables)))
        s

  unfoldable pub resolve_stale : Exec Supervisor (Unit {0})
  unfolding resolve_one unreaped snapshot
  resolve_stale = do
    snap ← (λ (s : Supervisor). lift (snapshot s.bus) s)
    for_each resolve_one (unreaped snap)

  -- `_idle_step`: a tick, and whether there is more to wait for.
  more_after : Supervisor → Result Bool
  unfolding queued_count
  more_after s = elim s.live [
    | p ∷ live ↦ ok true
    | [] ↦ elim (queued_count s.bus) [ ok n ↦ ok (not (n == 0)) | raise e ↦ raise e ]
  ]

  unfoldable pub idle_step : Exec Supervisor Bool
  unfolding tick more_after
  idle_step = do tick c w; (λ (s : Supervisor). lift (more_after s) s)

-- The loop of `run_until_idle` over the worlds that its steps meet: true when it ended by itself,
-- false when the worlds given were not enough.
unfoldable pub idle_loop : Settings → List World → Exec Supervisor Bool
unfolding idle_step
idle_loop c [] = pure false
idle_loop c (w ∷ worlds) = do more ← idle_step c w; if more then idle_loop c worlds else pure true

unfoldable pub run_until_idle : Settings → World → List World → Exec Supervisor Bool
unfolding resolve_stale idle_loop
run_until_idle c w worlds = resolve_stale c w >> idle_loop c worlds

unfoldable pub shutdown : Supervisor → Supervisor
shutdown s = record s { live = []; started = [] }
