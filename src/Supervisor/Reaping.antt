-- ===== src/Supervisor/Reaping.antt =====
-- `_close` and `_reap` of supervisor/supervisor.py: from a supervisor that tends running agents they
-- raise nothing, and each agent comes to what its process and its outcome say.
use ancalagon.Base.{
  ℕ, ◌≤◌, ℤ, pos, ◌-ℤ◌, ltb_ℤ, ◌≡◌, ◌≢◌, refl, true, false, List, All, some, none, Option, lookup,
  has_key, arith, Result, ok, raise, String, if◌then◌else◌,
}
use ancalagon.Contracts.Status.{AgentStatus, supervisor, OutcomeHeader, OutcomeKind, status_of_kind}
use ancalagon.Attempt.{Attempt, next_state, in_closes, in_verdicts}
use ancalagon.Bus.Log.{attempt}
use ancalagon.Bus.Publishing.{dir_of_agent}
use ancalagon.Supervisor.State.{World, Settings, Supervisor, Process, polled}
use ancalagon.Supervisor.Ticks.{spawned_count, close, close_as, reap_one}
use ancalagon.Supervisor.Invariant.{attempt-elem, IsRunning, IsTended, IsAbout, finish_total}

-- An outcome file that is there can be read.
abbrev pub IsReadable : Option (Result OutcomeHeader) → Type 0
IsReadable none = Unit
IsReadable (some (ok h)) = Unit
IsReadable (some (raise e)) = ⊥

-- What a closed attempt comes to: what its worker's outcome says, or else lost.
abbrev pub closed_as : AgentStatus → Option (Result OutcomeHeader) → Attempt
closed_as status (some (ok h)) = Attempt.closed (status_of_kind h.kind)
closed_as status _ = Attempt.lost status

verdict-of_kind :
    (k : OutcomeKind) (pid : ℕ)
    → next_state (Attempt.running pid) (status_of_kind k) supervisor 0
      ≡ ok (Attempt.closed (status_of_kind k))
unfolding next_state in_verdicts
verdict-of_kind k pid = ground arith

close-of_status :
    (status : AgentStatus) (pid : ℕ)
    → in_closes status ≡ true
    → next_state (Attempt.running pid) status supervisor 0 ≡ ok (Attempt.lost status)
unfolding next_state in_verdicts in_closes
close-of_status status pid h = ground arith

running-ne-nascent : (pid : ℕ) → Attempt.running pid ≢ Attempt.nascent
running-ne-nascent pid h = cc

module _ (c : Settings) (w : World) where
  pub close_total :
      (a : ℕ) (status : AgentStatus) (summary : String) (s : Supervisor)
      → IsReadable (w.outcome a)
      → in_closes status ≡ true
      → IsTended s
      → IsRunning a s.bus.tables
      → (s' : Supervisor) × (close c w a status summary s ≡ (ok tt, s'))
        × IsTended s'
        × IsAbout a s s'
        × (attempt a s'.bus.tables ≡ ok (closed_as status (w.outcome a)))
        × (spawned_count s' ≤ spawned_count s)
  unfolding close close_as
  close_total a status summary s readable closes i (pid, at) =
      let (dir, found) = dir_of_agent a s.bus.tables i.well_formed.sound (
        attempt-elem a s.bus.tables (Attempt.running pid) i.well_formed.sound at
          (running-ne-nascent pid)) in
      let (s', e, i', about, over, fewer) = by (w.outcome a) readable in
      (s', rw found e, i', about, over, fewer)
    where
      by :
          (o : Option (Result OutcomeHeader))
          → IsReadable o
          → (s' : Supervisor) × (close_as c w a status summary o s ≡ (ok tt, s'))
            × IsTended s'
            × IsAbout a s s'
            × (attempt a s'.bus.tables ≡ ok (closed_as status o))
            × (spawned_count s' ≤ spawned_count s)
      by none r =
          finish_total c w a status summary (pos 0) s (Attempt.running pid) (Attempt.lost status) i
            at (running-ne-nascent pid) (close-of_status status pid closes)
      by (some (ok h)) r =
          finish_total c w a (status_of_kind h.kind) h.summary h.seen_through s
            (Attempt.running pid) (Attempt.closed (status_of_kind h.kind)) i at
            (running-ne-nascent pid) (verdict-of_kind h.kind pid)
      by (some (raise e)) r = absurd r

  -- What a watched process's attempt is to come to: as it ended, killed when it is overdue, or what it was.
  abbrev pub fate : ℕ → Process → ℤ → Attempt → Attempt
  fate a p started current =
      if polled w a p
      then closed_as AgentStatus.crashed (w.outcome a)
      else if ltb_ℤ (pos (w.time_reaped a) -ℤ started) (pos c.timeout_s)
      then current
      else closed_as AgentStatus.timed_out (w.outcome a)

  abbrev pub Fate : Supervisor → Supervisor → ℕ × Process → Type 0
  Fate s s' (a, p) =
      (t : ℤ) (x : Attempt)
      → lookup a s.started ≡ some t
      → attempt a s.bus.tables ≡ ok x
      → attempt a s'.bus.tables ≡ ok (fate a p t x)

  abbrev Reaped : Supervisor → ℕ × Process → Type 0
  Reaped s (a, p) =
      (s' : Supervisor) × (reap_one c w (a, p) s ≡ (ok tt, s'))
      × IsTended s'
      × IsAbout a s s'
      × Fate s s' (a, p)
      × (spawned_count s' ≤ spawned_count s)

  crashed : in_closes AgentStatus.crashed ≡ true
  unfolding in_closes
  crashed = refl

  timed_out : in_closes AgentStatus.timed_out ≡ true
  unfolding in_closes
  timed_out = refl

  -- What reaping some items leaves.
  pub record IsReaped (s : Supervisor) (xs : List (ℕ × Process)) (s' : Supervisor) : Type 0 where
    pub tends : IsTended s'
    pub others : (b : ℕ) → has_key b xs ≡ false → attempt b s'.bus.tables ≡ attempt b s.bus.tables
    pub fates : All (Fate s s') xs
    pub fewer : spawned_count s' ≤ spawned_count s
