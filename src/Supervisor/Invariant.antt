-- ===== src/Supervisor/Invariant.antt =====
-- The invariant of a supervisor: its bus is well-formed, and each process that it watches is the
-- worker of an agent that is running and whose start it knows.
use ancalagon.Base.{
  ℕ, ◌≤◌, ℤ, ◌≡◌, ◌≢◌, refl, false, true, ◌==◌, ==_iff, map, some, lookup, lookup-without, elem,
  arith, Bool-cases, inl, inr, ok, ◌∙◌, sym, ap, String, subst,
}
use ancalagon.Base.Order.{All-mono}
use ancalagon.Base.Keys.{select-nil}
use ancalagon.Base.Dicts.{HasDistinctKeys, HasDistinctKeys-without, length-select-without}
use ancalagon.Contracts.Status.{AgentStatus, supervisor, AgentEvent}
use ancalagon.Attempt.{Attempt, next_state, attempt_of, fold_from}
use ancalagon.Bus.Rows.{Tables}
use ancalagon.Bus.Log.{Store, attempt}
use ancalagon.Bus.WellFormed.{IsSound, WellFormed}
use ancalagon.Bus.Recording.{IsRecorded, Does, record_status-next_state}
use ancalagon.Supervisor.State.{World, Settings, Supervisor, Process, is_spawned}
use ancalagon.Supervisor.Ticks.{spawned_count, note, forget, finish}

-- An agent that has an event is in the table.
pub attempt-elem :
    (a : ℕ) (t : Tables) (x : Attempt)
    → IsSound t
    → attempt a t ≡ ok x
    → x ≢ Attempt.nascent
    → elem a (map (λ r. r.id) t.agents) ≡ true
unfolding attempt attempt_of fold_from
attempt-elem a t x w at begun = elim (Bool-cases (elem a (map (λ r. r.id) t.agents))) [
  | inl there ↦ there
  | inr gone ↦ absurd (
      begun (
        ok-eq (
          sym at
          ∙ ap attempt_of (
              select-nil (λ e. e.agent == a) t.events
                (All-mono (λ e. elem e.agent (map (λ r. r.id) t.agents) ≡ true) (other gone)
                  t.events w.known)))))
]
  where
    ok-eq : {A : Type 0} {y z : A} → ok y ≡ ok z → y ≡ z
    ok-eq h = cc

    other :
        elem a (map (λ r. r.id) t.agents) ≡ false
        → (e : AgentEvent) → elem e.agent (map (λ r. r.id) t.agents) ≡ true
        → (e.agent == a) ≡ false
    other gone e h = elim (Bool-cases (e.agent == a)) [
      | inl same ↦ absurd (ground (arith, ==_iff e.agent a))
      | inr differs ↦ differs
    ]

abbrev pub IsRunning : ℕ → Tables → Type 0
IsRunning a t = (pid : ℕ) × (attempt a t ≡ ok (Attempt.running pid))

pub record IsTended (s : Supervisor) : Type 0 where
  pub well_formed : WellFormed s.bus.tables
  pub closed : s.bus.begun ≡ false
  pub distinct : HasDistinctKeys s.live
  pub tended :
      (a : ℕ) (p : Process)
      → lookup a s.live ≡ some p
      → IsRunning a s.bus.tables × ((t : ℤ) × (lookup a s.started ≡ some t))

-- What a step about one agent leaves as it was: the states of the others, and the others' processes.
pub record IsAbout (a : ℕ) (s s' : Supervisor) : Type 0 where
  pub others : (b : ℕ) → (a == b) ≡ false → attempt b s'.bus.tables ≡ attempt b s.bus.tables
  pub lives : (b : ℕ) → (a == b) ≡ false → lookup b s'.live ≡ lookup b s.live
  pub starts : (b : ℕ) → (a == b) ≡ false → lookup b s'.started ≡ lookup b s.started

module _ (c : Settings) (w : World) where
  pub noted :
      (a : ℕ) (status : AgentStatus) (pid : ℕ) (summary : String) (seen : ℤ) (s : Supervisor)
      (x y : Attempt)
      → WellFormed s.bus.tables
      → s.bus.begun ≡ false
      → attempt a s.bus.tables ≡ ok x
      → x ≢ Attempt.nascent
      → next_state x status supervisor pid ≡ ok y
      → (b : Store) × (note c w a status pid summary seen s ≡ (ok tt, record s { bus = b }))
        × IsRecorded a y s.bus b
  noted a status pid summary seen s x y wf cl at begun legal =
      let (b, e, r) = subst (Does c.db w.now a status supervisor pid summary seen s.bus) legal (
        record_status-next_state c.db w.now a status supervisor pid summary seen s.bus x wf cl
          (attempt-elem a s.bus.tables x wf.sound at begun) at) in
      (b, rw e refl, r)

  -- An agent whose state allows the status is recorded and forgotten.
  pub finish_total :
      (a : ℕ) (status : AgentStatus) (summary : String) (seen : ℤ) (s : Supervisor) (x y : Attempt)
      → IsTended s
      → attempt a s.bus.tables ≡ ok x
      → x ≢ Attempt.nascent
      → next_state x status supervisor 0 ≡ ok y
      → (s' : Supervisor) × (finish c w a status summary seen s ≡ (ok tt, s'))
        × IsTended s'
        × IsAbout a s s'
        × (attempt a s'.bus.tables ≡ ok y)
        × (spawned_count s' ≤ spawned_count s)
  unfolding finish spawned_count
  finish_total a status summary seen s x y i at begun legal =
      let (b, e, r) = noted a status 0 summary seen s x y i.well_formed i.closed at begun legal in
      (
        forget c w a (record s { bus = b }),
        rw e refl,
        record {
          well_formed = r.well_formed;
          closed = r.closed;
          distinct = HasDistinctKeys-without a s.live i.distinct;
          tended = λ d p h. elim (Bool-cases (a == d)) [
            | inl same ↦ absurd (ground (arith, lookup-without a d s.live))
            | inr other ↦
                let ((pid, runs), (t, starts)) =
                  i.tended d p (sym (lookup-without a d s.live ∙ rw other refl) ∙ h) in
                (
                  (pid, r.others d other ∙ runs),
                  (t, lookup-without a d s.started ∙ rw other starts),
                )
          ];
        },
        record {
          others = λ d other. r.others d other;
          lives = λ d other. lookup-without a d s.live ∙ rw other refl;
          starts = λ d other. lookup-without a d s.started ∙ rw other refl;
        },
        r.moved,
        length-select-without (λ (p : ℕ × Process). is_spawned p.1) a s.live,
      )
