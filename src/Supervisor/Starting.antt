-- ===== src/Supervisor/Starting.antt =====
-- `_spawn` and `_start_queued` of supervisor/supervisor.py: on a well-formed bus they raise nothing,
-- and no more workers are started than are allowed.
use ancalagon.Base.{
  if-true, if-false, ==_iff, length-take, ℕ, ◌+◌, ◌-◌, ◌≤◌, ◌<◌, suc, pos, ◌≡◌, ◌≢◌, refl, false,
  ◌==◌, List, [], ◌∷◌, map, All, lookup-insert, elem, arith, length, take, leb, Bool-cases, inl,
  inr, ok, ◌∙◌, sym, ap, subst,
}
use ancalagon.Base.Order.{IsAscending, All-with}
use ancalagon.Base.Keys.{IsAscending-take, All-take}
use ancalagon.Base.Dicts.{HasDistinctKeys-insert, length-select-insert}
use ancalagon.Base.Exec.{for_each}
use ancalagon.Contracts.Status.{AgentStatus, supervisor}
use ancalagon.Attempt.{Attempt, next_state, in_closes}
use ancalagon.Bus.Rows.{AgentState, Tables}
use ancalagon.Bus.Log.{attempt}
use ancalagon.Bus.Waiting.{IsQueue}
use ancalagon.Bus.Claiming.{claim_total}
use ancalagon.Supervisor.State.{World, Settings, Supervisor, Process, spawned, Spawned, is_spawned}
use ancalagon.Supervisor.Ticks.{spawn, spawn_as, start_queued, spawned_count, remember}
use ancalagon.Supervisor.Invariant.{IsTended, IsAbout, noted, finish_total}

-- A spawn that does not end in an exception other than OSError.
abbrev pub IsAnswered : Spawned → Type 0
IsAnswered (Spawned.other e) = ⊥
IsAnswered _ = Unit

-- What a claimed attempt comes to when its worker is started.
abbrev pub started_as : Spawned → Attempt
started_as (Spawned.process pid) = Attempt.running pid
started_as _ = Attempt.lost AgentStatus.crashed

claimed-ne-nascent : Attempt.claimed ≢ Attempt.nascent
claimed-ne-nascent h = cc

running-of_claimed :
    (pid : ℕ)
    → next_state Attempt.claimed AgentStatus.running supervisor pid ≡ ok (Attempt.running pid)
unfolding next_state
running-of_claimed pid = refl

lost-of_claimed :
    next_state Attempt.claimed AgentStatus.crashed supervisor 0
    ≡ ok (Attempt.lost AgentStatus.crashed)
unfolding next_state in_closes
lost-of_claimed = refl

-- What starting one agent leaves.
record IsSpawned (w : World) (a : ℕ) (s s' : Supervisor) : Type 0 where
  tends : IsTended s'
  about : IsAbout a s s'
  moved : attempt a s'.bus.tables ≡ ok (started_as (w.spawn a))
  count : spawned_count s' ≤ suc (spawned_count s)

module _ (c : Settings) (w : World) where
  process_total :
      (a pid : ℕ) (s : Supervisor)
      → IsTended s
      → attempt a s.bus.tables ≡ ok Attempt.claimed
      → w.spawn a ≡ Spawned.process pid
      → (s' : Supervisor) × (spawn_as c w a (Spawned.process pid) s ≡ (ok tt, s'))
        × IsSpawned w a s s'
  unfolding spawn_as spawned_count
  process_total a pid s i at said =
      let (b, e, r) =
        noted c w a AgentStatus.running pid "" (pos 0) s Attempt.claimed (Attempt.running pid)
          i.well_formed i.closed at claimed-ne-nascent (running-of_claimed pid) in
      (
        remember c w a pid (record s { bus = b }),
        rw e refl,
        record {
          tends = record {
            well_formed = r.well_formed;
            closed = r.closed;
            distinct = HasDistinctKeys-insert a (spawned pid) s.live i.distinct;
            tended = λ d p h. elim (Bool-cases (a == d)) [
              | inl same ↦ (
                (
                  pid,
                  subst (λ d. attempt d b.tables ≡ ok (Attempt.running pid)) ((==_iff a d).0 same)
                      r.moved,
                ),
                (
                  pos (w.time_started a),
                  lookup-insert a d (pos (w.time_started a)) s.started ∙ rw same refl,
                ),
              )
              | inr other ↦
                  let ((pid', runs), (t, starts)) =
                    i.tended d p
                      (sym (lookup-insert a d (spawned pid) s.live ∙ rw other refl) ∙ h) in
                  (
                    (pid', r.others d other ∙ runs),
                    (t, lookup-insert a d (pos (w.time_started a)) s.started ∙ rw other starts),
                  )
            ];
          };
          about = record {
            others = λ d other. r.others d other;
            lives = λ d other. lookup-insert a d (spawned pid) s.live ∙ rw other refl;
            starts =
                λ d other. lookup-insert a d (pos (w.time_started a)) s.started ∙ rw other refl;
          };
          moved = r.moved ∙ rw said refl;
          count = length-select-insert (λ (p : ℕ × Process). is_spawned p.1) a (spawned pid) s.live;
        },
      )

  os_error_total :
      (a : ℕ) (s : Supervisor)
      → IsTended s
      → attempt a s.bus.tables ≡ ok Attempt.claimed
      → w.spawn a ≡ Spawned.os_error
      → (s' : Supervisor) × (spawn_as c w a Spawned.os_error s ≡ (ok tt, s')) × IsSpawned w a s s'
  unfolding spawn_as
  os_error_total a s i at said =
      let (s', e, i', about, moved, count) =
        finish_total c w a AgentStatus.crashed c.spawn_failed (pos 0) s Attempt.claimed
          (Attempt.lost AgentStatus.crashed) i at claimed-ne-nascent lost-of_claimed in
      (
        s',
        e,
        record { tends = i'; about = about; moved = moved ∙ rw said refl; count = omega arith },
      )

  spawn_total :
      (x : AgentState) (s : Supervisor)
      → IsAnswered (w.spawn x.agent)
      → IsTended s
      → attempt x.agent s.bus.tables ≡ ok Attempt.claimed
      → (s' : Supervisor) × (spawn c w x s ≡ (ok tt, s')) × IsSpawned w x.agent s s'
  unfolding spawn
  spawn_total x s answered i at = by (w.spawn x.agent) refl answered
    where
      by :
          (o : Spawned)
          → w.spawn x.agent ≡ o
          → IsAnswered o
          → (s' : Supervisor) × (spawn_as c w x.agent o s ≡ (ok tt, s')) × IsSpawned w x.agent s s'
      by (Spawned.process pid) said ok' = process_total x.agent pid s i at said
      by Spawned.os_error said ok' = os_error_total x.agent s i at said
      by (Spawned.other e) said ok' = absurd ok'

-- What starting some agents leaves.
pub record IsStarted (w : World) (states : List AgentState) (s s' : Supervisor) : Type 0 where
  pub tends : IsTended s'
  pub others :
      (b : ℕ)
      → elem b (map (λ x. x.agent) states) ≡ false
      → attempt b s'.bus.tables ≡ attempt b s.bus.tables
  pub started : All (λ x. attempt x.agent s'.bus.tables ≡ ok (started_as (w.spawn x.agent))) states
  pub count : spawned_count s' ≤ spawned_count s + length states

above-apart :
    (a : ℕ) (states : List AgentState)
    → All (λ i. a < i) (map (λ x. x.agent) states)
    → All (λ (x : AgentState). (a == x.agent) ≡ false) states
above-apart a [] h = tt
above-apart a (x ∷ states) h = (ground arith, above-apart a states h.1)

above-absent :
    (a : ℕ) (states : List AgentState)
    → All (λ i. a < i) (map (λ x. x.agent) states)
    → elem a (map (λ x. x.agent) states) ≡ false
above-absent a [] h = refl
above-absent a (x ∷ states) h =
    let other : (x.agent == a) ≡ false = ground arith in rw other (above-absent a states h.1)

spawn_each :
    (c : Settings) (w : World)
    → ((a : ℕ) → IsAnswered (w.spawn a))
    → (states : List AgentState) (s : Supervisor) → IsTended s
    → IsAscending (map (λ x. x.agent) states)
    → All (λ x. attempt x.agent s.bus.tables ≡ ok Attempt.claimed) states
    → (s' : Supervisor) × (for_each (spawn c w) states s ≡ (ok tt, s')) × IsStarted w states s s'
spawn_each c w answered [] s i up claims =
    (s, refl, record { tends = i; others = λ b h. refl; started = tt; count = omega arith })
spawn_each c w answered (x ∷ states) s i up claims =
    let (s₁, e, one) = spawn_total c w x s (answered x.agent) i claims.0 in
    let (s', rest, r) = spawn_each c w answered states s₁ one.tends up.1 (
      All-with (λ (y : AgentState). (x.agent == y.agent) ≡ false)
        (λ y o at. one.about.others y.agent o ∙ at) states (above-apart x.agent states up.0)
        claims.1) in
    (
      s',
      rw e rest,
      record {
        tends = r.tends;
        others = λ b h. r.others b (ground arith) ∙ one.about.others b (ground arith);
        started = (r.others x.agent (above-absent x.agent states up.0) ∙ one.moved, r.started);
        count = (let before = r.count in let step = one.count in omega arith);
      },
    )

-- An agent that runs is none of those that are queued.
running-absent :
    (d pid : ℕ) (t : Tables) (states : List AgentState)
    → attempt d t ≡ ok (Attempt.running pid)
    → All (λ x. attempt x.agent t ≡ ok Attempt.queued) states
    → elem d (map (λ x. x.agent) states) ≡ false
running-absent d pid t [] runs h = refl
running-absent d pid t (x ∷ states) runs h = elim (Bool-cases (x.agent == d)) [
  | inl same ↦ absurd (differs (sym h.0 ∙ ap (λ a. attempt a t) ((==_iff x.agent d).0 same) ∙ runs))
  | inr other ↦ rw other (running-absent d pid t states runs h.1)
]
  where
    differs : ok Attempt.queued ≢ ok (Attempt.running pid)
    differs e = cc

-- What `_start_queued` does: of the agents that are queued it starts the first, as many as are free.
pub record Starts (c : Settings) (w : World) (s s' : Supervisor) (states : List AgentState)
    : Type 0 where
  pub queue : IsQueue s.bus.tables s.bus.tables.agents states
  pub starts : IsStarted w (take (c.max_concurrent - spawned_count s) states) s s'
  pub bound : spawned_count s ≤ c.max_concurrent → spawned_count s' ≤ c.max_concurrent

in_bound :
    (before after taken limit : ℕ)
    → after ≤ before + taken
    → taken ≤ limit - before
    → before ≤ limit
    → after ≤ limit
in_bound before after taken limit h k b = omega arith

le_free : (free : ℕ) (states : List AgentState) → length (take free states) ≤ free
le_free free states = omega (arith, length-take free states)

-- Where a supervisor tends running agents and the spawner answers with a process or an OSError,
-- `_start_queued` raises nothing. It starts the first of the agents that are queued, as many as there
-- are free places: each is then running, or lost where its process could not be started. Every other
-- agent is as it was, the supervisor tends running agents, and it watches no more spawned processes
-- than it may where it did so before.
pub start_queued_total :
    (c : Settings) (w : World) (s : Supervisor)
    → ((a : ℕ) → IsAnswered (w.spawn a))
    → IsTended s
    → (states : List AgentState) × (s' : Supervisor) × (start_queued c w s ≡ (ok tt, s'))
      × Starts c w s s' states
unfolding start_queued
start_queued_total c w s answered i =
    let free = c.max_concurrent - spawned_count s in
    let (states, b, q, claims, r, shut) =
      claim_total c.db w.now free s.bus i.well_formed i.closed in
    elim (Bool-cases (leb free 0)) [
      | inl full ↦ (
        states,
        s,
        if-true _ _ full,
        record {
          queue = q;
          starts =
              let none_free : 0 ≡ c.max_concurrent - spawned_count s = ground arith in
              subst (λ n. IsStarted w (take n states) s s) none_free
                (record { tends = i; others = λ d h. refl; started = tt; count = omega arith });
          bound = λ h. h;
        },
      )
      | inr some_free ↦
          let (s', e, st) =
            spawn_each c w answered (take free states) (record s { bus = b })
              (record {
                well_formed = r.well_formed;
                closed = shut;
                distinct = i.distinct;
                tended = λ d p h.
                    let ((pid, runs), started) = i.tended d p h in
                    (
                      (
                        pid,
                        r.others d (
                              running-absent d pid s.bus.tables (take free states) runs (
                                All-take (λ x. attempt x.agent s.bus.tables ≡ ok Attempt.queued)
                                  free states q.all_queued))
                            ∙ runs,
                      ),
                      started,
                    );
              })
              (IsAscending-take (λ x. x.agent) free states q.ascend) r.all_claimed in
          (
            states,
            s',
            if-false _ _ some_free ∙ rw claims e,
            record {
              queue = q;
              starts = record {
                tends = st.tends;
                others = λ d h. st.others d h ∙ r.others d h;
                started = st.started;
                count = st.count;
              };
              bound = λ h.
                  in_bound (spawned_count s) (spawned_count s') (length (take free states))
                    c.max_concurrent st.count (le_free free states) h;
            },
          )
    ]
