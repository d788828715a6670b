-- ===== src/Bus/Runs.antt =====
-- The bus under every interleaving of the transactions of its users: supervisors that claim, and
-- workers and parents that record and enqueue, each on a connection of its own.
use ancalagon.Base.{
  ℕ, ℤ, String, FilePath, ◌≤◌, ◌<◌, ◌≡◌, refl, true, false, ◌==◌, ==_iff, List, map, elem, take,
  Result, ok, raise, ok-injective, sym, subst, ◌∙◌, ap, arith, Bool-cases, inl, inr,
}
use mathlib.Core.Path.{subst₂}
use ancalagon.Base.Keys.{All-elem, All-take}
use ancalagon.Contracts.Status.{AgentStatus, EventSource}
use ancalagon.Attempt.{Attempt, next_state}
use ancalagon.Attempt.Table.{
  Legal, enqueue, claim, spawn, speak, lose, abandon, collect_closed, collect_lost,
  next_state-Legal,
}
use ancalagon.Bus.Rows.{AgentState, Database, Tables}
use ancalagon.Bus.Log.{Store, Reading, attempt, record_status}
use ancalagon.Bus.Queue
use ancalagon.Bus.WellFormed.{WellFormed}
use ancalagon.Bus.Recording.{Does, record_status-next_state}
use ancalagon.Bus.Enqueueing.{enqueue_total}
use ancalagon.Bus.Claiming.{claim_total}

-- How far an attempt has come.
abbrev pub rank : Attempt → ℕ
rank Attempt.nascent = 0
rank Attempt.queued = 1
rank Attempt.claimed = 2
rank (Attempt.running pid) = 3
rank (Attempt.closed verdict) = 4
rank (Attempt.lost close) = 4
rank (Attempt.collected verdict spoke) = 5

Legal-rank :
    {x y : Attempt} {s : AgentStatus} {src : EventSource} {pid : ℕ}
    → Legal x s src pid y
    → rank x < rank y
Legal-rank (enqueue p) = omega arith
Legal-rank (claim p) = omega arith
Legal-rank (spawn p) = omega arith
Legal-rank (speak s q p v) = omega arith
Legal-rank (lose s q p v) = omega arith
Legal-rank (abandon s p v) = omega arith
Legal-rank (collect_closed s p) = omega arith
Legal-rank (collect_lost s p) = omega arith

-- One transaction on a connection that has none open, whatever comes of it.
pub data Step (db : Database) (t t' : Tables) : Type 0 where
  records :
      (now : Reading → ℕ) (a : ℕ) (status : AgentStatus) (source : EventSource) (pid : ℕ)
      (summary : String) (seen : ℤ) (s : Store)
      → s.begun ≡ false
      → elem a (map (λ r. r.id) s.tables.agents) ≡ true
      → s.tables ≡ t
      → (record_status db now a status source pid summary seen s).1.tables ≡ t'
      → Step db t t'
  enqueues :
      (now : Reading → ℕ) (dir : FilePath) (parent : ℕ) (s : Store)
      → s.begun ≡ false
      → s.tables ≡ t
      → (Queue.enqueue db now dir parent s).1.tables ≡ t'
      → Step db t t'
  claims :
      (now : Reading → ℕ) (limit : ℕ) (s : Store)
      → s.begun ≡ false
      → s.tables ≡ t
      → (Queue.claim db now limit s).1.tables ≡ t'
      → Step db t t'

pub data Steps (db : Database) (t : Tables) : Tables → Type 0 where
  here : Steps db t t
  next : {u v : Tables} → Steps db t u → Step db u v → Steps db t v

-- What every transaction keeps: the tables are well-formed, and no attempt goes back.
pub record Goes (t t' : Tables) : Type 0 where
  pub well_formed : WellFormed t'
  pub onward :
      (a : ℕ) (x : Attempt)
      → attempt a t ≡ ok x
      → (y : Attempt) × (attempt a t' ≡ ok y) × (rank x ≤ rank y)

stays : (t : Tables) → WellFormed t → Goes t t
stays t w = record { well_formed = w; onward = λ a x e. (x, e, omega arith) }

-- One agent moves on and the others stay.
moves :
    (t t' : Tables) (a : ℕ) (x y : Attempt)
    → WellFormed t'
    → attempt a t ≡ ok x
    → attempt a t' ≡ ok y
    → rank x ≤ rank y
    → ((b : ℕ) → (a == b) ≡ false → attempt b t' ≡ attempt b t)
    → Goes t t'
moves t t' a x y w before after le others = record {
  well_formed = w;
  onward = λ b z e. elim (Bool-cases (a == b)) [
    | inl same ↦
        let a≡b : a ≡ b = (==_iff a b).0 same in
        let x≡z : ok x ≡ ok z = sym before ∙ ap (λ i. attempt i t) a≡b ∙ e in
        (y, subst (λ i. attempt i t' ≡ ok y) a≡b after, rank_le z x≡z)
    | inr other ↦ (z, others b other ∙ e, omega arith)
  ];
}
  where
    rank_le : (z : Attempt) → ok x ≡ ok z → rank z ≤ rank y
    rank_le z e = subst (λ u. rank u ≤ rank y) (ok-injective e) le

next_state-rank :
    (x y : Attempt) (status : AgentStatus) (source : EventSource) (pid : ℕ)
    → next_state x status source pid ≡ ok y
    → rank x ≤ rank y
next_state-rank x y status source pid e =
    omega (arith, Legal-rank ((next_state-Legal x status source pid y).0 e))

module _ (db : Database) (now : Reading → ℕ) (s : Store) (w : WellFormed s.tables)
    (open' : s.begun ≡ false) where
  records-Goes :
      (a : ℕ) (status : AgentStatus) (source : EventSource) (pid : ℕ) (summary : String) (seen : ℤ)
      → elem a (map (λ r. r.id) s.tables.agents) ≡ true
      → Goes s.tables (record_status db now a status source pid summary seen s).1.tables
  records-Goes a status source pid summary seen m =
      let (x, at) = w.folds a in
      go x at (next_state x status source pid) refl
        (record_status-next_state db now a status source pid summary seen s x w open' m at)
    where
      go :
          (x : Attempt)
          → attempt a s.tables ≡ ok x
          → (r : Result Attempt) → next_state x status source pid ≡ r
          → Does db now a status source pid summary seen s r
          → Goes s.tables (record_status db now a status source pid summary seen s).1.tables
      go x at (raise e) is d =
          subst (λ (p : Result (Unit {0}) × Store). Goes s.tables p.1.tables) (sym d)
            (stays s.tables w)
      go x at (ok y) is (s', d, r) =
          subst (λ (p : Result (Unit {0}) × Store). Goes s.tables p.1.tables) (sym d)
            (moves s.tables s'.tables a x y r.well_formed at r.moved
              (next_state-rank x y status source pid is) r.others)

  enqueues-Goes :
      (dir : FilePath) (parent : ℕ) → Goes s.tables (Queue.enqueue db now dir parent s).1.tables
  enqueues-Goes dir parent =
      let (agent, s', d, r) = enqueue_total db now dir parent s w open' in
      subst (λ (p : Result ℕ × Store). Goes s.tables p.1.tables) (sym d)
        (moves s.tables s'.tables agent Attempt.nascent Attempt.queued r.well_formed r.was_new
          r.is_queued (omega arith) r.others)

  claims-Goes : (limit : ℕ) → Goes s.tables (Queue.claim db now limit s).1.tables
  claims-Goes limit =
      let (states, s', q, d, c, _) = claim_total db now limit s w open' in
      subst (λ (p : Result (List AgentState) × Store). Goes s.tables p.1.tables) (sym d)
        (record {
          well_formed = c.well_formed;
          onward = λ b x e. elim (Bool-cases (elem b (map (λ s. s.agent) (take limit states)))) [
            | inl is ↦ (
              Attempt.claimed,
              All-elem (λ (x : AgentState). x.agent) (λ i. attempt i s'.tables ≡ ok Attempt.claimed)
                  b (take limit states) c.all_claimed is,
              rank_le b x e (
                  All-elem (λ (x : AgentState). x.agent)
                    (λ i. attempt i s.tables ≡ ok Attempt.queued) b (take limit states)
                    (All-take (λ s'. attempt s'.agent s.tables ≡ ok Attempt.queued) limit states
                      q.all_queued)
                    is),
            )
            | inr isnt ↦ (x, c.others b isnt ∙ e, omega arith)
          ];
        })
    where
      rank_le :
          (b : ℕ) (x : Attempt)
          → attempt b s.tables ≡ ok x
          → attempt b s.tables ≡ ok Attempt.queued
          → rank x ≤ 2
      rank_le b x e q = subst (λ u. rank u ≤ 2) (ok-injective (sym q ∙ e)) (omega arith)

Step-Goes : {db : Database} {t t' : Tables} → Step db t t' → WellFormed t → Goes t t'
Step-Goes {db} {t} {t'} (records now a status source pid summary seen s o m e e') w =
    subst₂ Goes e e'
      (records-Goes db now s (subst WellFormed (sym e) w) o a status source pid summary seen m)
Step-Goes {db} (enqueues now dir parent s o e e') w =
    subst₂ Goes e e' (enqueues-Goes db now s (subst WellFormed (sym e) w) o dir parent)
Step-Goes {db} (claims now limit s o e e') w =
    subst₂ Goes e e' (claims-Goes db now s (subst WellFormed (sym e) w) o limit)

-- Whatever the users of a well-formed bus do, and in whatever order, the bus stays well-formed, and
-- no attempt goes back to an earlier stage of its life.
pub Steps-Goes : (db : Database) (t t' : Tables) → WellFormed t → Steps db t t' → Goes t t'
Steps-Goes db t t' w here = stays t w
Steps-Goes db t t' w (next {u = u} steps step) =
    let before = Steps-Goes db t u w steps in
    let after = Step-Goes step before.well_formed in
    record {
      well_formed = after.well_formed;
      onward = λ a x e.
          let (y, at, le) = before.onward a x e in
          let (z, at', le') = after.onward a y at in (z, at', omega arith);
    }

-- No agent is claimed twice: what one `claim` returned no later one returns, whatever else the users
-- of the bus did in between.
pub claim-claim_disjoint :
    (db : Database) (now now' : Reading → ℕ) (limit limit' : ℕ) (s s₁ s₂ s₃ : Store)
    (first second : List AgentState)
    → WellFormed s.tables
    → s.begun ≡ false
    → Queue.claim db now limit s ≡ (ok first, s₁)
    → Steps db s₁.tables s₂.tables
    → s₂.begun ≡ false
    → Queue.claim db now' limit' s₂ ≡ (ok second, s₃)
    → (a : ℕ) → elem a (map (λ x. x.agent) first) ≡ true
    → elem a (map (λ x. x.agent) second) ≡ false
claim-claim_disjoint db now now' limit limit' s s₁ s₂ s₃ first second w o e steps o' e' a m =
    let (states, t₁, q, d, c, _) = claim_total db now limit s w o in
    let p = sym d ∙ e in
    let first_eq : take limit states ≡ first = claimed-fst p in
    let tables_eq : t₁.tables ≡ s₁.tables = claimed-snd p in
    let was : attempt a s₁.tables ≡ ok Attempt.claimed =
      subst (λ t. attempt a t ≡ ok Attempt.claimed) tables_eq
        (All-elem (λ (x : AgentState). x.agent) (λ i. attempt i t₁.tables ≡ ok Attempt.claimed) a
          (take limit states) c.all_claimed
          (subst (λ (l : List AgentState). elem a (map (λ x. x.agent) l) ≡ true) (sym first_eq)
            m)) in
    let g = Steps-Goes db s₁.tables s₂.tables (subst WellFormed tables_eq c.well_formed) steps in
    let (y, now_at, le) = g.onward a Attempt.claimed was in
    let (states', t₂, q', d', c', _) = claim_total db now' limit' s₂ g.well_formed o' in
    let second_eq : take limit' states' ≡ second = claimed-fst (sym d' ∙ e') in
    elim (Bool-cases (elem a (map (λ x. x.agent) second))) [
      | inl again ↦ absurd (
          late y le (
            sym now_at
            ∙ All-elem (λ (x : AgentState). x.agent) (λ i. attempt i s₂.tables ≡ ok Attempt.queued)
                a (take limit' states')
                (All-take (λ x. attempt x.agent s₂.tables ≡ ok Attempt.queued) limit' states'
                  q'.all_queued)
                (subst (λ (l : List AgentState). elem a (map (λ x. x.agent) l) ≡ true)
                  (sym second_eq) again)))
      | inr not ↦ not
    ]
  where
    claimed-fst :
        {l l' : List AgentState} {u u' : Store}
        → ◌≡◌ {A = Result (List AgentState) × Store} (ok l, u) (ok l', u')
        → l ≡ l'
    claimed-fst p = ok-injective (ap (λ (r : Result (List AgentState) × Store). r.0) p)

    claimed-snd :
        {l l' : List AgentState} {u u' : Store}
        → ◌≡◌ {A = Result (List AgentState) × Store} (ok l, u) (ok l', u')
        → u.tables ≡ u'.tables
    claimed-snd p = ap (λ (r : Result (List AgentState) × Store). r.1.tables) p

    late : (y : Attempt) → 2 ≤ rank y → ok y ≡ ok Attempt.queued → ⊥
    late y le e = absurd (bad (subst (λ u. 2 ≤ rank u) (ok-injective e) le))
      where
        bad : 2 ≤ 1 → ⊥
        bad h = omega arith
