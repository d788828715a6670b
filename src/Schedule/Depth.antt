-- ===== src/Schedule/Depth.antt =====
-- schedule/depth_of.py: how many ancestors an agent has, with a cap that a cycle runs into.
use ancalagon.Base.{
  ℕ, zero, suc, ◌+◌, ◌≤◌, ◌≡◌, ◌==◌, ==_iff, if◌then◌else◌, Result, ok, raise, value_error, ◌>>=◌,
  arith, Bool-cases, inl, inr, ◌↔◌, >>=-eq-ok, false, sym, subst, ap, ◌∙◌,
}
use ancalagon.Contracts.Status.{HarnessTask}
use ancalagon.Bus.Snapshots.{Snapshot}
use ancalagon.Schedule.Queries.{task_of}

abbrev pub max_hops : ℕ
max_hops = 64

-- `_depth_from`. `left` is how far `depth` is below MAX_HOPS.
unfoldable pub depth_from : Snapshot → ℕ → ℕ → ℕ → Result ℕ
depth_from snap zero current depth = if current == 0 then ok depth else raise value_error
depth_from snap (suc left) current depth =
    let rest = (do
      task ← task_of snap current
      depth_from snap left task.parent_agent (depth + 1)) in
    if current == 0 then ok depth else rest

unfoldable pub depth_of : Snapshot → ℕ → Result ℕ
unfolding depth_from task_of
depth_of snap agent = do task ← task_of snap agent; depth_from snap max_hops task.parent_agent 0

-- The chain of parents from an agent, or from the person who started the run, up to that person.
pub data Lineage (snap : Snapshot) : ℕ → ℕ → Type 0 where
  person : Lineage snap 0 0
  child :
      (a d : ℕ) (t : HarnessTask)
      → (a == 0) ≡ false
      → task_of snap a ≡ ok t
      → Lineage snap t.parent_agent d
      → Lineage snap a (suc d)

module _ (snap : Snapshot) where
  depth_from-Lineage :
      (left current depth r : ℕ)
      → depth_from snap left current depth ≡ ok r
      → (k : ℕ) × Lineage snap current k × (k ≤ left) × (r ≡ depth + k)
  unfolding depth_from
  depth_from-Lineage zero current depth r h = elim (Bool-cases (current == 0)) [
    | inl top ↦ (
      0,
      subst (λ a. Lineage snap a 0) (sym ((==_iff current 0).0 top)) person,
      omega arith,
      ground arith,
    )
    | inr below ↦ absurd (ground arith)
  ]
  depth_from-Lineage (suc left) current depth r h = elim (Bool-cases (current == 0)) [
    | inl top ↦ (
      0,
      subst (λ a. Lineage snap a 0) (sym ((==_iff current 0).0 top)) person,
      omega arith,
      ground arith,
    )
    | inr below ↦
        let (t, e, h') = >>=-eq-ok (task_of snap current) _ (rw below at h) in
        let (k, l, le, eq) = depth_from-Lineage left t.parent_agent (depth + 1) r h' in
        (suc k, child current k t below e l, omega arith, omega arith)
  ]

  Lineage-depth_from :
      (left current depth k : ℕ)
      → Lineage snap current k
      → k ≤ left
      → depth_from snap left current depth ≡ ok (depth + k)
  unfolding depth_from
  Lineage-depth_from zero _ depth _ person le = ap ok (omega arith)
  Lineage-depth_from (suc left) _ depth _ person le = ap ok (omega arith)
  Lineage-depth_from zero _ depth _ (child a d t n e l) le = absurd (omega arith)
  Lineage-depth_from (suc left) _ depth _ (child a d t n e l) le = rw n (
      rw e (
        Lineage-depth_from left t.parent_agent (depth + 1) d l (omega arith) ∙ ap ok (omega arith)))

-- `depth_of` returns a depth exactly where the agent has a task and that task's parents end, within
-- 64 hops, at the person who started the run; the depth is the number of those hops.
pub depth_of-Lineage :
    (snap : Snapshot) (agent d : ℕ)
    → (depth_of snap agent ≡ ok d) ↔ (
        (t : HarnessTask) × (task_of snap agent ≡ ok t)
        × Lineage snap t.parent_agent d
        × (d ≤ max_hops))
unfolding depth_of
depth_of-Lineage snap agent d = (there, back)
  where
    there :
        (task_of snap agent >>= λ task. depth_from snap max_hops task.parent_agent 0) ≡ ok d
        → (t : HarnessTask) × (task_of snap agent ≡ ok t)
          × Lineage snap t.parent_agent d
          × (d ≤ max_hops)
    there h =
        let (t, e, h') = >>=-eq-ok (task_of snap agent) _ h in
        let (k, l, le, eq) = depth_from-Lineage snap max_hops t.parent_agent 0 d h' in
        let d≡k : d ≡ k = omega arith in
        (t, e, subst (Lineage snap t.parent_agent) (sym d≡k) l, omega arith)

    back :
        (t : HarnessTask) × (task_of snap agent ≡ ok t)
          × Lineage snap t.parent_agent d
          × (d ≤ max_hops)
        → (task_of snap agent >>= λ task. depth_from snap max_hops task.parent_agent 0) ≡ ok d
    back (t, e, l, le) =
        rw e (Lineage-depth_from snap max_hops t.parent_agent 0 d l le ∙ ap ok (omega arith))
