-- ===== src/Schedule/News.antt =====
-- schedule/is_news.py, has_news.py and wakeable.py: which idling parents are to be woken.
use ancalagon.Base.{
  ℕ, ℤ, pos, ltb_ℤ, Bool, true, false, not, if◌then◌else◌, Option, none, some, List, [], ◌∷◌, map,
  elem, select, lookup, max?, Result, ok, require, key_error, value_error, ◌>>=◌, collect_result,
}
use ancalagon.Contracts.Status.{AgentStatus, AgentEvent, HarnessTask, same_status}
use ancalagon.Attempt.{Attempt}
use ancalagon.Bus.Snapshots.{Snapshot}
use ancalagon.Schedule.Queries.{attempt_in, events_in, newest_agent}

-- The match of `is_news`.
unfoldable pub tells : Attempt → Bool
tells (Attempt.closed verdict) = not (same_status verdict AgentStatus.idling)
tells (Attempt.lost close) = true
tells _ = false

unfoldable pub is_news : Snapshot → ℕ → Result Bool
unfolding tells
is_news snap agent = do attempt ← attempt_in snap agent; ok (tells attempt)

later_than : ℤ → List AgentEvent → Result Bool
later_than seen_through events = do
  greatest ← require value_error (max? (map (λ e. e.id) events))
  ok (ltb_ℤ seen_through (pos greatest))

settled_since : Snapshot → ℤ → ℕ → Bool → Result Bool
settled_since snap seen_through newest false = ok false
settled_since snap seen_through newest true = do
  events ← events_in snap newest
  later_than seen_through events

-- Whether a child, of these agents' tasks, settled after the watermark.
unfoldable pub child_news : Snapshot → List ℕ → ℤ → HarnessTask → Result Bool
unfolding newest_agent is_news settled_since later_than
child_news snap mine seen_through child =
    let settled = (do
      newest ← newest_agent snap child.id
      news ← is_news snap newest
      settled_since snap seen_through newest news) in
    if elem child.parent_agent mine then settled else ok false

-- `any(...)`: what follows the first that passes is not looked at.
unfoldable pub any_child : (HarnessTask → Result Bool) → List HarnessTask → Result Bool
any_child test [] = ok false
any_child test (t ∷ tasks) =
    let rest = any_child test tasks in do found ← test t; if found then ok true else rest

-- Of a parent's events that say it idled: with none or several it is not waiting.
unfoldable pub news_since : Snapshot → ℕ → List AgentEvent → Result Bool
unfolding any_child child_news
news_since snap task (idled ∷ []) = do
  mine ← require key_error (lookup task snap.agents_by_task)
  any_child (child_news snap mine idled.seen_through) snap.tasks
news_since snap task _ = ok false

unfoldable pub has_news : Snapshot → ℕ → Result Bool
unfolding newest_agent news_since
has_news snap task = do
  parent ← newest_agent snap task
  events ← events_in snap parent
  news_since snap task (select (λ e. same_status e.status AgentStatus.idling) events)

abbrev wake_if : Snapshot → HarnessTask → Result (Option HarnessTask)
wake_if snap t = do news ← has_news snap t.id; ok (if news then some t else none)

unfoldable pub wakeable : Snapshot → Result (List HarnessTask)
unfolding has_news
wakeable snap = collect_result (wake_if snap) snap.tasks
