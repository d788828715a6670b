-- ===== src/Tools/Delegation.antt =====
-- tools/delegate/, tools/idle/, children/bus_children.py and answer.py: what an agent asks of the
-- bus about the tasks it delegated. What a tool tells the model is a value, that its text is
-- formatted from.
use ancalagon.Base.{
  ℕ, pos, String, FilePath, Bool, true, false, any, if◌then◌else◌, List, [], ◌∷◌, ◌++◌, map,
  maximum, select, has_key, lookup, Result, ok, raise, Exception, key_error, value_error, require,
}
use ancalagon.Base.Errors
use ancalagon.Base.Exec.{Exec, pure, lift, ◌>>=◌, ◌>>◌}
use ancalagon.Contracts.Status.{AgentStatus, worker, AgentEvent, same_status}
use ancalagon.Attempt.{Attempt}
use ancalagon.Bus.Log.{Store, Reading, record_status}
use ancalagon.Bus.Rows.{Database}
use ancalagon.Bus.Queue.{enqueue}
use ancalagon.Bus.Snapshots.{Snapshot, snapshot}
use ancalagon.Schedule.Queries.{
  attempt_in, events_in, addressed, latest_event, latest_of, task_of, outstanding, live_children,
  uncollected, active_for,
}
use ancalagon.Session.Profiles.{Outcome}

pub data Report : Type 0 where
  no_agent : (asked : ℕ) → Report
  status : (newest : ℕ) (latest : AgentEvent) → Report
  unready : (newest : ℕ) (attempt : Attempt) → Report
  answer : (value : String) → Report
  no_answer : (newest : ℕ) (outcome : Outcome) → Report
  lost : (newest : ℕ) (close : AgentStatus) (summary : String) → Report
  already : (agent : ℕ) (status : AgentStatus) → Report
  queued : (agent : ℕ) → Report
  answered : (asked agent : ℕ) → Report
  refused : Exception → Report

abbrev pub snapped : Exec Store Snapshot
snapped s = (snapshot s, s)

-- `CheckTask.run`.
unfoldable pub check_task : ℕ → Exec Store Report
check_task task = do
  snap ← snapped
  if has_key task snap.task_by_agent
      then (do
        newest ← lift (addressed snap task)
        latest ← lift (latest_event snap newest)
        pure (Report.status newest latest))
      else pure (Report.no_agent task)

-- `BusChildren`.
unfoldable pub children_outstanding : ℕ → Exec Store (List ℕ)
children_outstanding agent = do snap ← snapped; lift (live_children snap agent)

unfoldable pub children_uncollected : ℕ → Exec Store (List ℕ)
children_uncollected agent = do
  snap ← snapped
  task ← lift (require key_error (lookup agent snap.task_by_agent))
  lift (uncollected snap task)

all_ids : List (ℕ × List AgentEvent) → List ℕ
all_ids [] = []
all_ids ((agent, events) ∷ rest) = map (λ e. e.id) events ++ all_ids rest

-- `Idle.run`: who is waited for, and the greatest event there was.
unfoldable pub idle : ℕ → Exec Store (List ℕ × ℕ)
unfolding all_ids
idle agent = do
  snap ← snapped
  waiting_for ← lift (live_children snap agent)
  pure (waiting_for, maximum (all_ids snap.events))

module _ (db : Database) (now : Reading → ℕ) where
  abbrev note_collected : ℕ → Exec Store (Unit {0})
  note_collected agent = record_status db now agent AgentStatus.collected worker 0 "" (pos 0)

  -- A settled task is collected, and one that will be woken is only read.
  collect_unless : ℕ → Bool → Exec Store (Unit {0})
  collect_unless newest true = pure tt
  collect_unless newest false = note_collected newest

  -- What the files of a task hold of an agent's outcome.
  module _ (outcome_at : FilePath → ℕ → Result Outcome) where
    report_of : ℕ → Outcome → Report
    report_of newest (Outcome.completed value summary spent) = Report.answer value
    report_of newest (Outcome.exhausted value summary spent) = Report.answer value
    report_of newest outcome = Report.no_answer newest outcome

    -- `_read_closed`.
    unfoldable pub read_closed : Snapshot → ℕ → ℕ → Exec Store Report
    unfolding collect_unless report_of
    read_closed snap task newest = do
      waits ← lift (outstanding snap task)
      collect_unless newest waits
      of ← lift (task_of snap newest)
      outcome ← lift (outcome_at of.dir newest)
      pure (report_of newest outcome)

    -- `_read_lost`.
    unfoldable pub read_lost : Snapshot → ℕ → ℕ → AgentStatus → Exec Store Report
    unfolding collect_unless
    read_lost snap task newest close = do
      waits ← lift (outstanding snap task)
      collect_unless newest waits
      events ← lift (events_in snap newest)
      closing ← lift (latest_of (select (λ e. same_status e.status close) events))
      pure (Report.lost newest close closing.summary)

    answered_by : Snapshot → ℕ → ℕ → Attempt → Exec Store Report
    unfolding read_closed read_lost
    answered_by snap task newest (Attempt.closed verdict) = read_closed snap task newest
    answered_by snap task newest (Attempt.lost close) = read_lost snap task newest close
    answered_by snap task newest attempt = pure (Report.unready newest attempt)

    -- `_answered`.
    unfoldable pub collect_answered : Snapshot → ℕ → Exec Store Report
    unfolding answered_by
    collect_answered snap asked = do
      task ← lift (require key_error (lookup asked snap.task_by_agent))
      newest ← lift (addressed snap asked)
      attempt ← lift (attempt_in snap newest)
      answered_by snap task newest attempt

    -- `CollectTask.run`.
    unfoldable pub collect_task : ℕ → Exec Store Report
    unfolding collect_answered
    collect_task asked = do
      snap ← snapped
      if has_key asked snap.task_by_agent
          then collect_answered snap asked
          else pure (Report.no_agent asked)

  already_at : Snapshot → ℕ → Exec Store Report
  already_at snap agent = do
    latest ← lift (latest_event snap agent)
    pure (Report.already agent latest.status)

  -- The spec file that is written before the task is queued.
  module _ (write_spec : FilePath → Result (Unit {0})) where
    delegate_unless : FilePath → ℕ → Snapshot → List ℕ → Exec Store Report
    unfolding already_at enqueue
    delegate_unless dir parent snap (agent ∷ active) = already_at snap agent
    delegate_unless dir parent snap [] = do
      lift (write_spec dir)
      agent ← enqueue db now dir parent
      pure (Report.queued agent)

    -- `DelegateTo.run`.
    unfoldable pub delegate_to : FilePath → ℕ → Exec Store Report
    unfolding delegate_unless
    delegate_to dir parent = do
      snap ← snapped
      active ← lift (active_for snap dir)
      delegate_unless dir parent snap active

  -- `_asked`.
  unfoldable pub has_asked : Snapshot → ℕ → Result (Unit {0})
  has_asked snap agent =
      let said =
        (Errors.◌>>=◌ (events_in snap agent) (λ events.
          if any (λ (e : AgentEvent). same_status e.status AgentStatus.needs_input) events
          then ok tt
          else Errors.◌>>=◌ (latest_event snap agent) (λ _. raise value_error))) in
      if has_key agent snap.task_by_agent then said else raise key_error

  refuse_active : Snapshot → List ℕ → Result (Unit {0})
  refuse_active snap [] = ok tt
  refuse_active snap (agent ∷ active) =
      Errors.◌>>=◌ (latest_event snap agent) (λ _. raise value_error)

  -- `_unanswered`.
  unfoldable pub is_unanswered : Snapshot → ℕ → Result (Unit {0})
  unfolding refuse_active
  is_unanswered snap agent =
      Errors.◌>>=◌ (task_of snap agent)
        (λ task. Errors.◌>>=◌ (active_for snap task.dir) (λ active. refuse_active snap active))

  -- The answer is appended to the task's transcript before the task is queued again.
  module _ (append_answer : FilePath → Result (Unit {0})) where
    -- `answer_task` of answer.py.
    unfoldable pub answer_task : ℕ → Exec Store ℕ
    unfolding has_asked is_unanswered
    answer_task agent = do
      snap ← snapped
      lift (has_asked snap agent)
      lift (is_unanswered snap agent)
      task ← lift (task_of snap agent)
      lift (append_answer task.dir)
      enqueue db now task.dir task.parent_agent

    reported : ℕ → Result ℕ × Store → Result Report × Store
    reported asked (ok agent, s) = (ok (Report.answered asked agent), s)
    reported asked (raise Exception.key_error, s) = (ok (Report.refused Exception.key_error), s)
    reported asked (raise Exception.value_error, s) = (ok (Report.refused Exception.value_error), s)
    reported asked (raise x, s) = (raise x, s)

    -- `AnswerTask.run`.
    unfoldable pub answer_task_run : ℕ → Exec Store Report
    unfolding answer_task reported
    answer_task_run asked s = reported asked (answer_task asked s)
