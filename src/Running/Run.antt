-- ===== src/Running/Run.antt =====
-- `run` of run.py and `_outcome_of`: the root task is queued, the supervisor runs until it idles, and the
-- outcome of the root's newest agent is read.
use ancalagon.Base.{
  ℕ, String, FilePath, Bool, true, if◌then◌else◌, List, [], ◌∷◌, ◌++◌, Option, none, some, Result,
  raise, require, key_error, no_outcome,
}
use ancalagon.Base.Exec.{Exec, pure, lift, ◌>>=◌, ◌>>◌}
use ancalagon.Bus.Log.{task_at}
use ancalagon.Bus.Snapshots.{snapshot}
use ancalagon.Bus.Queue.{enqueue}
use ancalagon.Schedule.Queries.{newest_agent}
use ancalagon.Supervisor.State.{World, Settings, Supervisor, on_bus}
use ancalagon.Supervisor.Stale.{run_until_idle, shutdown}
use ancalagon.Tools.Workspace.{FileSystem}
use ancalagon.Running.Root.{RunSettings, Values, AgentSpec, role_named, root_spec}

-- The files of the run and its supervisor. The store is seen through two connections.
pub record RunState (W : Type 0) : Type 0 where
  pub files : W
  pub supervisor : Supervisor

-- `try: ... finally: ...`, whose last part changes a state and raises nothing.
abbrev pub finally : {S A : Type 0} → Exec S A → (S → S) → Exec S A
finally m after s = let (r, s') = m s in (r, after s')

module _ {W A : Type 0} where
  abbrev pub in_files : Exec W A → Exec (RunState W) A
  in_files op s = let (r, w) = op s.files in (r, record s { files = w })

  abbrev pub in_supervisor : Exec Supervisor A → Exec (RunState W) A
  in_supervisor op s = let (r, x) = op s.supervisor in (r, record s { supervisor = x })

-- What `run` takes of its configuration, and the texts that it writes.
pub record RunConfig (v : Values) : Type 0 where
  pub settings : RunSettings
  pub roles : List (String × v.Role)
  pub supervising : Settings
  pub config_json : String
  pub spec_json : AgentSpec v → String
  pub outcome_name : ℕ → String

-- What the checks of a configuration come to, and what reading an outcome does.
pub record Outside (v : Values) (W : Type 0) : Type 1 where
  pub OutcomeValue : Type 0
  pub on_path : Exec W (Unit {0})
  pub check_contracts : Exec W (Unit {0})
  pub answer_class : v.Role → Result v.Class
  pub read_outcome : v.Class → String → Result OutcomeValue

module _ {W : Type 0} (v : Values) (fs : FileSystem W) (c : RunConfig v) (o : Outside v W) where
  -- `_outcome_of`.
  unfoldable pub outcome_of : FilePath → Exec (RunState W) o.OutcomeValue
  unfolding task_at snapshot newest_agent role_named
  outcome_of task_dir = do
    task ← (λ (s : RunState W). lift (task_at task_dir s.supervisor.bus.tables) s)
    snap ← (λ (s : RunState W). lift (snapshot s.supervisor.bus) s)
    newest ← lift (newest_agent snap task.id)
    written ← in_files (fs.exists (task_dir ++ c.outcome_name newest ∷ []))
    (if written then pure tt else lift (raise no_outcome))
    role ← lift (require key_error (role_named c.settings.role c.roles))
    answer ← lift (o.answer_class role)
    content ← in_files (fs.read_text (task_dir ++ c.outcome_name newest ∷ []))
    lift (o.read_outcome answer content)

  -- Supervision, which is shut down whether or not it raises.
  unfoldable pub supervised : World → List World → Exec (RunState W) Bool
  unfolding run_until_idle shutdown
  supervised w worlds =
      finally (in_supervisor (run_until_idle c.supervising w worlds))
        (λ s. record s { supervisor = shutdown s.supervisor })

  -- What comes before: the checks, the root's files and its place in the queue.
  unfoldable pub queued_root : World → FilePath → Exec (RunState W) (Unit {0})
  unfolding root_spec enqueue
  queued_root w run_dir =
      let task_dir = run_dir ++ "tasks" ∷ "root" ∷ [] in
      do
        in_files o.on_path
        in_files o.check_contracts
        in_files (fs.mkdir run_dir true true)
        in_files (fs.write_text (run_dir ++ "config.json" ∷ []) c.config_json)
        in_files (fs.mkdir task_dir true true)
        spec ← in_files (root_spec v fs c.settings c.roles)
        in_files (fs.write_text (task_dir ++ "spec.json" ∷ []) (c.spec_json spec))
        agent ← in_supervisor (on_bus (enqueue c.supervising.db w.now task_dir 0))
        pure tt

  -- `run`, over the worlds that its supervisor meets: no outcome when they are not enough for it to idle.
  unfoldable pub run : World → List World → FilePath → Exec (RunState W) (Option o.OutcomeValue)
  unfolding queued_root supervised outcome_of
  run w worlds run_dir = do
    queued_root w run_dir
    idle ← supervised w worlds
    if idle
        then (do outcome ← outcome_of (run_dir ++ "tasks" ∷ "root" ∷ []); pure (some outcome))
        else pure none
