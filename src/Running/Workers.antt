-- ===== src/Running/Workers.antt =====
-- worker.py and deterministic/run.py: one attempt at a task, whose outcome is written down whatever
-- becomes of it.
use ancalagon.Base.{ℕ, String, take_text, FilePath, ◌++◌, [], ◌∷◌, Result, ok, raise, Exception}
use ancalagon.Base.Exec.{Exec, pure, lift, ◌>>=◌, ◌>>◌}
use ancalagon.Contracts.Budgets.{Spend}
use ancalagon.Session.Profiles.{Outcome}
use ancalagon.Tools.Workspace.{FileSystem}
use ancalagon.Running.Run.{finally}

-- `try: ... except Exception as exc: ...`.
abbrev pub caught : {S A : Type 0} → (Exception → Exec S A) → Result A × S → Result A × S
caught handler (ok a, s) = (ok a, s)
caught handler (raise e, s) = handler e s

abbrev pub except : {S A : Type 0} → Exec S A → (Exception → Exec S A) → Exec S A
except m handler s = caught handler (m s)

-- The values of one attempt and what is done with them: the validation of the configuration, of the
-- task's spec and of its input, the imports of their classes, and the texts that are written.
pub record Attempting (W : Type 0) : Type 1 where
  pub Config : Type 0
  pub Spec : Type 0
  pub Class : Type 0
  pub Value : Type 0
  pub read_config : String → Result Config
  pub on_path : Config → Exec W (Unit {0})
  pub read_spec : String → Result Spec
  pub input_class : Spec → Result Class
  pub read_input : Class → String → Result Value
  -- the outcome as JSON, the traceback of an exception and its text
  pub outcome_json : Outcome → String
  pub traceback : Exception → String
  pub message : Exception → String

-- `SUMMARY_CHARS`, and `NOTHING`.
abbrev pub summary_chars : ℕ
summary_chars = 200

abbrev pub nothing_spent : Spend
nothing_spent = record { turns = 0; tool_calls = 0 }

module _ {W : Type 0} (a : Attempting W) (fs : FileSystem W) (outcome_path : FilePath) where
  unfoldable pub failure_of : Exception → Outcome
  failure_of e =
      Outcome.failed (a.traceback e) (take_text summary_chars (a.message e)) nothing_spent

  -- The `try` of both `main`s: the outcome or the failure is written, and the code says which.
  unfoldable pub recorded : Exec W Outcome → Exec W ℕ
  unfolding failure_of
  recorded work =
      except (do outcome ← work; fs.write_text outcome_path (a.outcome_json outcome); pure 0)
        (λ e. do fs.write_text outcome_path (a.outcome_json (failure_of e)); pure 1)

  -- The spec of the task and the input that it gives.
  unfoldable pub task_given : FilePath → Exec W (a.Spec × a.Value)
  task_given task_dir = do
    content ← fs.read_text (task_dir ++ "spec.json" ∷ [])
    spec ← lift (a.read_spec content)
    class ← lift (a.input_class spec)
    given ← lift (a.read_input class content)
    pure (spec, given)

  -- `_outcome` of deterministic/run.py, where `resolve_run` gives the function that the role names.
  unfoldable pub deterministic_outcome :
      (a.Spec → Result (a.Value → Exec W Outcome)) → FilePath → FilePath → Exec W Outcome
  unfolding task_given
  deterministic_outcome resolve_run config_path task_dir = do
    content ← fs.read_text config_path
    config ← lift (a.read_config content)
    a.on_path config
    task ← task_given task_dir
    run ← lift (resolve_run task.0)
    run task.1

  -- `main` of deterministic/run.py.
  unfoldable pub deterministic_main :
      (a.Spec → Result (a.Value → Exec W Outcome)) → FilePath → FilePath → Exec W ℕ
  unfolding deterministic_outcome recorded
  deterministic_main resolve_run config_path task_dir =
      recorded (deterministic_outcome resolve_run config_path task_dir)

  -- `main` of worker.py. The transcript and the bus are opened before the `try`, the depth is asked of
  -- the bus, and the session is assembled from the task and run.
  module _ (open_transcript open_bus : Exec W (Unit {0})) (close_transcript : W → W)
      (depth : Exec W ℕ) (session : a.Config → a.Spec → a.Value → ℕ → Exec W Outcome) where
    unfoldable pub session_outcome : a.Config → FilePath → Exec W Outcome
    unfolding task_given
    session_outcome config task_dir = do
      task ← task_given task_dir
      hops ← depth
      session config task.0 task.1 hops

    -- What comes before the `try`.
    unfoldable pub set_up : FilePath → Exec W a.Config
    set_up config_path = do
      content ← fs.read_text config_path
      config ← lift (a.read_config content)
      a.on_path config
      open_transcript
      open_bus
      pure config

    unfoldable pub worker_main : FilePath → FilePath → Exec W ℕ
    unfolding set_up session_outcome recorded
    worker_main config_path task_dir = do
      config ← set_up config_path
      finally (recorded (session_outcome config task_dir)) close_transcript
