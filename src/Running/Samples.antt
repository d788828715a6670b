-- ===== src/Running/Samples.antt =====
-- A run whose files are all one text, and the theorems at it.
use ancalagon.Base.{
  ℕ, String, same_text, FilePath, true, [], ◌∷◌, List, ok, raise, Result, ◌≡◌, refl, value_error,
}
use ancalagon.Base.Exec.{Exec, pure}
use ancalagon.Session.Profiles.{Outcome}
use ancalagon.Supervisor.Samples.{settings, world, fresh}
use ancalagon.Tools.Workspace.{FileSystem}
use ancalagon.Running.Root.{
  RunSettings, Values, AgentSpec, role_named, text_of, goal_of, input_given, from_goal,
  as_value_error, root_spec,
}
use ancalagon.Running.Rooted.{IsRooted, root_spec-IsRooted}
use ancalagon.Running.Run.{RunState, RunConfig, Outside, run}
use ancalagon.Running.Shut.{WatchesNone, run-WatchesNone}
use ancalagon.Running.Workers.{
  Attempting, deterministic_main, deterministic_outcome, nothing_spent, set_up, worker_main,
  session_outcome,
}
use ancalagon.Running.Done.{IsWritable, Done, mains-Done}

abbrev pub one_file : FileSystem String
one_file = record {
  expanduser = λ p. p;
  resolve = λ p. p;
  parent = λ p. p;
  read_text = λ p content. (ok content, content);
  iterdir = λ p. pure [];
  changed_at = λ p. pure 0;
  exists = λ p. pure true;
  is_file = λ p. pure true;
  is_dir = λ p. pure true;
  append = λ p s. pure tt;
  write_text = λ p text content. (ok tt, text);
  mkdir = λ p a b. pure tt;
  unlink = λ p. pure tt;
}

abbrev values : Values
values = record {
  Role = String;
  Class = String;
  Value = String;
  path_of = λ text. text ∷ [];
  is_blank = λ text. same_text text "";
  input_class = λ role. ok role;
  from_json = λ class content. ok content;
  from_text = λ class goal. ok goal;
}

abbrev asked : RunSettings
asked = record { goal_file = "goal.md"; input_file = ""; role = "root" }

abbrev roles : List (String × String)
roles = ("root", "FreeText") ∷ []

abbrev spec : AgentSpec values
spec = record { task_id = "root"; role = "FreeText"; goal = "Look around."; input = "Look around." }

root_spec-IsRooted_example : IsRooted values one_file asked roles spec
unfolding root_spec role_named goal_of text_of input_given from_goal as_value_error
root_spec-IsRooted_example =
    root_spec-IsRooted values one_file asked roles "Look around." "Look around." spec refl

abbrev config : RunConfig values
config = record {
  settings = asked;
  roles = roles;
  supervising = settings;
  config_json = "{}";
  spec_json = λ s. s.goal;
  outcome_name = λ agent. "outcome.json";
}

abbrev outside : Outside values String
outside = record {
  OutcomeValue = String;
  on_path = pure tt;
  check_contracts = pure tt;
  answer_class = λ role. ok role;
  read_outcome = λ class content. ok content;
}

abbrev before : RunState String
before = record { files = "Look around."; supervisor = fresh }

run-WatchesNone_example :
    WatchesNone String
      ((run values one_file config outside world (world ∷ []) ("run" ∷ []) before).1)
run-WatchesNone_example =
    run-WatchesNone values one_file config outside world (world ∷ []) ("run" ∷ []) before
      (refl, refl)

abbrev attempting : Attempting String
attempting = record {
  Config = String;
  Spec = String;
  Class = String;
  Value = String;
  read_config = λ content. ok content;
  on_path = λ c. pure tt;
  read_spec = λ content. ok content;
  input_class = λ s. ok s;
  read_input = λ class content. ok content;
  outcome_json = λ outcome. "{}";
  traceback = λ e. "";
  message = λ e. "";
}

abbrev outcome_path : FilePath
outcome_path = "outcome-1.json" ∷ []

-- The function that this attempt runs raises.
abbrev resolve_run : String → Result (String → Exec String Outcome)
resolve_run _ = ok (λ given s. (raise value_error, s))

abbrev session : String → String → String → ℕ → Exec String Outcome
session _ _ given depth = pure (Outcome.completed "42" "done" nothing_spent)

one_file-IsWritable : IsWritable one_file outcome_path
one_file-IsWritable text s = (text, refl, refl)

mains-Done_example :
    ((code : ℕ) × (s' : String) × (deterministic_main attempting one_file outcome_path resolve_run
          [] [] "{}"
        ≡ (ok code, s'))
      × Done attempting one_file outcome_path
          (deterministic_outcome attempting one_file outcome_path resolve_run [] [])
          "{}"
          code
          s')
    × ((config : String) (ready : String)
        → set_up attempting one_file outcome_path
            (pure tt)
            (pure tt)
            (λ s. s)
            (pure 0)
            session
            []
            "{}"
          ≡ (ok config, ready)
        → (code : ℕ) × (s' : String) × (worker_main attempting one_file outcome_path
              (pure tt)
              (pure tt)
              (λ s. s)
              (pure 0)
              session
              []
              []
              "{}"
            ≡ (ok code, s'))
          × Done attempting one_file outcome_path
              (session_outcome attempting one_file outcome_path
                (pure tt)
                (pure tt)
                (λ s. s)
                (pure 0)
                session
                config
                [])
              ready
              code
              s')
mains-Done_example =
    mains-Done attempting one_file outcome_path [] [] resolve_run (pure tt) (pure tt) (λ s. s)
      (pure 0) session "{}" one_file-IsWritable
