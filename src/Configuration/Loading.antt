-- ===== src/Configuration/Loading.antt =====
-- config/from_document.py and config/on_path.py: the configuration that a document states.
use ancalagon.Base.{
  String, same_text, FilePath, not, any, if◌then◌else◌, List, [], ◌∷◌, ◌++◌, map, select, ok,
  map_result, Result, ◌>>=◌,
}
use ancalagon.Base.Exec.{Exec}
use ancalagon.Running.Root.{RunSettings}
use ancalagon.Configuration.Document.{SerialisableRole, RunFromConfig, DocumentFromConfig, Config}
use ancalagon.Configuration.Roles.{Python, named_role}

module _ (py : Python) where
  -- `on_path`, of `sys.path`.
  unfoldable pub on_path : List FilePath → Exec (List String) (Unit {0})
  on_path paths s = (ok tt, s ++ select (λ p. not (any (same_text p) s)) (map py.str paths))

  module _ (base : FilePath) where
    -- `_root`.
    unfoldable pub root : String → Result FilePath
    root value = do
      given ← py.expanduser (py.path_of value)
      py.resolve (if py.is_absolute given then given else base ++ given)

    -- `_optional_root`.
    unfoldable pub optional_root : String → Result String
    unfolding root
    optional_root value =
        if same_text value "" then ok "" else (do path ← root value; ok (py.str path))

    -- `_run_settings`.
    unfoldable pub run_settings : RunFromConfig → Result RunSettings
    unfolding optional_root
    run_settings run = do
      goal_file ← optional_root run.goal_file
      input_file ← optional_root run.input_file
      ok (record { goal_file = goal_file; input_file = input_file; role = run.role })

    -- `Config(...)` of `config_from`, with the arguments that may raise.
    unfoldable pub config_with :
        DocumentFromConfig
        → FilePath
        → List FilePath
        → List FilePath
        → List (String × SerialisableRole)
        → RunSettings
        → Config
    config_with raw home write_roots read_roots roles run = record {
      home = home;
      read_roots = read_roots;
      write_roots = write_roots;
      model = raw.model.name;
      custom_llm_provider = raw.model.custom_llm_provider;
      roles = roles;
      max_tokens = raw.model.max_tokens;
      num_retries = raw.model.num_retries;
      request_timeout_s = raw.model.request_timeout_s;
      max_concurrent_agents = raw.limits.max_concurrent_agents;
      agent_timeout_s = raw.limits.agent_timeout_s;
      max_depth = raw.limits.max_depth;
      summary_chars = raw.limits.summary_chars;
      compact_above_tokens = raw.limits.compact_above_tokens;
      keep_recent_messages = raw.limits.keep_recent_messages;
      run = run;
      allowed_domains = raw.model.allowed_domains;
      web_domains = raw.web.allowed_domains;
      import_paths = base ∷ [];
      log_socket = raw.log.socket;
      sandbox = raw.sandbox.strategy;
    }

    -- The arguments of `Config(...)`, in their order.
    unfoldable pub config_stated : DocumentFromConfig → Result Config
    unfolding root run_settings named_role config_with
    config_stated raw = do
      home ← root raw.workspace.home
      write_roots ← map_result root raw.workspace.write_roots
      read_roots ← map_result root raw.workspace.read_roots
      roles ← map_result (named_role py) raw.roles
      run ← run_settings raw.run
      ok (config_with raw home write_roots read_roots roles run)

    -- `config_from`.
    unfoldable pub config_from : DocumentFromConfig → Exec (List String) Config
    unfolding on_path config_stated
    config_from raw s = (config_stated raw, (on_path (base ∷ []) s).1)
