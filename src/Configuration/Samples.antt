-- ===== src/Configuration/Samples.antt =====
-- A document with two roles, one of which names a run function, and the theorems at it.
use ancalagon.Base.{
  same_path, os_error, All, same_text, if◌then◌else◌, raise, value_error, pos, String, true, false,
  List, [], ◌∷◌, ok, ◌≡◌, ◌↔◌, refl, inl, inr,
}
use ancalagon.Session.Faults.{ClassRef, free_text}
use ancalagon.Configuration.Document.{
  fence, counted, unlimited, SerialisableRole, DocumentFromConfig, Config,
}
use ancalagon.Configuration.Roles.{
  Python, no_run_ref, is_role_name, named_role, role_written, derived,
}
use ancalagon.Configuration.Loading.{
  on_path, config_with, config_from, config_stated, root, optional_root, run_settings,
}
use ancalagon.Configuration.Derived.{Configured}
use ancalagon.Configuration.Configured.{IsStated, with_base, config_from-Configured}
use ancalagon.Configuration.Contracts.{Imports, check_contracts}
use ancalagon.Configuration.Sound.{IsSound, Ends, check_contracts-IsSound}

abbrev ref : String → ClassRef
ref name = record { source = "contracts"; name = name }

abbrev role_with : ClassRef → ClassRef → ClassRef → SerialisableRole
role_with run input answer = record {
  behaviour = "map the code";
  profile = ref "Answering";
  input = input;
  answer = answer;
  answer_file = ref "NoAnswerFile";
  run = run;
  tools = "read_file" ∷ [];
  budget = record { turns = counted (pos 20); tool_calls = unlimited };
  before = [];
  after = [];
}

abbrev written : List (String × SerialisableRole)
written =
    ("scout", role_with no_run_ref (ref "Question") free_text)
    ∷ ("watcher_2", role_with (ref "watch_for") free_text free_text)
    ∷ []

abbrev made : List (String × SerialisableRole)
made =
    ("scout", role_with no_run_ref (ref "Question") free_text)
    ∷ ("watcher_2", role_with (ref "watch_for") (ref "WatchRequest") (ref "Watched"))
    ∷ []

abbrev python : Python
python = record {
  path_of = λ text. text ∷ [];
  str = λ path. "base";
  is_absolute = λ path. false;
  expanduser = λ path. if same_path path ("~nobody" ∷ []) then raise os_error else ok path;
  resolve = λ path. ok path;
  run_contracts = λ run. ok (ref "WatchRequest", ref "Watched");
}

abbrev document : DocumentFromConfig
document = record {
  workspace = record { home = "runs"; write_roots = "out" ∷ []; read_roots = [] };
  model = record {
    name = "model";
    custom_llm_provider = "";
    num_retries = pos 3;
    request_timeout_s = pos 300;
    max_tokens = pos 8000;
    allowed_domains = [];
  };
  limits = record {
    max_concurrent_agents = pos 4;
    agent_timeout_s = pos 3600;
    max_depth = pos 1;
    compact_above_tokens = pos 60000;
    keep_recent_messages = pos 8;
    summary_chars = pos 1000;
  };
  run = record { goal_file = "goal.md"; input_file = ""; role = "scout" };
  sandbox = record { strategy = fence };
  base = "";
  log = record { socket = "" };
  web = record { allowed_domains = [] };
  roles = written;
}

-- The pattern's `$` lets a line feed end a role's name.
role_name_with_line_feed : is_role_name "scout\n" ≡ true
unfolding is_role_name
role_name_with_line_feed = refl

made-Configured : Configured python written made
unfolding is_role_name
made-Configured = (
  refl,
  refl,
  inl (refl, refl),
  (refl, refl, inr (refl, refl, refl, (ref "WatchRequest", ref "Watched", refl, refl)), tt),
)

abbrev configured : Config
configured = record {
  home = "base" ∷ "runs" ∷ [];
  write_roots = ("base" ∷ "out" ∷ []) ∷ [];
  read_roots = [];
  roles = made;
  run = record { goal_file = "base"; input_file = ""; role = "scout" };
  model = "model";
  custom_llm_provider = "";
  num_retries = pos 3;
  request_timeout_s = pos 300;
  max_tokens = pos 8000;
  max_concurrent_agents = pos 4;
  agent_timeout_s = pos 3600;
  max_depth = pos 1;
  compact_above_tokens = pos 60000;
  keep_recent_messages = pos 8;
  summary_chars = pos 1000;
  allowed_domains = [];
  web_domains = [];
  import_paths = ("base" ∷ []) ∷ [];
  log_socket = "";
  sandbox = fence;
}

config_from-Configured_example :
    (config_from python ("base" ∷ []) document [] ≡ (ok configured, "base" ∷ [])) ↔ (
      IsStated python ("base" ∷ []) document configured
      × ("base" ∷ [] ≡ with_base python ("base" ∷ []) []))
config_from-Configured_example =
    config_from-Configured python ("base" ∷ []) document configured [] ("base" ∷ [])

configured_from_document :
    config_from python ("base" ∷ []) document [] ≡ (ok configured, "base" ∷ [])
unfolding config_from config_stated on_path root optional_root run_settings config_with named_role
    role_written derived is_role_name same_path
configured_from_document = refl

configured-IsStated : IsStated python ("base" ∷ []) document configured
configured-IsStated =
    ((config_from-Configured python ("base" ∷ []) document configured [] ("base" ∷ [])).0
      configured_from_document).0

-- Every class loads but the one that is called "Watched".
abbrev imports : Imports
imports = record {
  Kind = Unit {0};
  resolve_class = λ class. if same_text class.name "Watched" then raise value_error else ok tt;
  resolve_profile = λ class. ok tt;
  faults = λ kind name role. ok "";
  brings = λ kind. [];
  assembles = λ name role. ok tt;
}

check_contracts-IsSound_example :
    ((check_contracts imports written ≡ ok tt) ↔ All (IsSound imports) written)
    × Ends imports (check_contracts imports written)
check_contracts-IsSound_example = check_contracts-IsSound imports written

written-IsSound : All (IsSound imports) written
unfolding check_contracts
written-IsSound = (check_contracts-IsSound imports written).0.0 refl

made_refused : check_contracts imports made ≡ raise value_error
unfolding check_contracts
made_refused = refl
