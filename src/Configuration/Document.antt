-- ===== src/Configuration/Document.antt =====
-- config/document_from_config.py, config/config.py, sandbox/strategy.py and
-- contracts/serialisable_role.py: a configuration as it is written, and as a run is given it.
use ancalagon.Base.{ℤ, String, FilePath, List}
use ancalagon.Session.Faults.{ClassRef}
use ancalagon.Running.Root.{RunSettings}

pub data Strategy : Type 0 where
  none : Strategy
  fence : Strategy

-- `int | Literal["infinite"]`.
pub data Count : Type 0 where
  counted : (value : ℤ) → Count
  unlimited : Count

pub record SerialisableBudget : Type 0 where
  pub turns : Count
  pub tool_calls : Count

pub record SerialisableRole : Type 0 where
  pub behaviour : String
  pub profile : ClassRef
  pub input : ClassRef
  pub answer : ClassRef
  pub answer_file : ClassRef
  pub run : ClassRef
  pub tools : List String
  pub budget : SerialisableBudget
  pub before : List (String × List ClassRef)
  pub after : List (String × List ClassRef)

pub record WorkspaceFromConfig : Type 0 where
  pub home : String
  pub write_roots : List String
  pub read_roots : List String

pub record ModelFromConfig : Type 0 where
  pub name : String
  pub custom_llm_provider : String
  pub num_retries : ℤ
  pub request_timeout_s : ℤ
  pub max_tokens : ℤ
  pub allowed_domains : List String

pub record LimitsFromConfig : Type 0 where
  pub max_concurrent_agents : ℤ
  pub agent_timeout_s : ℤ
  pub max_depth : ℤ
  pub compact_above_tokens : ℤ
  pub keep_recent_messages : ℤ
  pub summary_chars : ℤ

pub record RunFromConfig : Type 0 where
  pub goal_file : String
  pub input_file : String
  pub role : String

pub record SandboxFromConfig : Type 0 where
  pub strategy : Strategy

pub record LogFromConfig : Type 0 where
  pub socket : String

pub record WebFromConfig : Type 0 where
  pub allowed_domains : List String

pub record DocumentFromConfig : Type 0 where
  pub workspace : WorkspaceFromConfig
  pub model : ModelFromConfig
  pub limits : LimitsFromConfig
  pub run : RunFromConfig
  pub sandbox : SandboxFromConfig
  pub base : String
  pub log : LogFromConfig
  pub web : WebFromConfig
  pub roles : List (String × SerialisableRole)

pub record Config : Type 0 where
  pub home : FilePath
  pub read_roots : List FilePath
  pub write_roots : List FilePath
  pub model : String
  pub custom_llm_provider : String
  pub roles : List (String × SerialisableRole)
  pub max_tokens : ℤ
  pub num_retries : ℤ
  pub request_timeout_s : ℤ
  pub max_concurrent_agents : ℤ
  pub agent_timeout_s : ℤ
  pub max_depth : ℤ
  pub summary_chars : ℤ
  pub compact_above_tokens : ℤ
  pub keep_recent_messages : ℤ
  pub run : RunSettings
  pub allowed_domains : List String
  pub web_domains : List String
  pub import_paths : List FilePath
  pub log_socket : String
  pub sandbox : Strategy
