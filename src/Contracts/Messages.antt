-- ===== src/Contracts/Messages.antt =====
-- contracts/message.py, message_role.py, block.py, text.py, tool_use_from_model.py and
-- tool_result_block.py. A time is a number, and a path in a block is a text.
use ancalagon.Base.{ℕ, String, Bool, true, false, List}

pub data MessageRole : Type 0 where
  user assistant : MessageRole

pub record ToolUseFromModel : Type 0 where
  pub id : String
  pub name : String
  pub arguments : String

pub record ToolResultBlock : Type 0 where
  pub tool_use_id : String
  pub content : String
  pub is_error : Bool
  pub path : String
  pub byte_count : ℕ

pub data Block : Type 0 where
  text : String → Block
  tool_use : ToolUseFromModel → Block
  tool_result : ToolResultBlock → Block

pub record Message : Type 0 where
  pub role : MessageRole
  pub blocks : List Block
  pub agent : ℕ
  pub seq : ℕ
  pub ts : ℕ

abbrev pub is_user : MessageRole → Bool
is_user MessageRole.user = true
is_user MessageRole.assistant = false
