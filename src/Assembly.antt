-- ===== src/Assembly.antt =====
-- session_for.py: the tools that an agent is assembled with.
pub mod ToolClass
pub mod FileTools
pub mod TaskTools
pub mod Available
pub mod Permitting
pub mod Registering
pub mod Hooked
pub mod Permitted
pub mod Answerable
mod Samples
