-- ===== src/Tools.antt =====
-- tools/ and workspace/: how a call is checked and run, where tools may read and write, and the
-- tools that work on the bus.
pub mod Hooks
pub mod Workspace
pub mod Delegation
pub mod Compare
pub mod Paging
pub mod Context
pub mod Files
pub mod Pages
pub mod Lines
pub mod Reading
pub mod Refusing
mod Samples
