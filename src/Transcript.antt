-- ===== src/Transcript.antt =====
-- transcript/ and fork.py: what a model is shown of a conversation, and how one is resumed.
pub mod Demote
pub mod History
pub mod Fork
pub mod File
pub mod Written
mod Samples
