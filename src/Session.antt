-- ===== src/Session.antt =====
-- session.py and what it decides with: tools/registry, the profiles, and the loop of an agent.
pub mod Tools
pub mod Profiles
pub mod Answering
pub mod Faults
pub mod Rounds
pub mod Loop
mod Samples
