-- ===== src/Schedule.antt =====
-- schedule/: what the supervisor and the tools ask of a snapshot.
pub mod Queries
pub mod News
pub mod Depth
mod Samples
