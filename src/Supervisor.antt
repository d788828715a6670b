-- ===== src/Supervisor.antt =====
-- supervisor/: spawning, reaping and waking the workers of a run.
pub mod State
pub mod Ticks
pub mod Stale
pub mod Invariant
pub mod Reaping
pub mod Starting
pub mod Samples
