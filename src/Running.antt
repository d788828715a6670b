-- ===== src/Running.antt =====
-- run.py, worker.py and deterministic/run.py: how a run starts, and what one process does for one
-- attempt.
pub mod Root
pub mod Run
pub mod Rooted
pub mod Shut
pub mod Workers
pub mod Done
pub mod Samples
