-- ===== src/Bus.antt =====
-- bus/: the task queue and the append-only log of agent events.
pub mod Rows
pub mod Log
pub mod Queue
pub mod Snapshots
pub mod WellFormed
pub mod Enqueueing
pub mod Waiting
pub mod Publishing
pub mod Claiming
pub mod Recording
pub mod Runs
pub mod Meter
pub mod Totals
pub mod Samples
