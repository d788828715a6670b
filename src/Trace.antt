-- ===== src/Trace.antt =====
-- trace/: a run's lifecycle events and transcripts as one graph.
pub mod Nodes
pub mod Graph
pub mod Ordering
pub mod Starts
pub mod Whole
mod Samples
