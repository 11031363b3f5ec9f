-- ===== src/Cmd.antt =====
-- The program cmd/krnlsentry: the filter on a tree of processes, the pipeline from the collector to
-- the sinks, the replay of a capture, and what the command line sets up.
pub mod PidFilter
pub mod ProcStat
pub mod Pipeline
pub mod Replay
pub mod Setup
