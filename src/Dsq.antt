-- ===== src/Dsq.antt =====
-- lse_dsq.c and lse_dsq.h, the dispatch queues: the operations in one module each, and the modules
-- that prove what they keep and do.
pub mod Queue
pub mod Classify
pub mod Enqueue
pub mod Dequeue
pub mod Timeout
pub mod Dump
pub mod Schedule
pub mod Sync
pub mod Invariant
pub mod Keeps
pub mod Filed
pub mod Misfiled
pub mod Scan
pub mod Walk
pub mod Quiet
pub mod Drain
pub mod Effects
pub mod Backlog
mod Tests
