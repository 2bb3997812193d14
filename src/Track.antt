-- ===== src/Track.antt =====
-- lse_util_track.c, the window-assisted load tracking: one module for each stage of
-- `lse_update_task_ravg`, and the modules that prove what the stages do.
pub mod Globals
pub mod Classify
pub mod Window
pub mod History
pub mod Demand
pub mod Busy
pub mod Rollover
pub mod Update
pub mod Aligned
pub mod Accounted
pub mod Total
pub mod Kept
pub mod Once
pub mod Conserve
pub mod Charge
pub mod Bounded
mod Recent
mod Refine
pub mod Tests
