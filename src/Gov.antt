-- ===== src/Gov.antt =====
-- cpufreq_lse.c, the cpufreq governor: the utilisation of a cluster, its target load, the next
-- frequency, and the paths that command it.
pub mod Policy
pub mod Util
pub mod Target
pub mod Freq
pub mod Tick
pub mod Rollover
pub mod Attrs
pub mod Start
pub mod Attach
pub mod Detach
mod Undo
mod Taken
mod Leave
pub mod Bounds
pub mod Next
pub mod Top2
pub mod Cache
pub mod Settle
pub mod Tests
