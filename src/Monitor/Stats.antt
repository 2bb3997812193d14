-- ===== src/Monitor/Stats.antt =====
-- The statistics counters of lse_monitor.c.
use lunarkernel_sched_extent.Base.{ℕ, Bool, if◌then◌else◌}
use lunarkernel_sched_extent.Base.Word.{add64}

-- lse_stats_inc: a counter moves only while `slim_stats` is set.
unfoldable pub lse_stats_inc : Bool → ℕ → ℕ
lse_stats_inc slim_stats cnt = if slim_stats then add64 cnt 1 else cnt
