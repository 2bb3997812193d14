-- ===== src/Track/Rollover.antt =====
-- The claim of a window rollover by one CPU: `lse_window_rollover_run_once` of lse_util_track.c.
use lunarkernel_sched_extent.Base.{ℕ, Bool, true, ◌==◌, if◌then◌else◌}
use lunarkernel_sched_extent.Monitor.Stats.{lse_stats_inc}
use lunarkernel_sched_extent.Track.Globals.{Globals}

-- What the CPUs share: the atomic `lse_run_rollover_lastq_ws`, whether the irq work is queued,
-- and the counters of lse_monitor.c that the update path increments.
pub record Shared : Type 0 where
  pub lse_run_rollover_lastq_ws : ℕ
  pub irq_work_queued : Bool
  pub lse_stats_update_cnt : ℕ
  pub lse_stats_rollover_cnt : ℕ

-- atomic64_cmpxchg: the value found, and the value left
abbrev pub atomic64_cmpxchg : ℕ → ℕ → ℕ → ℕ × ℕ
atomic64_cmpxchg v old new = (v, (if v == old then new else v))

-- what the CPU that won the exchange does
unfoldable pub queue_rollover : Globals → Shared → Shared
unfolding lse_stats_inc
queue_rollover g s = record s {
  irq_work_queued = true;
  lse_stats_rollover_cnt = lse_stats_inc g.slim_stats s.lse_stats_rollover_cnt;
}

unfoldable pub lse_window_rollover_run_once : Globals → ℕ → ℕ → Shared → Shared
unfolding queue_rollover
lse_window_rollover_run_once g old_window_start new_window_start s =
    if old_window_start == new_window_start
    then s
    else let (result, left) =
        atomic64_cmpxchg s.lse_run_rollover_lastq_ws old_window_start new_window_start in
      let s' = record s { lse_run_rollover_lastq_ws = left } in
      if result == old_window_start then queue_rollover g s' else s'
