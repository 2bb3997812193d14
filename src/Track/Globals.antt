-- ===== src/Track/Globals.antt =====
-- The global variables that lse_util_track.c reads.
use lunarkernel_sched_extent.Base.{ℕ, Bool}
use lunarkernel_sched_extent.Base.Int.{ℤ}

pub record Globals : Type 0 where
  pub lse_sched_ravg_window : ℕ
  pub new_lse_sched_ravg_window : ℕ
  pub lse_scale_demand_divisor : ℕ
  pub sched_window_stats_policy : ℤ
  pub lse_fg_prio_threshold : ℤ
  pub lse_boost_bg_pct : ℤ
  pub lse_boost_fg_pct : ℤ
  pub lse_boost_rt_pct : ℤ
  -- slim_walt_ctrl and slim_stats, as truth values
  pub slim_walt_ctrl : Bool
  pub slim_stats : Bool
  -- dump_info & LSE_DEBUG_PANIC
  pub debug_panic : Bool
