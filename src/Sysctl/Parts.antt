-- ===== src/Sysctl/Parts.antt =====
-- What a store to a variable does to the parts that it switches.

use lunarkernel_sched_extent.Base.{◌≡◌, true}
use lunarkernel_sched_extent.Base.Int.{ℤ}
use lunarkernel_sched_extent.Sysctl.Table.{
  Setting, slim_walt_ctrl, slim_stats, heartbeat, lse_fg_prio_threshold, lse_boost_bg_pct,
  lse_boost_fg_pct, lse_boost_rt_pct, sched_window_stats_policy, frame_per_sec,
  sysctl_lse_gov_debug, highres_tick_ctrl, heartbeat_enable, watchdog_enable, lse_dsq_enable,
  lse_dsq_rescue_enable, lse_dsq_max_depth, highres_tick_ctrl_dbg, util_norm_enable,
  cluster_window_enable, cluster_tl_dyn_enable, cluster_freq_cap_enable, cluster_agg_mode,
  gov_legacy_formula_enable, sysctl_zero,
}
use lunarkernel_sched_extent.Sysctl.Memory.{Call, Memory, refresh, store}
use lunarkernel_sched_extent.Sysctl.Rest.{MonitorSynced, ShadowSynced, DsqSynced, Synced}

-- The part of the module that a variable switches on and off.
pub data Part : Type 0 where
  no_part the_monitor the_dsq the_shadow : Part

abbrev pub part_of : Setting → Part
part_of slim_walt_ctrl = no_part
part_of slim_stats = no_part
part_of heartbeat = no_part
part_of lse_fg_prio_threshold = no_part
part_of lse_boost_bg_pct = no_part
part_of lse_boost_fg_pct = no_part
part_of lse_boost_rt_pct = no_part
part_of sched_window_stats_policy = no_part
part_of frame_per_sec = no_part
part_of sysctl_lse_gov_debug = no_part
part_of highres_tick_ctrl = the_shadow
part_of heartbeat_enable = the_monitor
part_of watchdog_enable = the_monitor
part_of lse_dsq_enable = the_dsq
part_of lse_dsq_rescue_enable = the_dsq
part_of lse_dsq_max_depth = no_part
part_of highres_tick_ctrl_dbg = no_part
part_of util_norm_enable = no_part
part_of cluster_window_enable = no_part
part_of cluster_tl_dyn_enable = no_part
part_of cluster_freq_cap_enable = no_part
part_of cluster_agg_mode = no_part
part_of gov_legacy_formula_enable = no_part
part_of sysctl_zero = no_part

-- a variable that switches nothing
pub store-Synced :
    (c : Call) (x : Setting) (v : ℤ) (m : Memory)
    → part_of x ≡ no_part
    → Synced c m
    → Synced c (store x v m)
unfolding store refresh
store-Synced c slim_walt_ctrl v m p h = h
store-Synced c slim_stats v m p h = h
store-Synced c heartbeat v m p h = h
store-Synced c lse_fg_prio_threshold v m p h = h
store-Synced c lse_boost_bg_pct v m p h = h
store-Synced c lse_boost_fg_pct v m p h = h
store-Synced c lse_boost_rt_pct v m p h = h
store-Synced c sched_window_stats_policy v m p h = h
store-Synced c frame_per_sec v m p h = h
store-Synced c sysctl_lse_gov_debug v m p h = h
store-Synced c highres_tick_ctrl v m p h = cc
store-Synced c heartbeat_enable v m p h = cc
store-Synced c watchdog_enable v m p h = cc
store-Synced c lse_dsq_enable v m p h = cc
store-Synced c lse_dsq_rescue_enable v m p h = cc
store-Synced c lse_dsq_max_depth v m p h = h
store-Synced c highres_tick_ctrl_dbg v m p h = h
store-Synced c util_norm_enable v m p h = h
store-Synced c cluster_window_enable v m p h = h
store-Synced c cluster_tl_dyn_enable v m p h = h
store-Synced c cluster_freq_cap_enable v m p h = h
store-Synced c cluster_agg_mode v m p h = h
store-Synced c gov_legacy_formula_enable v m p h = h
store-Synced c sysctl_zero v m p h = h

-- a variable of one part leaves the others as they are
pub store-parts :
    (c : Call) (x : Setting) (v : ℤ) (m : Memory)
    → Synced c m
    → let s = (store x v m).system in
      (s.monitor.lse_monitor_inited ≡ true)
      × (s.shadow.lse_shadow_tick_inited ≡ true)
      × ((part_of x ≡ the_monitor) → ShadowSynced c.rqs s.shadow × DsqSynced c.k s.config s.dsq)
      × ((part_of x ≡ the_dsq) → MonitorSynced s.monitor × ShadowSynced c.rqs s.shadow)
      × ((part_of x ≡ the_shadow) → MonitorSynced s.monitor × DsqSynced c.k s.config s.dsq)
unfolding store refresh
store-parts c slim_walt_ctrl v m h = (h.0.0, h.1.0, (λ p. cc), (λ p. cc), (λ p. cc))
store-parts c slim_stats v m h = (h.0.0, h.1.0, (λ p. cc), (λ p. cc), (λ p. cc))
store-parts c heartbeat v m h = (h.0.0, h.1.0, (λ p. cc), (λ p. cc), (λ p. cc))
store-parts c lse_fg_prio_threshold v m h = (h.0.0, h.1.0, (λ p. cc), (λ p. cc), (λ p. cc))
store-parts c lse_boost_bg_pct v m h = (h.0.0, h.1.0, (λ p. cc), (λ p. cc), (λ p. cc))
store-parts c lse_boost_fg_pct v m h = (h.0.0, h.1.0, (λ p. cc), (λ p. cc), (λ p. cc))
store-parts c lse_boost_rt_pct v m h = (h.0.0, h.1.0, (λ p. cc), (λ p. cc), (λ p. cc))
store-parts c sched_window_stats_policy v m h = (h.0.0, h.1.0, (λ p. cc), (λ p. cc), (λ p. cc))
store-parts c frame_per_sec v m h = (h.0.0, h.1.0, (λ p. cc), (λ p. cc), (λ p. cc))
store-parts c sysctl_lse_gov_debug v m h = (h.0.0, h.1.0, (λ p. cc), (λ p. cc), (λ p. cc))
store-parts c highres_tick_ctrl v m h = (h.0.0, h.1.0, (λ p. cc), (λ p. cc), (λ p. (h.0, h.2)))
store-parts c heartbeat_enable v m h = (h.0.0, h.1.0, (λ p. (h.1, h.2)), (λ p. cc), (λ p. cc))
store-parts c watchdog_enable v m h = (h.0.0, h.1.0, (λ p. (h.1, h.2)), (λ p. cc), (λ p. cc))
store-parts c lse_dsq_enable v m h = (h.0.0, h.1.0, (λ p. cc), (λ p. (h.0, h.1)), (λ p. cc))
store-parts c lse_dsq_rescue_enable v m h = (h.0.0, h.1.0, (λ p. cc), (λ p. (h.0, h.1)), (λ p. cc))
store-parts c lse_dsq_max_depth v m h = (h.0.0, h.1.0, (λ p. cc), (λ p. cc), (λ p. cc))
store-parts c highres_tick_ctrl_dbg v m h = (h.0.0, h.1.0, (λ p. cc), (λ p. cc), (λ p. cc))
store-parts c util_norm_enable v m h = (h.0.0, h.1.0, (λ p. cc), (λ p. cc), (λ p. cc))
store-parts c cluster_window_enable v m h = (h.0.0, h.1.0, (λ p. cc), (λ p. cc), (λ p. cc))
store-parts c cluster_tl_dyn_enable v m h = (h.0.0, h.1.0, (λ p. cc), (λ p. cc), (λ p. cc))
store-parts c cluster_freq_cap_enable v m h = (h.0.0, h.1.0, (λ p. cc), (λ p. cc), (λ p. cc))
store-parts c cluster_agg_mode v m h = (h.0.0, h.1.0, (λ p. cc), (λ p. cc), (λ p. cc))
store-parts c gov_legacy_formula_enable v m h = (h.0.0, h.1.0, (λ p. cc), (λ p. cc), (λ p. cc))
store-parts c sysctl_zero v m h = (h.0.0, h.1.0, (λ p. cc), (λ p. cc), (λ p. cc))
