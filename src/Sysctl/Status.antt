-- ===== src/Sysctl/Status.antt =====
-- The file `status` below /proc/lunar_sched_ext, which lse_monitor.c prints.
use Prim.Native.String.{String}
use lunarkernel_sched_extent.Base.{ℕ, List, [], ◌∷◌}
use lunarkernel_sched_extent.Base.Int.{pos}
use lunarkernel_sched_extent.Base.Word.{sub64}
use lunarkernel_sched_extent.Monitor.Proc.{Arg, number}
use lunarkernel_sched_extent.Sysctl.Table.{
  Setting, slim_walt_ctrl, slim_stats, heartbeat, heartbeat_enable, watchdog_enable,
  lse_fg_prio_threshold, lse_boost_bg_pct, lse_boost_fg_pct, lse_boost_rt_pct, lse_dsq_enable,
  lse_dsq_rescue_enable, lse_dsq_max_depth, highres_tick_ctrl, util_norm_enable,
  cluster_window_enable, cluster_tl_dyn_enable, cluster_freq_cap_enable, cluster_agg_mode,
  gov_legacy_formula_enable,
}
use lunarkernel_sched_extent.Sysctl.Memory.{Memory, load}

abbrev status_format : String
status_format =
    "slim_walt_ctrl=%d\nslim_stats=%d\nheartbeat=%d\nheartbeat_enable=%d\nwatchdog_enable=%d\nfg_prio_threshold=%d\nboost_bg_pct=%d\nboost_fg_pct=%d\nboost_rt_pct=%d\ndsq_enable=%d\ndsq_rescue_enable=%d\ndsq_max_depth=%d\nshadow_tick_enable=%u\nutil_norm_enable=%d\ncluster_window_enable=%d\ncluster_tl_dyn_enable=%d\ncluster_freq_cap_enable=%d\ncluster_agg_mode=%d\ngov_legacy_formula_enable=%d\nheartbeat_age_jiffies=%lu\nwatchdog_age_jiffies=%lu\nwatchdog_timeout_jiffies=%lu\n"

-- the settings, in the order of the format
abbrev shown_settings : List Setting
shown_settings =
    slim_walt_ctrl ∷ slim_stats ∷ heartbeat ∷ heartbeat_enable ∷ watchdog_enable
    ∷ lse_fg_prio_threshold ∷ lse_boost_bg_pct ∷ lse_boost_fg_pct ∷ lse_boost_rt_pct
    ∷ lse_dsq_enable ∷ lse_dsq_rescue_enable ∷ lse_dsq_max_depth ∷ highres_tick_ctrl
    ∷ util_norm_enable ∷ cluster_window_enable ∷ cluster_tl_dyn_enable ∷ cluster_freq_cap_enable
    ∷ cluster_agg_mode ∷ gov_legacy_formula_enable ∷ []

-- their arguments before the others
abbrev settings_args : Memory → List Setting → List Arg → List Arg
settings_args m [] others = others
settings_args m (x ∷ xs) others = number (load x m) ∷ settings_args m xs others

-- The text that the kernel's `simple_read_from_buffer` copies from; `scnprintf` is the kernel's.
unfoldable pub lse_proc_status_read : (ℕ → String → List Arg → List ℕ) → ℕ → Memory → List ℕ
lse_proc_status_read scnprintf jiffies m =
    let monitor = m.system.monitor in
    scnprintf 512 status_format (
      settings_args m shown_settings (
        number (pos (sub64 jiffies monitor.lse_heartbeat_last_touch))
        ∷ number (pos (sub64 jiffies monitor.lse_watchdog_timestamp))
        ∷ number (pos monitor.lse_watchdog_timeout)
        ∷ []))
