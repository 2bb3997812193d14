-- ===== src/Sysctl/Table.antt =====
-- The variables that the table of lse_sysctl.c points at, and the table.
use Prim.Native.String.{String}
use lunarkernel_sched_extent.Base.{ℕ, List, [], ◌∷◌, ◌++◌, Option, none, some}
use lunarkernel_sched_extent.Base.Int.{ℤ, pos}

-- The variables of the module, and the constant of the kernel that SYSCTL_ZERO points at.
pub data Setting : Type 0 where
  slim_walt_ctrl slim_stats heartbeat lse_fg_prio_threshold lse_boost_bg_pct lse_boost_fg_pct
        lse_boost_rt_pct sched_window_stats_policy frame_per_sec sysctl_lse_gov_debug
        highres_tick_ctrl heartbeat_enable watchdog_enable lse_dsq_enable lse_dsq_rescue_enable
        lse_dsq_max_depth highres_tick_ctrl_dbg util_norm_enable cluster_window_enable
        cluster_tl_dyn_enable cluster_freq_cap_enable cluster_agg_mode gov_legacy_formula_enable
        sysctl_zero :
      Setting

-- the functions that stand in the table
pub data ProcHandler : Type 0 where
  proc_dobool proc_dointvec proc_dointvec_minmax : ProcHandler
  lse_proc_shadow_tick_update lse_proc_sched_ravg_window_update : ProcHandler
  lse_proc_monitor_toggle_update lse_proc_dsq_toggle_update : ProcHandler
  lse_proc_dsq_dump lse_proc_dsq_urgency : ProcHandler

-- What the code fills in of the kernel's `struct ctl_table`: `entry` stands for `.data`, and the
-- limits for what `.extra1` and `.extra2` point at. The mode is in decimal. On a kernel before 5.15
-- the first row has `proc_dointvec`.
pub record CtlTable : Type 0 where
  pub procname : String
  pub entry : Setting
  pub mode : ℕ
  pub proc_handler : ProcHandler
  pub extra1 : Option ℤ
  pub extra2 : Option ℤ

abbrev pub window_stats_policy_minval : ℤ
window_stats_policy_minval = pos 0

abbrev pub window_stats_policy_maxval : ℤ
window_stats_policy_maxval = pos 4

abbrev pub lse_prio_minval : ℤ
lse_prio_minval = pos 0

abbrev pub lse_prio_maxval : ℤ
lse_prio_maxval = pos 139

abbrev pub lse_boost_minval : ℤ
lse_boost_minval = pos 1

abbrev pub lse_boost_maxval : ℤ
lse_boost_maxval = pos 4096

abbrev pub lse_dsq_depth_minval : ℤ
lse_dsq_depth_minval = pos 1

abbrev pub lse_dsq_depth_maxval : ℤ
lse_dsq_depth_maxval = pos 4096

abbrev pub lse_bool_minval : ℤ
lse_bool_minval = pos 0

abbrev pub lse_bool_maxval : ℤ
lse_bool_maxval = pos 1

abbrev pub lse_agg_mode_minval : ℤ
lse_agg_mode_minval = pos 0

abbrev pub lse_agg_mode_maxval : ℤ
lse_agg_mode_maxval = pos 1

-- SYSCTL_INT_MAX
abbrev sysctl_int_max : ℤ
sysctl_int_max = pos 2147483647

-- a row without limits
abbrev pub plain : String → Setting → ℕ → ProcHandler → CtlTable
plain name x mode handler = record {
  procname = name;
  entry = x;
  mode = mode;
  proc_handler = handler;
  extra1 = none;
  extra2 = none;
}

-- a row with limits that all may write, or as the mode says
abbrev pub limited : String → Setting → ℕ → ℤ → ℤ → CtlTable
limited name x mode lo hi = record {
  procname = name;
  entry = x;
  mode = mode;
  proc_handler = proc_dointvec_minmax;
  extra1 = some lo;
  extra2 = some hi;
}

abbrev pub tracking_rows : List CtlTable
tracking_rows =
    plain "slim_walt_ctrl" slim_walt_ctrl 420 proc_dobool
    ∷ plain "slim_stats" slim_stats 438 proc_dointvec
    ∷ plain "heartbeat" heartbeat 438 proc_dointvec
    ∷ limited "fg_prio_threshold" lse_fg_prio_threshold 438 lse_prio_minval lse_prio_maxval
    ∷ limited "boost_bg_pct" lse_boost_bg_pct 438 lse_boost_minval lse_boost_maxval
    ∷ limited "boost_fg_pct" lse_boost_fg_pct 438 lse_boost_minval lse_boost_maxval
    ∷ limited "boost_rt_pct" lse_boost_rt_pct 438 lse_boost_minval lse_boost_maxval
    ∷ limited "slim_walt_policy" sched_window_stats_policy 420 window_stats_policy_minval
        window_stats_policy_maxval
    ∷ (record (plain "sched_ravg_window_frame_per_sec" frame_per_sec 420
        lse_proc_sched_ravg_window_update) { extra1 = some (pos 0); extra2 = some sysctl_int_max })
    ∷ []

abbrev pub toggle_rows : List CtlTable
toggle_rows =
    plain "lse_gov_debug" sysctl_lse_gov_debug 438 proc_dointvec
    ∷ plain "scx_shadow_tick_enable" highres_tick_ctrl 438 lse_proc_shadow_tick_update
    ∷ plain "heartbeat_enable" heartbeat_enable 438 lse_proc_monitor_toggle_update
    ∷ plain "watchdog_enable" watchdog_enable 438 lse_proc_monitor_toggle_update
    ∷ plain "dsq_enable" lse_dsq_enable 438 lse_proc_dsq_toggle_update
    ∷ plain "dsq_rescue_enable" lse_dsq_rescue_enable 438 lse_proc_dsq_toggle_update
    ∷ limited "dsq_max_depth" lse_dsq_max_depth 438 lse_dsq_depth_minval lse_dsq_depth_maxval
    ∷ plain "highres_tick_ctrl_dbg" highres_tick_ctrl_dbg 438 proc_dointvec
    ∷ []

abbrev pub governor_rows : List CtlTable
governor_rows =
    limited "util_norm_enable" util_norm_enable 438 lse_bool_minval lse_bool_maxval
    ∷ limited "cluster_window_enable" cluster_window_enable 438 lse_bool_minval lse_bool_maxval
    ∷ limited "cluster_tl_dyn_enable" cluster_tl_dyn_enable 438 lse_bool_minval lse_bool_maxval
    ∷ limited "cluster_freq_cap_enable" cluster_freq_cap_enable 438 lse_bool_minval lse_bool_maxval
    ∷ limited "cluster_agg_mode" cluster_agg_mode 438 lse_agg_mode_minval lse_agg_mode_maxval
    ∷ limited "gov_legacy_formula_enable" gov_legacy_formula_enable 438 lse_bool_minval
        lse_bool_maxval
    ∷ []

abbrev pub dsq_rows : List CtlTable
dsq_rows =
    plain "dsq_backlog" sysctl_zero 292 lse_proc_dsq_dump
    ∷ plain "dsq_urgency" sysctl_zero 292 lse_proc_dsq_urgency
    ∷ plain "dsq_dump" sysctl_zero 128 lse_proc_dsq_dump
    ∷ []

-- the table; the empty row at its end marks the end
abbrev pub lse_table : List CtlTable
lse_table = tracking_rows ++ (toggle_rows ++ (governor_rows ++ dsq_rows))
