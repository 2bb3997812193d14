-- ===== src/Sysctl/Memory.antt =====
-- The variables of lse_sysctl.c in the memory of the module, and what a handler is called with.
use lunarkernel_sched_extent.Base.{ℕ, Bool, not, List, if◌then◌else◌, Option, ◌==◌}
use lunarkernel_sched_extent.Base.Int.{ℤ, pos, ◌==ℤ◌}
use lunarkernel_sched_extent.Kernel.{Kernel, Rq}
use lunarkernel_sched_extent.Hooks.System.{System}
use lunarkernel_sched_extent.Sysctl.Table.{
  Setting, slim_walt_ctrl, slim_stats, heartbeat, lse_fg_prio_threshold, lse_boost_bg_pct,
  lse_boost_fg_pct, lse_boost_rt_pct, sched_window_stats_policy, frame_per_sec,
  sysctl_lse_gov_debug, highres_tick_ctrl, heartbeat_enable, watchdog_enable, lse_dsq_enable,
  lse_dsq_rescue_enable, lse_dsq_max_depth, highres_tick_ctrl_dbg, util_norm_enable,
  cluster_window_enable, cluster_tl_dyn_enable, cluster_freq_cap_enable, cluster_agg_mode,
  gov_legacy_formula_enable, sysctl_zero,
}

-- What a function of the kernel such as `proc_dointvec` leaves: what it returns, the value in
-- `*data`, and the user's buffer.
pub record ProcResult : Type 0 where
  pub ret : ℤ
  pub value : ℤ
  pub buffer : List ℕ

-- The kernel's functions, from whether they write, the value in `*data` and the user's buffer. The
-- one with limits takes what `extra1` and `extra2` point at.
pub record ProcFns : Type 0 where
  pub do_bool : Bool → ℤ → List ℕ → ProcResult
  pub do_intvec : Bool → ℤ → List ℕ → ProcResult
  pub do_uintvec : Bool → ℤ → List ℕ → ProcResult
  pub do_intvec_minmax : Option ℤ → Option ℤ → Bool → ℤ → List ℕ → ProcResult

-- What a call finds: the functions, the time, the CPU that it runs on, and the run queues of the
-- CPUs that are online.
pub record Call : Type 0 where
  pub k : Kernel
  pub fns : ProcFns
  pub jiffies : ℕ
  pub this_cpu : ℕ
  pub rqs : List Rq

-- The variables as `int`, and the module, whose parts keep those that they only test as truth
-- values.
pub record Memory : Type 0 where
  pub vars : Setting → ℤ
  pub system : System

abbrev pub truth : ℤ → Bool
truth v = not (v ==ℤ pos 0)

abbrev pub number : Setting → ℕ
number slim_walt_ctrl = 0
number slim_stats = 1
number heartbeat = 2
number lse_fg_prio_threshold = 3
number lse_boost_bg_pct = 4
number lse_boost_fg_pct = 5
number lse_boost_rt_pct = 6
number sched_window_stats_policy = 7
number frame_per_sec = 8
number sysctl_lse_gov_debug = 9
number highres_tick_ctrl = 10
number heartbeat_enable = 11
number watchdog_enable = 12
number lse_dsq_enable = 13
number lse_dsq_rescue_enable = 14
number lse_dsq_max_depth = 15
number highres_tick_ctrl_dbg = 16
number util_norm_enable = 17
number cluster_window_enable = 18
number cluster_tl_dyn_enable = 19
number cluster_freq_cap_enable = 20
number cluster_agg_mode = 21
number gov_legacy_formula_enable = 22
number sysctl_zero = 23

abbrev pub put_setting : Setting → ℤ → (Setting → ℤ) → Setting → ℤ
put_setting x v vars y = if number x == number y then v else vars y

-- what a part of the module that reads the variable sees from then on
unfoldable pub refresh : Setting → ℤ → System → System
refresh slim_walt_ctrl v s = record s {
  g = record s.g { slim_walt_ctrl = truth v };
  shadow = record s.shadow { slim_walt_ctrl = truth v };
}
refresh slim_stats v s = record s {
  g = record s.g { slim_stats = truth v };
  config = record s.config { slim_stats = truth v };
  monitor = record s.monitor { slim_stats = truth v };
}
refresh heartbeat v s = record s { monitor = record s.monitor { heartbeat = truth v } }
refresh lse_fg_prio_threshold v s = record s { g = record s.g { lse_fg_prio_threshold = v } }
refresh lse_boost_bg_pct v s = record s { g = record s.g { lse_boost_bg_pct = v } }
refresh lse_boost_fg_pct v s = record s { g = record s.g { lse_boost_fg_pct = v } }
refresh lse_boost_rt_pct v s = record s { g = record s.g { lse_boost_rt_pct = v } }
refresh sched_window_stats_policy v s = record s {
  g = record s.g { sched_window_stats_policy = v };
}
refresh frame_per_sec v s = s
refresh sysctl_lse_gov_debug v s = s
refresh highres_tick_ctrl v s = record s {
  shadow = record s.shadow { highres_tick_ctrl = truth v };
}
refresh heartbeat_enable v s = record s {
  monitor = record s.monitor { heartbeat_enable = truth v };
}
refresh watchdog_enable v s = record s { monitor = record s.monitor { watchdog_enable = truth v } }
refresh lse_dsq_enable v s = record s { config = record s.config { lse_dsq_enable = truth v } }
refresh lse_dsq_rescue_enable v s = s
refresh lse_dsq_max_depth v s = s
refresh highres_tick_ctrl_dbg v s = s
refresh util_norm_enable v s = s
refresh cluster_window_enable v s = record s {
  governor = record s.governor {
    switches = record s.governor.switches { cluster_window_enable = truth v };
  };
}
refresh cluster_tl_dyn_enable v s = record s {
  governor = record s.governor {
    switches = record s.governor.switches { cluster_tl_dyn_enable = truth v };
  };
}
refresh cluster_freq_cap_enable v s = record s {
  governor = record s.governor {
    switches = record s.governor.switches { cluster_freq_cap_enable = truth v };
  };
}
refresh cluster_agg_mode v s = record s {
  governor = record s.governor { switches = record s.governor.switches { cluster_agg_mode = v } };
}
refresh gov_legacy_formula_enable v s = record s {
  governor = record s.governor {
    switches = record s.governor.switches { gov_legacy_formula_enable = truth v };
  };
}
refresh sysctl_zero v s = s

-- The variable as it is read. `heartbeat` is the one that the module itself sets, to 0 or 1; of a
-- value that a user wrote there, the truth value is kept.
unfoldable pub load : Setting → Memory → ℤ
load x m =
    if number x == number heartbeat
    then (if m.system.monitor.heartbeat then pos 1 else pos 0)
    else m.vars x

-- an assignment through the pointer
unfoldable pub store : Setting → ℤ → Memory → Memory
unfolding refresh
store x v m = record { vars = put_setting x v m.vars; system = refresh x v m.system }
