-- ===== src/Sysctl/Samples.antt =====
-- Concrete functions of the kernel, and the variables with their initial values.
use lunarkernel_sched_extent.Base.{
  ℕ, Bool, true, false, ◌&&◌, List, [], ◌∷◌, Option, none, some, if◌then◌else◌,
}
use lunarkernel_sched_extent.Base.Int.{ℤ, pos, negsuc, leb_ℤ}
use lunarkernel_sched_extent.Samples.{two_cpus, cpu0}
use lunarkernel_sched_extent.Hooks.Samples.{running}
use lunarkernel_sched_extent.Sysctl.Table.{
  Setting, lse_boost_bg_pct, slim_walt_ctrl, slim_stats, heartbeat, lse_fg_prio_threshold,
  lse_boost_fg_pct, lse_boost_rt_pct, sched_window_stats_policy, frame_per_sec,
  sysctl_lse_gov_debug, highres_tick_ctrl, heartbeat_enable, watchdog_enable, lse_dsq_enable,
  lse_dsq_rescue_enable, lse_dsq_max_depth, highres_tick_ctrl_dbg, util_norm_enable,
  cluster_window_enable, cluster_tl_dyn_enable, cluster_freq_cap_enable, cluster_agg_mode,
  gov_legacy_formula_enable, sysctl_zero,
}
use lunarkernel_sched_extent.Sysctl.Memory.{ProcResult, ProcFns, Call, Memory}

-- A kernel that takes the first byte of what is written for the value.
abbrev parse : Bool → ℤ → List ℕ → ℤ
parse false old buffer = old
parse true old [] = old
parse true old (x ∷ xs) = pos x

abbrev take_byte : Bool → ℤ → List ℕ → ProcResult
take_byte write old buffer = record { ret = pos 0; value = parse write old buffer; buffer = buffer }

abbrev within : ℤ → ℤ → ℤ → Bool
within lo hi v = leb_ℤ lo v && leb_ℤ v hi

-- -EINVAL outside the limits
abbrev pub accept_within : Option ℤ → Option ℤ → Bool → ℤ → List ℕ → ProcResult
accept_within (some lo) (some hi) write old buffer =
    let r = take_byte write old buffer in
    if within lo hi r.value then r else record { ret = negsuc 21; value = old; buffer = buffer }
accept_within (some lo) none write old buffer = take_byte write old buffer
accept_within none hi write old buffer = take_byte write old buffer

abbrev pub first_byte : ProcFns
first_byte = record {
  do_bool = take_byte;
  do_intvec = take_byte;
  do_uintvec = take_byte;
  do_intvec_minmax = accept_within;
}

abbrev pub call : Call
call = record { k = two_cpus; fns = first_byte; jiffies = 100; this_cpu = 0; rqs = cpu0 ∷ [] }

abbrev pub values : Setting → ℤ
values slim_walt_ctrl = pos 1
values slim_stats = pos 1
values heartbeat = pos 0
values lse_fg_prio_threshold = pos 118
values lse_boost_bg_pct = pos 1024
values lse_boost_fg_pct = pos 1280
values lse_boost_rt_pct = pos 1536
values sched_window_stats_policy = pos 2
values frame_per_sec = pos 120
values sysctl_lse_gov_debug = pos 0
values highres_tick_ctrl = pos 1
values heartbeat_enable = pos 0
values watchdog_enable = pos 0
values lse_dsq_enable = pos 1
values lse_dsq_rescue_enable = pos 1
values lse_dsq_max_depth = pos 256
values highres_tick_ctrl_dbg = pos 0
values util_norm_enable = pos 0
values cluster_window_enable = pos 1
values cluster_tl_dyn_enable = pos 1
values cluster_freq_cap_enable = pos 1
values cluster_agg_mode = pos 1
values gov_legacy_formula_enable = pos 0
values sysctl_zero = pos 0

abbrev pub memory : Memory
memory = record { vars = values; system = running }
