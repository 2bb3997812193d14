-- ===== src/Sysctl/Written.antt =====
-- What a write leaves of the other variables, and that the parts of the module see the variables.
use lunarkernel_sched_extent.Base.{
  zero, suc, ℕ, ◌≡◌, refl, sym, ap, ◌∙◌, Bool, true, ◌==◌, ==_iff, List, [], ◌∷◌, if◌then◌else◌,
  arith,
}
use lunarkernel_sched_extent.Base.Outcome.{done}
use lunarkernel_sched_extent.Base.Int.{ℤ, pos, negsuc}
use lunarkernel_sched_extent.Kernel.{Kernel, Rq}
use lunarkernel_sched_extent.Track.Update.{sched_ravg_window_change}
use lunarkernel_sched_extent.Monitor.Watch.{Monitor, lse_monitor_sync}
use lunarkernel_sched_extent.Shadow.Timer.{
  Shadow, lse_shadow_tick_stop_cpu, lse_shadow_tick_start_cpu, lse_shadow_tick_update_cpu,
  update_cpus, lse_shadow_tick_sync_all,
}
use lunarkernel_sched_extent.Hooks.System.{System}
use lunarkernel_sched_extent.Sysctl.Table.{
  Setting, slim_walt_ctrl, slim_stats, heartbeat, lse_fg_prio_threshold, lse_boost_bg_pct,
  lse_boost_fg_pct, lse_boost_rt_pct, sched_window_stats_policy, frame_per_sec,
  sysctl_lse_gov_debug, highres_tick_ctrl, heartbeat_enable, watchdog_enable, lse_dsq_enable,
  lse_dsq_rescue_enable, lse_dsq_max_depth, highres_tick_ctrl_dbg, util_norm_enable,
  cluster_window_enable, cluster_tl_dyn_enable, cluster_freq_cap_enable, cluster_agg_mode,
  gov_legacy_formula_enable, sysctl_zero,
}
use lunarkernel_sched_extent.Sysctl.Handlers.{change_window, sync_shadow, sync_monitor, sync_dsq}
use lunarkernel_sched_extent.Sysctl.Memory.{Call, Memory, truth, number, refresh, store}

abbrev of_number : ℕ → Setting
of_number n =
    if n == 0
    then slim_walt_ctrl
    else if n == 1
    then slim_stats
    else if n == 2
    then heartbeat
    else if n == 3
    then lse_fg_prio_threshold
    else if n == 4
    then lse_boost_bg_pct
    else if n == 5
    then lse_boost_fg_pct
    else if n == 6
    then lse_boost_rt_pct
    else if n == 7
    then sched_window_stats_policy
    else if n == 8
    then frame_per_sec
    else if n == 9
    then sysctl_lse_gov_debug
    else if n == 10
    then highres_tick_ctrl
    else if n == 11
    then heartbeat_enable
    else if n == 12
    then watchdog_enable
    else if n == 13
    then lse_dsq_enable
    else if n == 14
    then lse_dsq_rescue_enable
    else if n == 15
    then lse_dsq_max_depth
    else if n == 16
    then highres_tick_ctrl_dbg
    else if n == 17
    then util_norm_enable
    else if n == 18
    then cluster_window_enable
    else if n == 19
    then cluster_tl_dyn_enable
    else if n == 20
    then cluster_freq_cap_enable
    else if n == 21
    then cluster_agg_mode
    else if n == 22
    then gov_legacy_formula_enable
    else sysctl_zero

of_number-number : (x : Setting) → of_number (number x) ≡ x
of_number-number slim_walt_ctrl = refl
of_number-number slim_stats = refl
of_number-number heartbeat = refl
of_number-number lse_fg_prio_threshold = refl
of_number-number lse_boost_bg_pct = refl
of_number-number lse_boost_fg_pct = refl
of_number-number lse_boost_rt_pct = refl
of_number-number sched_window_stats_policy = refl
of_number-number frame_per_sec = refl
of_number-number sysctl_lse_gov_debug = refl
of_number-number highres_tick_ctrl = refl
of_number-number heartbeat_enable = refl
of_number-number watchdog_enable = refl
of_number-number lse_dsq_enable = refl
of_number-number lse_dsq_rescue_enable = refl
of_number-number lse_dsq_max_depth = refl
of_number-number highres_tick_ctrl_dbg = refl
of_number-number util_norm_enable = refl
of_number-number cluster_window_enable = refl
of_number-number cluster_tl_dyn_enable = refl
of_number-number cluster_freq_cap_enable = refl
of_number-number cluster_agg_mode = refl
of_number-number gov_legacy_formula_enable = refl
of_number-number sysctl_zero = refl

pub number-injective : (x y : Setting) → (number x == number y) ≡ true → x ≡ y
number-injective x y h =
    let e : number x ≡ number y = (==_iff (number x) (number y)).0 h in
    sym (of_number-number x) ∙ (ap of_number e ∙ of_number-number y)

-- What each part keeps of a variable is its value, or whether it is not 0.
abbrev pub InStep : (Setting → ℤ) → System → Type 0
InStep vars s =
    (s.g.slim_walt_ctrl ≡ truth (vars slim_walt_ctrl))
    × (s.shadow.slim_walt_ctrl ≡ truth (vars slim_walt_ctrl))
    × (s.g.slim_stats ≡ truth (vars slim_stats))
    × (s.config.slim_stats ≡ truth (vars slim_stats))
    × (s.monitor.slim_stats ≡ truth (vars slim_stats))
    × (s.g.lse_fg_prio_threshold ≡ vars lse_fg_prio_threshold)
    × (s.g.lse_boost_bg_pct ≡ vars lse_boost_bg_pct)
    × (s.g.lse_boost_fg_pct ≡ vars lse_boost_fg_pct)
    × (s.g.lse_boost_rt_pct ≡ vars lse_boost_rt_pct)
    × (s.g.sched_window_stats_policy ≡ vars sched_window_stats_policy)
    × (s.shadow.highres_tick_ctrl ≡ truth (vars highres_tick_ctrl))
    × (s.monitor.heartbeat_enable ≡ truth (vars heartbeat_enable))
    × (s.monitor.watchdog_enable ≡ truth (vars watchdog_enable))
    × (s.config.lse_dsq_enable ≡ truth (vars lse_dsq_enable))
    × (s.governor.switches.cluster_window_enable ≡ truth (vars cluster_window_enable))
    × (s.governor.switches.cluster_tl_dyn_enable ≡ truth (vars cluster_tl_dyn_enable))
    × (s.governor.switches.cluster_freq_cap_enable ≡ truth (vars cluster_freq_cap_enable))
    × (s.governor.switches.cluster_agg_mode ≡ vars cluster_agg_mode)
    × (s.governor.switches.gov_legacy_formula_enable ≡ truth (vars gov_legacy_formula_enable))

abbrev pub MemoryInStep : Memory → Type 0
MemoryInStep m = InStep m.vars m.system

pub store-InStep : (x : Setting) (v : ℤ) (m : Memory) → MemoryInStep m → MemoryInStep (store x v m)
unfolding store refresh
store-InStep slim_walt_ctrl v m h = ground arith
store-InStep slim_stats v m h = ground arith
store-InStep heartbeat v m h = ground arith
store-InStep lse_fg_prio_threshold v m h = ground arith
store-InStep lse_boost_bg_pct v m h = ground arith
store-InStep lse_boost_fg_pct v m h = ground arith
store-InStep lse_boost_rt_pct v m h = ground arith
store-InStep sched_window_stats_policy v m h = ground arith
store-InStep frame_per_sec v m h = ground arith
store-InStep sysctl_lse_gov_debug v m h = ground arith
store-InStep highres_tick_ctrl v m h = ground arith
store-InStep heartbeat_enable v m h = ground arith
store-InStep watchdog_enable v m h = ground arith
store-InStep lse_dsq_enable v m h = ground arith
store-InStep lse_dsq_rescue_enable v m h = ground arith
store-InStep lse_dsq_max_depth v m h = ground arith
store-InStep highres_tick_ctrl_dbg v m h = ground arith
store-InStep util_norm_enable v m h = ground arith
store-InStep cluster_window_enable v m h = ground arith
store-InStep cluster_tl_dyn_enable v m h = ground arith
store-InStep cluster_freq_cap_enable v m h = ground arith
store-InStep cluster_agg_mode v m h = ground arith
store-InStep gov_legacy_formula_enable v m h = ground arith
store-InStep sysctl_zero v m h = ground arith

-- the two switches of the shadow tick, which its functions only read
abbrev ctrls : Shadow → Bool × Bool
ctrls s = (s.highres_tick_ctrl, s.slim_walt_ctrl)

stop_cpu-ctrls : (cpu : ℕ) (s : Shadow) → ctrls (lse_shadow_tick_stop_cpu cpu s) ≡ ctrls s
unfolding lse_shadow_tick_stop_cpu
stop_cpu-ctrls cpu s = ground arith

update_cpu-ctrls :
    (this_cpu : ℕ) (rq : Rq) (s : Shadow)
    → ctrls (lse_shadow_tick_update_cpu this_cpu rq s) ≡ ctrls s
unfolding lse_shadow_tick_update_cpu lse_shadow_tick_start_cpu
update_cpu-ctrls this_cpu rq s = ground (arith, stop_cpu-ctrls rq.cpu s)

pub update_cpus-ctrls :
    (this_cpu : ℕ) (rqs : List Rq) (s : Shadow) → ctrls (update_cpus this_cpu rqs s) ≡ ctrls s
unfolding update_cpus
update_cpus-ctrls this_cpu [] s = refl
update_cpus-ctrls this_cpu (rq ∷ rqs) s =
    update_cpus-ctrls this_cpu rqs (lse_shadow_tick_update_cpu this_cpu rq s)
    ∙ update_cpu-ctrls this_cpu rq s

pub sync_all-ctrls :
    (this_cpu : ℕ) (rqs : List Rq) (s : Shadow)
    → ctrls (lse_shadow_tick_sync_all this_cpu rqs s) ≡ ctrls s
unfolding lse_shadow_tick_sync_all
sync_all-ctrls this_cpu rqs s = ground (arith, update_cpus-ctrls this_cpu rqs s)

-- the switches that the monitor's functions only read
abbrev enables : Monitor → Bool × (Bool × Bool)
enables m = (m.slim_stats, (m.heartbeat_enable, m.watchdog_enable))

sync-enables :
    (k : Kernel) (jiffies : ℕ) (m : Monitor) → enables (lse_monitor_sync k jiffies m) ≡ enables m
unfolding lse_monitor_sync
sync-enables k jiffies m = ground arith

pub sync_shadow-InStep : (c : Call) (m : Memory) → MemoryInStep m → MemoryInStep (sync_shadow c m)
sync_shadow-InStep c m h = ground (arith, sync_all-ctrls c.this_cpu c.rqs m.system.shadow)

pub sync_monitor-InStep : (c : Call) (m : Memory) → MemoryInStep m → MemoryInStep (sync_monitor c m)
sync_monitor-InStep c m h = ground (arith, sync-enables c.k c.jiffies m.system.monitor)

pub sync_dsq-InStep : (c : Call) (m : Memory) → MemoryInStep m → MemoryInStep (sync_dsq c m)
sync_dsq-InStep c m h = h

pub window_change-InStep :
    (fps : ℤ) (m m' : Memory)
    → MemoryInStep m
    → change_window fps m ≡ done m'
    → MemoryInStep m' × (m'.vars ≡ m.vars)
unfolding change_window sched_ravg_window_change
window_change-InStep (pos zero) m m' h e = cc
window_change-InStep (pos (suc n)) m m' h e = ground arith
window_change-InStep (negsuc n) m m' h e = ground arith
