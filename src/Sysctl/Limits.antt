-- ===== src/Sysctl/Limits.antt =====
-- The values that the variables of the table may have, and what its rows need to keep them there.

use lunarkernel_sched_extent.Base.{
  ℕ, ◌≡◌, ◌⊎◌, Bool, false, ◌==◌, List, ◌∷◌, Option, none, some, All,
}
use lunarkernel_sched_extent.Base.Int.{ℤ, pos, ◌≤ℤ◌}
use lunarkernel_sched_extent.Sysctl.Table.{
  CtlTable, Setting, slim_walt_ctrl, slim_stats, heartbeat, lse_fg_prio_threshold, lse_boost_bg_pct,
  lse_boost_fg_pct, lse_boost_rt_pct, sched_window_stats_policy, frame_per_sec,
  sysctl_lse_gov_debug, highres_tick_ctrl, heartbeat_enable, watchdog_enable, lse_dsq_enable,
  lse_dsq_rescue_enable, lse_dsq_max_depth, highres_tick_ctrl_dbg, util_norm_enable,
  cluster_window_enable, cluster_tl_dyn_enable, cluster_freq_cap_enable, cluster_agg_mode,
  gov_legacy_formula_enable, sysctl_zero, proc_dointvec_minmax,
}
use lunarkernel_sched_extent.Sysctl.Memory.{ProcFns, Memory, number}
use lunarkernel_sched_extent.Sysctl.Written.{MemoryInStep}

-- The values that the rest of the module expects of a variable: a priority, a percentage of 1024, a
-- policy, a depth, a flag. The others may have any.
abbrev pub limits : Setting → Option (ℤ × ℤ)
limits slim_walt_ctrl = none
limits slim_stats = none
limits heartbeat = none
limits lse_fg_prio_threshold = some (pos 0, pos 139)
limits lse_boost_bg_pct = some (pos 1, pos 4096)
limits lse_boost_fg_pct = some (pos 1, pos 4096)
limits lse_boost_rt_pct = some (pos 1, pos 4096)
limits sched_window_stats_policy = some (pos 0, pos 4)
limits frame_per_sec = none
limits sysctl_lse_gov_debug = none
limits highres_tick_ctrl = none
limits heartbeat_enable = none
limits watchdog_enable = none
limits lse_dsq_enable = none
limits lse_dsq_rescue_enable = none
limits lse_dsq_max_depth = some (pos 1, pos 4096)
limits highres_tick_ctrl_dbg = none
limits util_norm_enable = some (pos 0, pos 1)
limits cluster_window_enable = some (pos 0, pos 1)
limits cluster_tl_dyn_enable = some (pos 0, pos 1)
limits cluster_freq_cap_enable = some (pos 0, pos 1)
limits cluster_agg_mode = some (pos 0, pos 1)
limits gov_legacy_formula_enable = some (pos 0, pos 1)
limits sysctl_zero = none

abbrev pub Within : Option (ℤ × ℤ) → ℤ → Type 0
Within none v = Unit
Within (some (lo, hi)) v = (lo ≤ℤ v) × (v ≤ℤ hi)

abbrev pub IsTyped : Memory → Type 0
IsTyped m = (x : Setting) → Within (limits x) (m.vars x)

-- The variables are within their limits, and the parts of the module see them.
abbrev pub MemoryOk : Memory → Type 0
MemoryOk m = IsTyped m × MemoryInStep m

-- What the kernel documents of `proc_dointvec_minmax`: it stores nothing that is out of the limits.
abbrev pub MinmaxOk : ProcFns → Type 0
MinmaxOk fns =
    (lo hi : ℤ) (write : Bool) (v : ℤ) (buffer : List ℕ)
    → let r = fns.do_intvec_minmax (some lo) (some hi) write v buffer in
      (r.value ≡ v) ⊎ ((lo ≤ℤ r.value) × (r.value ≤ℤ hi))

-- what a row needs whose function reads its limits
abbrev pub LimitsAgree : Setting → Option ℤ → Option ℤ → Type 0
LimitsAgree x (some lo) (some hi) =
    ((number x == number heartbeat) ≡ false) × (limits x ≡ some (lo, hi))
LimitsAgree x (some lo) none = ⊥
LimitsAgree x none extra2 = ⊥

-- The limits of a row are those of its variable, and only rows with a function that reads them have
-- a variable with limits.
abbrev pub Guarded : CtlTable → Type 0
Guarded e = elim e.proc_handler [
  | proc_dointvec_minmax ↦ LimitsAgree e.entry e.extra1 e.extra2
  | other ↦ limits e.entry ≡ none
]

pub data Listed (e : CtlTable) : List CtlTable → Type 0 where
  first : {rows : List CtlTable} → Listed e (e ∷ rows)
  later : {row : CtlTable} {rows : List CtlTable} → Listed e rows → Listed e (row ∷ rows)

pub All-Listed :
    (P : CtlTable → Type 0) {e : CtlTable} {rows : List CtlTable} → Listed e rows → All P rows → P e
All-Listed P first h = h.0
All-Listed P (later l) h = All-Listed P l h.1
