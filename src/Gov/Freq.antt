-- ===== src/Gov/Freq.antt =====
-- The next frequency and its command: `get_next_freq`, `soft_freq_clamp`,
-- `lse_gov_update_cpufreq`, `lse_gov_update_soft_limit_cpufreq`, `lse_gov_work` and
-- `lse_gov_limits` of cpufreq_lse.c.
use lunarkernel_sched_extent.Base.{
  ℕ, ◌/◌, max, not, ◌&&◌, Option, none, some, ltb, ◌==◌, if◌then◌else◌,
}
use lunarkernel_sched_extent.Base.Int.{ℤ, pos, negsuc}
use lunarkernel_sched_extent.Base.Word.{u32, mul64, shl10}
use lunarkernel_sched_extent.Base.Outcome.{Outcome, done, div_zero, ◌>>=◌}
use lunarkernel_sched_extent.Kernel.{Kernel}
use lunarkernel_sched_extent.Track.Busy.{div64_u64_roundup}
use lunarkernel_sched_extent.Gov.Policy.{
  Switches, FreqPolicy, Tunables, GovPolicy, Command, fast_switch, queue_work,
}
use lunarkernel_sched_extent.Gov.Util.{lse_get_policy_window_ns, util_of}
use lunarkernel_sched_extent.Gov.Target.{lse_dynamic_target_load}

-- DIV64_U64_ROUNDUP
abbrev checked_roundup : ℕ → ℕ → Outcome ℕ
checked_roundup x y = if y == 0 then div_zero else done (div64_u64_roundup x y)

unfoldable pub legacy_freq : Kernel → Switches → ℕ → ℕ → ℕ → ℕ → Outcome ℕ
legacy_freq k s freq cap cluster_tl prev_runnable_sum = do
  divisor ←
      checked_roundup (mul64 (u32 (k.mult_frac s.lse_sched_ravg_window cluster_tl 100)) cap) freq
  next_f ← checked_roundup (shl10 prev_runnable_sum) divisor
  done (u32 next_f)

-- freq * agg_util / target_load, or the least frequency where that is 0
unfoldable pub scaled_freq : FreqPolicy → ℕ → ℕ → ℕ → ℕ
scaled_freq policy freq agg_util cluster_tl =
    let next_f = u32 (mul64 freq agg_util / max cluster_tl 1) in
    if next_f == 0 then policy.min_freq else next_f

-- The source also reads `tunables->target_loads` and `target_load_base` into a target load that
-- the call of `lse_dynamic_target_load` replaces.
unfoldable pub get_next_freq :
    Kernel → Switches → FreqPolicy → GovPolicy → ℕ → Outcome (GovPolicy × ℕ)
unfolding lse_get_policy_window_ns util_of lse_dynamic_target_load legacy_freq scaled_freq
get_next_freq k s policy lg prev_runnable_sum =
    let freq = (if policy.cur == 0 then policy.min_freq else policy.cur) in
    let cpu_capacity = k.arch_scale_cpu_capacity policy.first_cpu in
    let cap = (if cpu_capacity == 0 then 1 else cpu_capacity) in
    let agg_util = u32 (util_of prev_runnable_sum (max (lse_get_policy_window_ns s lg) 1)) in
    let (lg1, cluster_tl) = lse_dynamic_target_load k s policy lg agg_util in
    let lg2 = record lg1 { last_target_load_dyn = cluster_tl; last_agg_util = agg_util } in
    if s.gov_legacy_formula_enable
    then (legacy_freq k s freq cap cluster_tl prev_runnable_sum >>= λ next_f. done (lg2, next_f))
    else done (lg2, scaled_freq policy freq agg_util cluster_tl)

-- `soft_freq_min >= 0 && soft_freq_min > target_freq`, and the assignment
abbrev pub raise_to : ℤ → ℕ → ℕ
raise_to (pos lo) freq = if ltb freq lo then lo else freq
raise_to (negsuc n) freq = freq

-- `soft_freq_max >= 0 && soft_freq_max < target_freq`, and the assignment
abbrev pub lower_to : ℤ → ℕ → ℕ
lower_to (pos hi) freq = if ltb hi freq then hi else freq
lower_to (negsuc n) freq = freq

-- the limits of the cluster
unfoldable pub clamp_to_cluster : Switches → GovPolicy → ℕ → ℕ
clamp_to_cluster s lg freq =
    let hi = lg.cluster_freq_cap_max in
    let lo = lg.cluster_freq_cap_min in
    let capped = (if not (hi == 0) && ltb hi freq then hi else freq) in
    if not s.cluster_freq_cap_enable
    then freq
    else if not (lo == 0) && ltb capped lo
    then lo
    else capped

unfoldable pub clamp_freq : Switches → Tunables → GovPolicy → ℕ → ℕ
unfolding clamp_to_cluster
clamp_freq s t lg target_freq =
    clamp_to_cluster s lg (lower_to t.soft_freq_max (raise_to t.soft_freq_min target_freq))

unfoldable pub soft_freq_clamp : Switches → Tunables → GovPolicy → ℕ → GovPolicy × ℕ
unfolding clamp_freq
soft_freq_clamp s t lg target_freq =
    let freq = clamp_freq s t lg target_freq in (record lg { last_freq_cap_applied = freq }, freq)

-- the common end of the updates: nothing if the frequency is the one that was asked for last
unfoldable pub commit : FreqPolicy → GovPolicy → ℕ → GovPolicy × Option Command
commit policy lg next_f = if lg.next_freq == next_f then (lg, none) else (
  record lg { next_freq = next_f },
  some (if policy.fast_switch_enabled then fast_switch next_f else queue_work),
)

unfoldable pub lse_gov_update_cpufreq :
    Kernel → Switches → FreqPolicy → Tunables → GovPolicy → ℕ → Outcome (GovPolicy × Option Command)
unfolding get_next_freq soft_freq_clamp commit
lse_gov_update_cpufreq k s policy t lg prev_runnable_sum = do
  next ← get_next_freq k s policy lg prev_runnable_sum
  let (lg', clamped) = soft_freq_clamp s t next.0 next.1
  let next_f = policy.resolve_freq clamped
  let cached = (if lg'.next_freq == 0 then next_f else lg'.next_freq)
  done (commit policy (record lg' { freq_cached = cached }) next_f)

unfoldable pub lse_gov_update_soft_limit_cpufreq :
    Switches → FreqPolicy → Tunables → GovPolicy → GovPolicy × Option Command
unfolding soft_freq_clamp commit
lse_gov_update_soft_limit_cpufreq s policy t lg =
    let (lg', clamped) = soft_freq_clamp s t lg lg.next_freq in
    commit policy lg' (policy.resolve_freq clamped)

-- The frequency that the thread passes to `__cpufreq_driver_target`.
unfoldable pub lse_gov_work : GovPolicy → ℕ
lse_gov_work lg = lg.next_freq

-- The switch that the new limits cause, if the driver can switch fast; `none` is
-- `cpufreq_policy_apply_limits`.
unfoldable pub lse_gov_limits : FreqPolicy → GovPolicy → Option Command
lse_gov_limits policy lg =
    if policy.fast_switch_enabled
    then some (fast_switch (policy.resolve_freq lg.next_freq))
    else none
