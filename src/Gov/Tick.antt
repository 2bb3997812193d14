-- ===== src/Gov/Tick.antt =====
-- The update at a tick: `lse_gov_tick_update` of cpufreq_lse.c.
use lunarkernel_sched_extent.Base.{ℕ, ◌/◌, min, Option, none, ltb, if◌then◌else◌}
use lunarkernel_sched_extent.Base.Word.{add32, sub64, mul32}
use lunarkernel_sched_extent.Kernel.{Kernel}
use lunarkernel_sched_extent.State.{Lrq}
use lunarkernel_sched_extent.Gov.Policy.{
  Switches, FreqPolicy, Tunables, GovPolicy, GovRq, Command, lse_gov_rate_limit_ns,
}
use lunarkernel_sched_extent.Gov.Util.{lse_gov_cluster_util}
use lunarkernel_sched_extent.Gov.Target.{static_target_load, lse_dynamic_target_load}
use lunarkernel_sched_extent.Gov.Freq.{scaled_freq, soft_freq_clamp, commit}

-- The policy of a CPU, the record of the CPU, and what the driver is told.
pub record Ticked : Type 0 where
  pub lg : GovPolicy
  pub grq : GovRq
  pub command : Option Command

-- agg_util * (1024 + dsq_boost) / 1024, at most 1024, on `unsigned int`
unfoldable pub boost_util : ℕ → ℕ → ℕ
boost_util agg_util dsq_boost = min (mul32 agg_util (add32 1024 dsq_boost) / 1024) 1024

-- the target load of a tick; the static one is computed first and replaced
unfoldable pub tick_target_load : Kernel → Switches → FreqPolicy → GovPolicy → ℕ → GovPolicy × ℕ
unfolding static_target_load lse_dynamic_target_load
tick_target_load k s policy lg agg_util =
    if s.cluster_tl_dyn_enable
    then lse_dynamic_target_load k s policy lg agg_util
    else (lg, static_target_load lg)

-- what follows the utilisation of the cluster
unfoldable pub tick_freq :
    Kernel → Switches → FreqPolicy → Tunables → GovPolicy → ℕ → GovPolicy × Option Command
unfolding tick_target_load scaled_freq soft_freq_clamp commit
tick_freq k s policy t lg agg_util =
    let (lg1, cluster_tl) = tick_target_load k s policy lg agg_util in
    let (lg2, clamped) =
      soft_freq_clamp s t lg1 (scaled_freq policy policy.cur agg_util cluster_tl) in
    commit policy (record lg2 { last_agg_util = agg_util; last_target_load_dyn = cluster_tl })
      (policy.resolve_freq clamped)

-- what follows the rate limit; `now` is the second reading of the clock
unfoldable pub tick_update :
    Kernel → Switches → FreqPolicy → Tunables → (ℕ → Lrq) → ℕ → ℕ → ℕ → GovPolicy → GovRq → Ticked
unfolding lse_gov_cluster_util boost_util tick_freq
tick_update k s policy t lrqs cpu dsq_boost now lg grq =
    let (grq1, agg_util) = lse_gov_cluster_util s policy lrqs cpu now grq in
    let (lg', command) = tick_freq k s policy t lg (boost_util agg_util dsq_boost) in
    record { lg = lg'; grq = record grq1 { curr_util = agg_util }; command = command }

-- On a CPU whose policy is governed; without one, the source returns at once.
unfoldable pub lse_gov_tick_update :
    Kernel
    → Switches
    → FreqPolicy
    → Tunables
    → (ℕ → Lrq)
    → ℕ
    → ℕ
    → ℕ
    → ℕ
    → GovPolicy
    → GovRq
    → Ticked
unfolding tick_update
lse_gov_tick_update k s policy t lrqs cpu dsq_boost now_ns now lg grq =
    if ltb (sub64 now_ns grq.last_tick_ns) lse_gov_rate_limit_ns
    then record { lg = lg; grq = grq; command = none }
    else tick_update k s policy t lrqs cpu dsq_boost now lg (record grq { last_tick_ns = now_ns })
