-- ===== src/Gov/Start.antt =====
-- The start and the stop of the governor on a policy, and the accessors of the policy's record:
-- `lse_gov_start`, `lse_gov_stop` and `lse_gov_cluster_window_ns` to
-- `lse_gov_cluster_power_pressure` of cpufreq_lse.c.
use lunarkernel_sched_extent.Base.{
  ℕ, Bool, true, false, List, Option, none, some, ltb, leb, ◌==◌, set, is_member, if◌then◌else◌,
}
use lunarkernel_sched_extent.Base.Int.{ℤ, pos, negsuc}
use lunarkernel_sched_extent.Kernel.{Kernel}
use lunarkernel_sched_extent.Gov.Policy.{
  Switches, FreqPolicy, GovPolicy, default_target_load, max_lse_clusters,
}

-- struct lse_cluster_gov_cfg
pub record ClusterCfg : Type 0 where
  pub target_load_base : ℕ
  pub target_load_min : ℕ
  pub target_load_max : ℕ
  pub target_load_step : ℕ
  pub window_ns : ℕ
  pub freq_cap_max : ℕ
  pub freq_cap_min : ℕ

-- The arrays gov_flag and lse_cluster_cfg, and which policy `lg_policy` of each CPU points to:
-- the CPU stands for the policy that governs it.
pub record GovGlobals : Type 0 where
  pub gov_flag : List Bool
  pub lse_cluster_cfg : List ClusterCfg
  pub governs : ℕ → Option ℕ
  -- the CPUs with a hook of the governor
  pub hooked : ℕ → Bool

-- The values that a start gives to a policy.
unfoldable pub start_policy : Kernel → Switches → FreqPolicy → GovPolicy → GovPolicy
start_policy k s policy lg = record lg {
  next_freq = 0;
  cluster_id = k.topology_cluster_id policy.first_related_cpu;
  target_load_base = default_target_load;
  target_load_min = 70;
  target_load_max = 95;
  target_load_step = 2;
  cluster_window_ns = s.lse_sched_ravg_window;
  cluster_freq_cap_max = policy.max_freq;
  cluster_freq_cap_min = policy.min_freq;
}

abbrev pub cfg_of : GovPolicy → ClusterCfg
cfg_of lg = record {
  target_load_base = lg.target_load_base;
  target_load_min = lg.target_load_min;
  target_load_max = lg.target_load_max;
  target_load_step = lg.target_load_step;
  window_ns = lg.cluster_window_ns;
  freq_cap_max = lg.cluster_freq_cap_max;
  freq_cap_min = lg.cluster_freq_cap_min;
}

-- `id` names the policy.
unfoldable pub lse_gov_start :
    Kernel → Switches → FreqPolicy → ℕ → GovGlobals → GovPolicy → GovGlobals × GovPolicy
unfolding start_policy
lse_gov_start k s policy id g lg =
    let lg' = start_policy k s policy lg in
    let linked = record g {
      governs = λ cpu. if is_member cpu policy.cpus then some id else g.governs cpu;
      hooked = λ cpu. if is_member cpu policy.cpus then true else g.hooked cpu;
    } in
    (
      (if ltb lg'.cluster_id max_lse_clusters
          then record linked {
            gov_flag = set g.gov_flag lg'.cluster_id true;
            lse_cluster_cfg = set g.lse_cluster_cfg lg'.cluster_id (cfg_of lg');
          }
          else linked),
      lg',
    )

unfoldable pub lse_gov_stop : Kernel → FreqPolicy → GovGlobals → GovGlobals
lse_gov_stop k policy g =
    let cluster_id = k.topology_cluster_id policy.first_related_cpu in
    let unhooked = record g {
      hooked = λ cpu. if is_member cpu policy.cpus then false else g.hooked cpu;
    } in
    if ltb cluster_id max_lse_clusters
    then record unhooked { gov_flag = set g.gov_flag cluster_id false }
    else unhooked

-- `policies` is the memory in which the policies' records stand.
unfoldable pub lse_gov_policy_from_cpu :
    Kernel → GovGlobals → (ℕ → Option GovPolicy) → ℤ → Option GovPolicy
lse_gov_policy_from_cpu k g policies (negsuc n) = none
lse_gov_policy_from_cpu k g policies (pos cpu) =
    if leb k.nr_cpu_ids cpu
    then none
    else elim (g.governs cpu) [ none ↦ none | some id ↦ policies id ]

unfoldable pub lse_gov_cluster_window_ns : Switches → Option GovPolicy → ℕ
lse_gov_cluster_window_ns s none = s.lse_sched_ravg_window
lse_gov_cluster_window_ns s (some lg) = lg.cluster_window_ns

unfoldable pub lse_gov_cluster_target_load_dyn : Option GovPolicy → ℕ
lse_gov_cluster_target_load_dyn none = default_target_load
lse_gov_cluster_target_load_dyn (some lg) =
    if lg.last_target_load_dyn == 0 then lg.target_load_base else lg.last_target_load_dyn

unfoldable pub lse_gov_cluster_agg_util : Option GovPolicy → ℕ
lse_gov_cluster_agg_util none = 0
lse_gov_cluster_agg_util (some lg) = lg.last_agg_util

unfoldable pub lse_gov_cluster_freq_cap_applied : Option GovPolicy → ℕ
lse_gov_cluster_freq_cap_applied none = 0
lse_gov_cluster_freq_cap_applied (some lg) = lg.last_freq_cap_applied

unfoldable pub lse_gov_cluster_power_pressure : Option GovPolicy → ℕ
lse_gov_cluster_power_pressure none = 0
lse_gov_cluster_power_pressure (some lg) = lg.last_power_pressure
