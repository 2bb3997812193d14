-- ===== src/Gov/Policy.antt =====
-- The state of the governor: the structures and the switches of cpufreq_lse.c.
use lunarkernel_sched_extent.Base.{ℕ, Bool, List}
use lunarkernel_sched_extent.Base.Int.{ℤ}

-- The globals that the governor reads. A C `int` that is only tested is its truth value.
pub record Switches : Type 0 where
  pub cluster_window_enable : Bool
  pub cluster_tl_dyn_enable : Bool
  pub cluster_freq_cap_enable : Bool
  pub cluster_agg_mode : ℤ
  pub gov_legacy_formula_enable : Bool
  pub lse_sched_ravg_window : ℕ

-- What the code reads of the kernel's `struct cpufreq_policy`, with `cpufreq_driver_resolve_freq`
-- at this policy.
pub record FreqPolicy : Type 0 where
  pub cur : ℕ
  pub max_freq : ℕ
  pub min_freq : ℕ
  pub cpus : List ℕ
  pub first_cpu : ℕ
  pub first_related_cpu : ℕ
  pub fast_switch_enabled : Bool
  pub resolve_freq : ℕ → ℕ

-- struct lse_gov_tunables
pub record Tunables : Type 0 where
  pub target_loads : ℕ
  pub soft_freq_max : ℤ
  pub soft_freq_min : ℤ
  pub apply_freq_immediately : Bool

-- struct lse_gov_policy, without its thread, work and locks. Policies may share their tunables.
pub record GovPolicy : Type 0 where
  pub next_freq : ℕ
  pub freq_cached : ℕ
  pub cluster_id : ℕ
  pub target_load_base : ℕ
  pub target_load_min : ℕ
  pub target_load_max : ℕ
  pub target_load_step : ℕ
  pub cluster_window_ns : ℕ
  pub cluster_freq_cap_max : ℕ
  pub cluster_freq_cap_min : ℕ
  pub last_agg_util : ℕ
  pub last_power_pressure : ℕ
  pub last_target_load_dyn : ℕ
  pub last_freq_cap_applied : ℕ

-- struct lse_gov_rq
pub record GovRq : Type 0 where
  pub last_tick_ns : ℕ
  pub curr_util : ℕ
  pub cached_this_sum : ℕ
  pub cached_agg_util : ℕ

-- What the driver is told: `cpufreq_driver_fast_switch` at a frequency, or `kthread_queue_work`,
-- after which the thread reads `next_freq`.
pub data Command : Type 0 where
  fast_switch : ℕ → Command
  queue_work : Command

-- DEFAULT_TARGET_LOAD, LSE_GOV_RATE_LIMIT_NS, UTIL_CACHE_STALE_NS and MAX_LSE_CLUSTERS
abbrev pub default_target_load : ℕ
default_target_load = 90

abbrev pub lse_gov_rate_limit_ns : ℕ
lse_gov_rate_limit_ns = 400000

abbrev pub util_cache_stale_ns : ℕ
util_cache_stale_ns = 16000000

abbrev pub max_lse_clusters : ℕ
max_lse_clusters = 4
