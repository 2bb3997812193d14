-- ===== src/Samples.antt =====
-- Concrete kernels, tasks and structures for the tests of the other modules.
use lunarkernel_sched_extent.Base.{ℕ, ◌*◌, ◌/◌, ◌^◌, true, false, [], ◌∷◌, some, leb}
use lunarkernel_sched_extent.Base.Int.{pos, negsuc}
use lunarkernel_sched_extent.Base.Word.{sub64}
use lunarkernel_sched_extent.Kernel.{Kernel, Task, Rq, sched_other}
use lunarkernel_sched_extent.State.{Lts, Lrq, class_normal}
use lunarkernel_sched_extent.Track.Globals.{Globals}
use lunarkernel_sched_extent.Gov.Policy.{Switches, FreqPolicy, Tunables, GovPolicy}

-- two CPUs, HZ = 250
abbrev pub two_cpus : Kernel
two_cpus = record {
  nr_cpu_ids = 2;
  online_cpus = 0 ∷ 1 ∷ [];
  possible_cpus = 0 ∷ 1 ∷ [];
  cpufreq_cpu_get_raw =
      λ cpu. some (record { cur = 1000000; max_freq = 2000000; min_freq = 300000 });
  arch_scale_cpu_capacity = λ cpu. 1024;
  msecs_to_jiffies = λ ms. ms / 4;
  time_after = λ a b. leb (2 ^ 63) (sub64 b a);
  mult_frac = λ x n d. x * n / d;
  topology_cluster_id = λ cpu. 0;
}

-- a runnable task of default priority
abbrev pub plain_task : ℕ → Task
plain_task addr = record {
  addr = addr;
  is_idle_task = false;
  policy = sched_other;
  task_nice = pos 0;
  prio = pos 120;
  dl_task = false;
  rt_prio = false;
  nr_cpus_allowed = 2;
  migration_disabled = false;
  any_cpu = 0;
  on_rq = true;
  task_cpu = 0;
}

abbrev pub cpu0 : Rq
cpu0 = record { cpu = 0; curr = 2; idle = 9; locked = true }

abbrev pub plain_lts : ℕ → Lts
plain_lts addr = record {
  task = addr;
  mark_start = 0;
  window_start = 0;
  sum = 0;
  sum_history = 0 ∷ 0 ∷ 0 ∷ 0 ∷ 0 ∷ [];
  cidx = 0;
  demand = 0;
  demand_scaled = 0;
  task_class = class_normal;
  boost_pct = 1024;
  priority_hint = 120;
  on_dsq = false;
}

abbrev pub defaults : Globals
defaults = record {
  lse_sched_ravg_window = 8000000;
  new_lse_sched_ravg_window = 8000000;
  lse_scale_demand_divisor = 7812;
  sched_window_stats_policy = pos 2;
  lse_fg_prio_threshold = pos 118;
  lse_boost_bg_pct = pos 1024;
  lse_boost_fg_pct = pos 1280;
  lse_boost_rt_pct = pos 1536;
  slim_walt_ctrl = true;
  slim_stats = true;
  debug_panic = true;
}

-- a policy from 300 MHz to 2 GHz over two CPUs, as the governor starts it
abbrev pub freq_policy : FreqPolicy
freq_policy = record {
  cur = 1000000;
  max_freq = 2000000;
  min_freq = 300000;
  cpus = 0 ∷ 1 ∷ [];
  first_cpu = 0;
  first_related_cpu = 0;
  fast_switch_enabled = true;
  resolve_freq = λ f. f;
}

abbrev pub switches : Switches
switches = record {
  cluster_window_enable = true;
  cluster_tl_dyn_enable = true;
  cluster_freq_cap_enable = true;
  cluster_agg_mode = pos 1;
  gov_legacy_formula_enable = false;
  lse_sched_ravg_window = 8000000;
}

abbrev pub tunables : Tunables
tunables = record {
  target_loads = 90;
  soft_freq_max = negsuc 0;
  soft_freq_min = negsuc 0;
  apply_freq_immediately = true;
}

abbrev pub gov_policy : GovPolicy
gov_policy = record {
  next_freq = 0;
  freq_cached = 0;
  cluster_id = 0;
  target_load_base = 90;
  target_load_min = 70;
  target_load_max = 95;
  target_load_step = 2;
  cluster_window_ns = 8000000;
  cluster_freq_cap_max = 2000000;
  cluster_freq_cap_min = 300000;
  last_agg_util = 0;
  last_power_pressure = 0;
  last_target_load_dyn = 0;
  last_freq_cap_applied = 0;
}

-- a run queue that was busy for 4 ms of its last window of 8 ms
abbrev pub half_busy : ℕ → Lrq
half_busy cpu = record {
  window_start = 8000000;
  latest_clock = 8000000;
  prev_window_size = 8000000;
  task_exec_scale = 1024;
  prev_runnable_sum = 4000000;
  curr_runnable_sum = 0;
}
