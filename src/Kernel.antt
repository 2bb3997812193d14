-- ===== src/Kernel.antt =====
-- What the code reads of the kernel's own objects: the fields of `struct task_struct`,
-- `struct rq` and `struct cpufreq_policy` that it looks at, and the kernel functions that it calls.
-- None of this is code of the repository: tasks, run queues and functions are arguments of the
-- model, with no law but where a theorem names one.
use lunarkernel_sched_extent.Base.{ℕ, Bool, List, Option}
use lunarkernel_sched_extent.Base.Int.{ℤ}

-- `p->policy`, as far as the code tells policies apart.
pub data Policy : Type 0 where
  sched_fifo sched_rr sched_deadline sched_other : Policy

-- A task as the code sees it; `addr` stands for its address.
pub record Task : Type 0 where
  pub addr : ℕ
  pub is_idle_task : Bool
  pub policy : Policy
  pub task_nice : ℤ
  pub prio : ℤ
  pub dl_task : Bool
  pub rt_prio : Bool
  pub nr_cpus_allowed : ℕ
  pub migration_disabled : Bool
  -- cpumask_any(p->cpus_ptr)
  pub any_cpu : ℕ
  -- task_on_rq_queued(p)
  pub on_rq : Bool
  pub task_cpu : ℕ

-- A run queue: its CPU, the addresses of its current and its idle task, and its lock.
pub record Rq : Type 0 where
  pub cpu : ℕ
  pub curr : ℕ
  pub idle : ℕ
  pub locked : Bool

-- What `cpufreq_cpu_get_raw(cpu)` points to.
pub record CpuFreq : Type 0 where
  pub cur : ℕ
  pub max_freq : ℕ
  pub min_freq : ℕ

pub record Kernel : Type 0 where
  pub nr_cpu_ids : ℕ
  -- the CPUs that `for_each_online_cpu` and `for_each_possible_cpu` visit, in order
  pub online_cpus : List ℕ
  pub possible_cpus : List ℕ
  pub cpufreq_cpu_get_raw : ℕ → Option CpuFreq
  pub arch_scale_cpu_capacity : ℕ → ℕ
  pub msecs_to_jiffies : ℕ → ℕ
  -- time_after(a, b)
  pub time_after : ℕ → ℕ → Bool
  -- mult_frac(x, n, d): x * n / d
  pub mult_frac : ℕ → ℕ → ℕ → ℕ
  -- topology_cluster_id(cpu)
  pub topology_cluster_id : ℕ → ℕ
