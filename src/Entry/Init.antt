-- ===== src/Entry/Init.antt =====
-- `lunar_sched_ext_init` of lse_main.c, and the functions that it calls of lse_task_struct_ext.c,
-- lse_sched_cluster.c and lse_util_track.c.
use lunarkernel_sched_extent.Base.{ℕ, Bool, List, [], ◌∷◌, if◌then◌else◌, false, is_member}
use lunarkernel_sched_extent.Base.Int.{ℤ, pos, negsuc}
use lunarkernel_sched_extent.Base.Outcome.{Outcome, done, ◌>>=◌}
use lunarkernel_sched_extent.Kernel.{Kernel, Task}
use lunarkernel_sched_extent.Track.Update.{lse_sched_init_rq, init_globals}
use lunarkernel_sched_extent.Dsq.Queue.{Dsq, put_at}
use lunarkernel_sched_extent.Dsq.Sync.{lse_dsq_init}
use lunarkernel_sched_extent.Monitor.Watch.{lse_monitor_init}
use lunarkernel_sched_extent.Shadow.Timer.{lse_shadow_tick_init}
use lunarkernel_sched_extent.Cluster.Topology.{SchedCluster, update_cluster_topology}
use lunarkernel_sched_extent.Hooks.System.{OnlineCluster, System}
use lunarkernel_sched_extent.Hooks.Extension.{alloc_lts_mem_for_all_threads}
use lunarkernel_sched_extent.Sysctl.Table.{sched_window_stats_policy}
use lunarkernel_sched_extent.Sysctl.Handlers.{lse_sysctl_init}
use lunarkernel_sched_extent.Sysctl.Memory.{Call, Memory, put_setting}

-- What the load finds besides a call: whether kmem_cache_create succeeds, the threads and then the
-- idle tasks of the CPUs with the outcome of the allocation for each, and the cluster of each CPU
-- in the kernel's topology.
pub record Boot : Type 0 where
  pub call : Call
  pub cache : Bool
  pub tasks : List (Bool × Task)
  pub cluster_id : ℕ → ℤ

-- The memory of the module, and the list behind lse_cluster_head.
pub record Module : Type 0 where
  pub memory : Memory
  pub clusters : List SchedCluster

-- -ENOMEM
abbrev pub enomem : ℤ
enomem = negsuc 11

-- without the registration of the hooks
unfoldable pub lse_task_struct_ext_init : Bool → List (Bool × Task) → Dsq → ℤ × Dsq
lse_task_struct_ext_init cache tasks s =
    if cache then (pos 0, alloc_lts_mem_for_all_threads tasks s) else (enomem, s)

-- The static cluster, of all possible CPUs, is the only one.
unfoldable pub static_clusters : Kernel → List SchedCluster
static_clusters k =
    record {
      id = 0;
      cpus = k.possible_cpus;
      max_possible_capacity = 1024;
      cur_freq = 1;
      max_freq = 1;
      min_freq = 1;
      freq_init_done = false;
      capacity_margin = 1280;
      sd_capacity_margin = 1280;
    }
    ∷ []

-- without the registration of the notifiers
unfoldable pub lse_sched_cluster_init : Kernel → (ℕ → ℤ) → Outcome (List SchedCluster)
unfolding static_clusters
lse_sched_cluster_init k cluster_id = update_cluster_topology k cluster_id (static_clusters k)

-- for_each_possible_cpu
unfoldable pub init_rqs : List ℕ → System → System
unfolding put_at
init_rqs [] s = s
init_rqs (cpu ∷ cpus) s =
    init_rqs cpus (record s { lrqs = put_at cpu (lse_sched_init_rq s.g (s.lrqs cpu)) s.lrqs })

-- At the load the irq work was not initialised before, so it is now, and is not queued.
unfoldable pub lse_sched_stats_init : Kernel → System → System
unfolding init_rqs
lse_sched_stats_init k s =
    let rqs = init_rqs k.possible_cpus s in
    record rqs { g = init_globals rqs.g; shared = record rqs.shared { irq_work_queued = false } }

-- The calls from lse_dsq_init to lse_shadow_tick_init.
unfoldable pub init_parts : Kernel → ℕ → System → System
unfolding lse_sched_stats_init
init_parts k jiffies s =
    let queued = record s { dsq = lse_dsq_init k jiffies s.dsq } in
    let tracked = lse_sched_stats_init k queued in
    record tracked {
      monitor = lse_monitor_init k jiffies tracked.monitor;
      shadow = lse_shadow_tick_init k.possible_cpus tracked.shadow;
    }

-- What the calls before lse_sysctl_init leave, the clusters aside.
unfoldable pub init_memory : Boot → Memory → Memory
unfolding init_parts lse_task_struct_ext_init
init_memory b m =
    let (err, extended) = lse_task_struct_ext_init b.cache b.tasks m.system.dsq in
    record {
      vars = put_setting sched_window_stats_policy (pos 2) m.vars;
      system = init_parts b.call.k b.call.jiffies (record m.system { dsq = extended });
    }

-- cpumask_and with the CPUs that are online
unfoldable pub online_of : Kernel → List ℕ → List ℕ
online_of k [] = []
online_of k (cpu ∷ cpus) =
    let rest = online_of k cpus in if is_member cpu k.online_cpus then cpu ∷ rest else rest

-- the clusters as the governor's hook will read them; the other calls do not
unfoldable pub list_clusters : Kernel → List SchedCluster → List OnlineCluster
unfolding online_of
list_clusters k [] = []
list_clusters k (c ∷ cs) =
    record { id = c.id; cluster_online_cpus = online_of k c.cpus } ∷ list_clusters k cs

abbrev pub with_clusters : Kernel → List SchedCluster → Memory → Memory
with_clusters k clusters m = record m {
  system = record m.system {
    governor = record m.system.governor { clusters = list_clusters k clusters };
  };
}

-- without the registrations; what lse_task_struct_ext_init returns is not looked at
unfoldable pub lunar_sched_ext_init : Boot → Memory → Outcome Module
unfolding init_memory lse_sched_cluster_init list_clusters
lunar_sched_ext_init b m = do
  clusters ← lse_sched_cluster_init b.call.k b.cluster_id
  done (record {
    memory = with_clusters b.call.k clusters (lse_sysctl_init b.call (init_memory b m));
    clusters = clusters;
  })
