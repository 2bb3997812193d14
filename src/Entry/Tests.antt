-- ===== src/Entry/Tests.antt =====
-- A concrete load of the module, and what follows it.
use lunarkernel_sched_extent.Base.{ℕ, ◌≡◌, refl, true, false, List, [], ◌∷◌, arith}
use lunarkernel_sched_extent.Base.Int.{pos}
use lunarkernel_sched_extent.Base.Outcome.{done}
use lunarkernel_sched_extent.Samples.{two_cpus, plain_task, cpu0, defaults}
use lunarkernel_sched_extent.Dsq.Queue.{QueueId}
use lunarkernel_sched_extent.Dsq.Invariant.{IsWellFormed}
use lunarkernel_sched_extent.Cluster.Topology.{
  update_cluster_topology, make_clusters, add_cluster, insert_cluster, alloc_new_cluster,
  get_possible_siblings, siblings, andnot, align_clusters, assign_cluster_ids,
}
use lunarkernel_sched_extent.Cluster.Tests.{two_clusters}
use lunarkernel_sched_extent.Hooks.System.{System}
use lunarkernel_sched_extent.Hooks.Samples.{running}
use lunarkernel_sched_extent.Hooks.Sound.{Sound}
use lunarkernel_sched_extent.Hooks.Events.{Event, at_schedule, at_fork, at_rate, at_suspend}
use lunarkernel_sched_extent.Sysctl.Memory.{Memory}
use lunarkernel_sched_extent.Sysctl.Samples.{call, values}
use lunarkernel_sched_extent.Sysctl.Rest.{Synced}
use lunarkernel_sched_extent.Entry.Init.{Boot, lse_sched_cluster_init, lunar_sched_ext_init}
use lunarkernel_sched_extent.Hooks.Places.{index_for}
use lunarkernel_sched_extent.Dsq.Filed.{Filed}
use lunarkernel_sched_extent.Entry.Early.{AtLoad}
use lunarkernel_sched_extent.Entry.Ready.{init-Ready}

-- Two threads, the second without memory for its extension, and two CPUs with a cluster each.
abbrev boot : Boot
boot = record {
  call = call;
  cache = true;
  tasks = (true, plain_task 1) ∷ (false, plain_task 2) ∷ [];
  cluster_id = λ cpu. pos cpu;
}

abbrev unloaded : System
unloaded = record running {
  lrqs = λ cpu. record {
    window_start = 0;
    latest_clock = 0;
    prev_window_size = 0;
    task_exec_scale = 0;
    prev_runnable_sum = 0;
    curr_runnable_sum = 0;
  };
  monitor = record running.monitor { lse_monitor_inited = false };
  governor = record running.governor { hooked = λ cpu. false; clusters = [] };
  shadow = record running.shadow { lse_shadow_tick_inited = false };
}

abbrev static_memory : Memory
static_memory = record { vars = values; system = unloaded }

unloaded-AtLoad : AtLoad two_cpus unloaded
unloaded-AtLoad = record {
  window = refl;
  coming = refl;
  awake = refl;
  clocks = λ cpu. (refl, refl);
  empty = λ q out. (refl, refl);
  bare = λ a. refl;
  unhooked = λ cpu. refl;
}

two_made : lse_sched_cluster_init two_cpus (λ cpu. pos cpu) ≡ done two_clusters
unfolding lse_sched_cluster_init update_cluster_topology make_clusters add_cluster insert_cluster
    alloc_new_cluster get_possible_siblings siblings andnot align_clusters assign_cluster_ids
two_made = refl

init-Ready_example :
    (m' : Memory) × (lunar_sched_ext_init boot static_memory
      ≡ done (record { memory = m'; clusters = two_clusters }))
    × Sound 1000000 5000000 false m'.system
    × Synced call m'
    × IsWellFormed m'.system.dsq
    × ((q : QueueId) → (m'.system.dsq.queues q).fifo ≡ [])
init-Ready_example =
    init-Ready 1000000 5000000 boot static_memory two_clusters (omega arith) (omega arith)
      unloaded-AtLoad two_made

-- a switch between the threads, a new one, a new frame rate and a suspension
abbrev first_second : List (ℕ × Event)
first_second =
    (30000000, at_schedule 100 cpu0 (plain_task 1) (plain_task 2))
    ∷ (31000000, at_fork true (plain_task 3))
    ∷ (900000000, at_rate 60)
    ∷ (910000000, at_suspend)
    ∷ []

-- where the two threads belong
abbrev places : ℕ → ℕ
places a = index_for defaults (plain_task a)
