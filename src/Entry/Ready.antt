-- ===== src/Entry/Ready.antt =====
-- The module after its load is ready for whatever the kernel calls it for.
use lunarkernel_sched_extent.Base.{ℕ, ◌≤◌, ◌<◌, ◌≡◌, ◌≢◌, refl, true, false, List, [], arith}
use lunarkernel_sched_extent.Base.Outcome.{done, ◌>>=◌}
use lunarkernel_sched_extent.Kernel.{Kernel}
use lunarkernel_sched_extent.Track.Update.{init_globals}
use lunarkernel_sched_extent.Dsq.Queue.{QueueId}
use lunarkernel_sched_extent.Dsq.Invariant.{IsWellFormed}
use lunarkernel_sched_extent.Monitor.Watch.{Monitor, lse_monitor_sync, lse_monitor_init}
use lunarkernel_sched_extent.Shadow.Timer.{Shadow, lse_shadow_tick_init}
use lunarkernel_sched_extent.Cluster.Topology.{SchedCluster}
use lunarkernel_sched_extent.Hooks.System.{System, lse_sched_clock}
use lunarkernel_sched_extent.Hooks.Sound.{Sound}
use lunarkernel_sched_extent.Hooks.Events.{Event, run}
use lunarkernel_sched_extent.Hooks.Run.{Lawful, run-Sound}
use lunarkernel_sched_extent.Sysctl.Handlers.{lse_sysctl_init}
use lunarkernel_sched_extent.Sysctl.Memory.{Call, Memory}
use lunarkernel_sched_extent.Sysctl.Rest.{Synced}
use lunarkernel_sched_extent.Sysctl.Toggles.{init-Synced}
use lunarkernel_sched_extent.Entry.Init.{
  Boot, lse_task_struct_ext_init, lse_sched_cluster_init, lse_sched_stats_init, init_parts,
  init_memory, with_clusters, lunar_sched_ext_init,
}
use lunarkernel_sched_extent.Entry.Early.{
  AtLoad, Early, AtLoad-Unmarked, AtLoad-Early, dsq-Early, init_parts-Early, init_parts-Idle,
  g-init_rqs,
}
use lunarkernel_sched_extent.Entry.Idle.{
  Idle, Unmarked, Idle-IsWellFormed, ext_init-Unmarked, queues-ext_init, dsq_init-Idle,
  dsq_sync-Idle,
}

monitor_init-inited :
    (k : Kernel) (jiffies : ℕ) (m : Monitor)
    → (lse_monitor_init k jiffies m).lse_monitor_inited ≡ true
unfolding lse_monitor_init lse_monitor_sync
monitor_init-inited k jiffies m = ground arith

shadow_init-inited :
    (cpus : List ℕ) (s : Shadow) → (lse_shadow_tick_init cpus s).lse_shadow_tick_inited ≡ true
unfolding lse_shadow_tick_init
shadow_init-inited cpus s = ground arith

-- The memory that the load leaves.
abbrev pub loaded_memory : Boot → List SchedCluster → Memory → Memory
loaded_memory b clusters m =
    with_clusters b.call.k clusters (lse_sysctl_init b.call (init_memory b m))

pub g-loaded :
    (b : Boot) (clusters : List SchedCluster) (m : Memory)
    → let s = (loaded_memory b clusters m).system in
      (s.g ≡ init_globals m.system.g) × (s.config ≡ m.system.config)
unfolding lse_sysctl_init init_memory init_parts lse_sched_stats_init
g-loaded b clusters m = let rqs = g-init_rqs b.call.k.possible_cpus _ in (rw rqs.0 refl, rqs.1)

memory-Synced : (b : Boot) (m : Memory) → Synced b.call (lse_sysctl_init b.call (init_memory b m))
unfolding init_memory init_parts
memory-Synced b m =
    init-Synced b.call (init_memory b m) (monitor_init-inited b.call.k b.call.jiffies _)
      (shadow_init-inited b.call.k.possible_cpus _)

module _ (least clock : ℕ) where
  init_memory-Early :
      (b : Boot) (m : Memory)
      → 0 < clock
      → least ≤ 8000000
      → AtLoad b.call.k m.system
      → Early least clock (init_memory b m).system × Idle (init_memory b m).system.dsq
  unfolding init_memory
  init_memory-Early b m p le v =
      let extended = (lse_task_struct_ext_init b.cache b.tasks m.system.dsq).1 in
      let s : System = record m.system { dsq = extended } in
      let unmarked : Unmarked extended =
        ext_init-Unmarked b.cache b.tasks m.system.dsq (AtLoad-Unmarked b.call.k m.system v) in
      let idle =
        dsq_init-Idle b.call.k b.call.jiffies extended unmarked
          (λ q out. rw (queues-ext_init b.cache b.tasks m.system.dsq) (v.empty q out)) in
      let early : Early least clock s =
        dsq-Early least clock m.system extended unmarked.fresh
          (AtLoad-Early least clock b.call.k m.system p le v) in
      (
        init_parts-Early least clock b.call.k b.call.jiffies s idle early,
        init_parts-Idle b.call.k b.call.jiffies s idle,
      )

  sysctl_init-Early :
      (c : Call) (m : Memory)
      → Idle m.system.dsq
      → Early least clock m.system
      → Early least clock (lse_sysctl_init c m).system × Idle (lse_sysctl_init c m).system.dsq
  unfolding lse_sysctl_init lse_sched_clock
  sysctl_init-Early c m i v =
      let idle = dsq_sync-Idle c.k m.system.config m.system.dsq i in
      (
        record {
          window = v.window;
          coming = v.coming;
          clock_in = v.clock_in;
          awake = v.awake;
          behind = v.behind;
          fresh = idle.fresh;
          unhooked = v.unhooked;
        },
        idle,
      )

  -- the divisor is set, and no governor has a hook
  clustered-Sound :
      (k : Kernel) (clusters : List SchedCluster) (m : Memory)
      → m.system.g.lse_scale_demand_divisor ≢ 0
      → Early least clock m.system
      → Sound least clock false (with_clusters k clusters m).system
  unfolding lse_sched_clock
  clustered-Sound k clusters m n v = record {
    window = v.window;
    coming = v.coming;
    divisor = n;
    guided = λ cpu on. let off = v.unhooked cpu in cc;
    clock_in = v.clock_in;
    awake = v.awake;
    behind = v.behind;
    fresh = v.fresh;
  }

  loaded-divisor :
      (b : Boot) (clusters : List SchedCluster) (m : Memory)
      → AtLoad b.call.k m.system
      → (loaded_memory b clusters m).system.g.lse_scale_demand_divisor ≢ 0
  loaded-divisor b clusters m v =
      rw (g-loaded b clusters m).0 (unfold init_globals in omega (arith, v.window))

  pub loaded-Sound :
      (b : Boot) (m : Memory) (clusters : List SchedCluster)
      → 0 < clock
      → least ≤ 8000000
      → AtLoad b.call.k m.system
      → lse_sched_cluster_init b.call.k b.cluster_id ≡ done clusters
      → (lunar_sched_ext_init b m
          ≡ done (record { memory = loaded_memory b clusters m; clusters = clusters }))
        × Sound least clock false (loaded_memory b clusters m).system
        × Idle (loaded_memory b clusters m).system.dsq
  unfolding lunar_sched_ext_init
  loaded-Sound b m clusters p le v h =
      let (early, idle) = init_memory-Early b m p le v in
      let (early', idle') = sysctl_init-Early b.call (init_memory b m) idle early in
      (
        rw h refl,
        clustered-Sound b.call.k clusters (lse_sysctl_init b.call (init_memory b m))
            (loaded-divisor b clusters m v) early',
        idle',
      )

  -- From the static memory, at a clock past 0 and with no hook of the governor set, the load of
  -- the module ends if the kernel's topology gives the clusters without a bug. It leaves the
  -- invariant of the hooks with windows of at least any size up to the default 8 ms and a divisor
  -- of the demand that is not 0, the parts in line with their switches, the invariant of the
  -- queues, and no task that waits, whichever allocations fail. Nothing is asked of the queues
  -- that the load initialises.
  pub init-Ready :
      (b : Boot) (m : Memory) (clusters : List SchedCluster)
      → 0 < clock
      → least ≤ 8000000
      → AtLoad b.call.k m.system
      → lse_sched_cluster_init b.call.k b.cluster_id ≡ done clusters
      → (m' : Memory) × (lunar_sched_ext_init b m
          ≡ done (record { memory = m'; clusters = clusters }))
        × Sound least clock false m'.system
        × Synced b.call m'
        × IsWellFormed m'.system.dsq
        × ((q : QueueId) → (m'.system.dsq.queues q).fifo ≡ [])
  init-Ready b m clusters p le v h =
      let (e, sound, idle) = loaded-Sound b m clusters p le v h in
      (
        loaded_memory b clusters m,
        e,
        sound,
        memory-Synced b m,
        Idle-IsWellFormed _ idle,
        λ q. (idle.empty q).0,
      )

  -- The module, loaded at a clock past 0 from its static memory, and then called for whatever events
  -- in whatever order, ends all of them without a bug, if the kernel's topology gives the clusters
  -- without one, and the kernel keeps to what a lawful run needs.
  init-runs :
      (b : Boot) (m : Memory) (clusters : List SchedCluster) (events : List (ℕ × Event))
      → 0 < clock
      → least ≤ 8000000
      → AtLoad b.call.k m.system
      → lse_sched_cluster_init b.call.k b.cluster_id ≡ done clusters
      → Lawful b.call.k least false clock events
      → (s : System) × ((lunar_sched_ext_init b m >>= λ loaded.
            run b.call.k events loaded.memory.system)
          ≡ done s)
  init-runs b m clusters events p le v h lawful =
      let (m', e, sound, synced, formed, empty) = init-Ready b m clusters p le v h in
      let (s, end, off, r, ready) =
        run-Sound b.call.k least events false clock m'.system sound lawful in
      (s, rw e r)
