-- ===== src/Lib.antt =====
-- Lunar Scheduling Extension: an out-of-tree kernel module that tracks the load of tasks and CPUs in
-- windows (WALT), sorts waiting tasks into dispatch queues for monitoring, and drives a cpufreq
-- governor.
--
-- The scheduler calls the hooks of lse_cfs.c at ticks and context switches. They update the load of
-- a task and its CPU (lse_util_track.c), file the task that leaves into a dispatch queue and take
-- the one that arrives out of it (lse_dsq.c), and touch the monitor (lse_monitor.c). At the end of a
-- window the irq work updates the running task, calls the governor's hook, which sets the
-- frequencies of the clusters (cpufreq_lse.c), and adopts a new window.
--
--   Base          the numbers, words, lists and outcomes that all modules share
--   Kernel        the kernel's own objects and functions, as arguments of the model
--   State         the structures of lse_main.h
--   Track         lse_util_track.c
--   Dsq           lse_dsq.c and lse_dsq.h
--   Gov           cpufreq_lse.c
--   Monitor       lse_monitor.c
--   Shadow        lse_shadow_tick.c
--   Hooks         lse_cfs.c, lse_task_struct_ext.c and the clock of lse_main.c; the runs of the hooks
--   Cluster       lse_sched_cluster.c, the topology on the list of clusters (Cluster.Topology) and on
--                 clusters by address (Cluster.Build), and the notifiers (Cluster.Notifiers)
--   Sysctl        lse_sysctl.c, the table, its handlers and the initialisation, and the file status
--                 of lse_monitor.c, which prints the settings (Sysctl.Status)
--   Entry         the load of the module, lunar_sched_ext_init of lse_main.c
--   Samples       concrete kernels, tasks and structures for the tests
--
-- Names are those of the source. A function that writes through pointers returns the new values; a
-- word is a number, and every operation that can wrap has its modulus written out; a C `int` that
-- can be negative is an integer of Base.Int. LSE_BUG, which stops the kernel in the default
-- configuration, a division by zero and an access through a null pointer or past an array are
-- outcomes of their own (Base.Outcome). A task is known by its address, and a dispatch queue is the
-- list of the addresses that its nodes link. The hooks (Hooks.System) put the states of the parts
-- together. Loops over arrays, lists and CPUs are recursions on the number of rounds or on the list;
-- no fuel is needed. Where the order of calls matters (the driver of the governor, the monitor, the
-- shadow tick) the calls are the steps of a relation, and the theorem is on what it reaches.
--
-- The hooks (Hooks.System) and the load (Entry.Init) read the topology as a list of clusters
-- (Cluster.Topology), and the governor's hook as the ids and the online CPUs of that list
-- (Hooks.Hook); the notifiers work on clusters by address, with the pointers of the CPUs,
-- which Cluster.Build sets up by the same steps. A run of the module is the load and then a list of
-- events, each with its clock (Hooks.Events); a start, a stop or another change of the governor
-- between them, which Gov.Attach has in detail, is an event given by what it leaves.
--
-- The kernel's own functions are arguments: its clocks, time and capacity functions (Kernel), the
-- functions that parse and print a sysctl value (Sysctl.Memory), scnprintf (Monitor.Proc, Sysctl.Status),
-- kzalloc for the clusters (Cluster.Build), the driver, the allocator, the threads and the
-- attribute sets that the governor asks for (Gov.Attach), and the requests of the quality of
-- service that the clusters make (Cluster.Notifiers).
--
-- Not modelled: the locks (every operation runs under the lock that the source takes), trace and
-- log output but for the dump of the queues (Dsq.Dump), the kernel's sysfs objects, and the
-- registration of hooks, notifiers, governor and table, since none of them changes what the code
-- reads. The kernel's timers, works and drivers are the states that the code can see of them:
-- pending or not, and the frequency that was commanded.
pub mod Base
pub mod Kernel
pub mod State
pub mod Sysctl
pub mod Monitor
pub mod Samples
pub mod Track
pub mod Dsq
pub mod Gov
pub mod Shadow
pub mod Hooks
pub mod Cluster
pub mod Entry
