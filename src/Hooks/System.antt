-- ===== src/Hooks/System.antt =====
-- What the hooks of lse_cfs.c work on, and the clocks of lse_main.c and lse_cfs.c.
use lunarkernel_sched_extent.Base.{
  ℕ, max, List, Bool, true, false, Option, none, some, if◌then◌else◌,
}
use lunarkernel_sched_extent.Base.Outcome.{Outcome, done, ◌>>=◌, ◌>>◌}
use lunarkernel_sched_extent.Kernel.{Kernel, Task, Rq}
use lunarkernel_sched_extent.State.{Lts, Lrq, TaskEvent}
use lunarkernel_sched_extent.Track.Globals.{Globals}
use lunarkernel_sched_extent.Track.Rollover.{Shared}
use lunarkernel_sched_extent.Track.Update.{Walt, check_locked, lse_update_task_ravg}
use lunarkernel_sched_extent.Dsq.Queue.{Dsq, DsqConfig, put_at}
use lunarkernel_sched_extent.Monitor.Watch.{Monitor}
use lunarkernel_sched_extent.Gov.Policy.{Switches, FreqPolicy, Tunables, GovPolicy, GovRq, Command}
use lunarkernel_sched_extent.Shadow.Timer.{Shadow}

-- A policy that the governor drives, and what the driver was told last.
pub record Attached : Type 0 where
  pub policy : FreqPolicy
  pub tunables : Tunables
  pub lg : GovPolicy
  pub command : Option Command

-- A cluster of `lse_cluster_head`, as the governor's hook reads it, and its CPUs that are online.
pub record OnlineCluster : Type 0 where
  pub id : ℕ
  pub cluster_online_cpus : List ℕ

-- The governor: the policy of each CPU that has one with the governor's data, the policies, the
-- records of the CPUs, the CPUs at which the kernel holds the governor's hook, the flags of the
-- clusters, and the clusters. `lse_sched_ravg_window` in the switches is the global.
pub record Governor : Type 0 where
  pub switches : Switches
  pub hooked : ℕ → Bool
  pub gov_flag : List Bool
  pub clusters : List OnlineCluster
  pub policy_of : ℕ → Option ℕ
  pub policies : ℕ → Attached
  pub lse_gov_rq_data : ℕ → GovRq

-- The state of the module. A switch that several parts read stands in the record of each. The
-- extensions of the tasks, `get_lse_task_struct`, are in `dsq.ext`.
pub record System : Type 0 where
  pub g : Globals
  pub config : DsqConfig
  pub dsq : Dsq
  pub lrqs : ℕ → Lrq
  pub shared : Shared
  pub monitor : Monitor
  pub shadow : Shadow
  pub governor : Governor
  pub tick_sched_clock : ℕ
  pub lse_clock_suspended : Bool
  pub lse_clock_last : ℕ

-- `sched_clock` is the kernel's clock at the call.
unfoldable pub lse_sched_clock : ℕ → System → ℕ
lse_sched_clock sched_clock s = if s.lse_clock_suspended then s.lse_clock_last else sched_clock

unfoldable pub lse_suspend : ℕ → System → System
lse_suspend sched_clock s = record s { lse_clock_last = sched_clock; lse_clock_suspended = true }

unfoldable pub lse_resume : System → System
lse_resume s = record s { lse_clock_suspended = false }

-- `rq_clock` is the kernel's clock of the run queue, updated if it has to be.
unfoldable pub lse_rq_clock : ℕ → Rq → System → Outcome ℕ
lse_rq_clock rq_clock rq s =
    if s.lse_clock_suspended
    then done s.lse_clock_last
    else (do check_locked s.g rq; done (max rq_clock (s.lrqs rq.cpu).latest_clock))

-- what an update of the task at `a` on the CPU leaves
unfoldable pub put_walt : ℕ → ℕ → Walt → System → System
put_walt a cpu w s = record s {
  dsq = record s.dsq { ext = put_at a (some w.lts) s.dsq.ext };
  lrqs = put_at cpu w.lrq s.lrqs;
  shared = w.shared;
}

-- `if (lts) lse_update_task_ravg(lts, p, rq, event, lse_rq_clock(rq))`
unfoldable pub update_ext :
    Kernel → ℕ → Task → Rq → TaskEvent → Option Lts → System → Outcome System
update_ext k rq_clock p rq event none s = done s
update_ext k rq_clock p rq event (some lts) s = do
  wallclock ← lse_rq_clock rq_clock rq s
  w ←
      lse_update_task_ravg k s.g p rq event wallclock
        (record { lts = lts; lrq = s.lrqs rq.cpu; shared = s.shared })
  done (put_walt p.addr rq.cpu w s)
