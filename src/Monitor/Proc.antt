-- ===== src/Monitor/Proc.antt =====
-- The files `stats` and `tasks` below /proc/lunar_sched_ext, which lse_monitor.c prints.
use Prim.Native.String.{String}
use lunarkernel_sched_extent.Base.{
  ℕ, List, [], ◌∷◌, ◌++◌, length, leb, Option, none, some, if◌then◌else◌,
}
use lunarkernel_sched_extent.Base.Int.{ℤ, pos}
use lunarkernel_sched_extent.Base.Word.{sub64}
use lunarkernel_sched_extent.Kernel.{Kernel, Task}
use lunarkernel_sched_extent.State.{
  Lts, TaskClass, class_idle, class_background, class_normal, class_foreground, class_rt,
  class_deadline,
}
use lunarkernel_sched_extent.Dsq.Queue.{Dsq}
use lunarkernel_sched_extent.Dsq.Timeout.{lse_dsq_depth_pcp}
use lunarkernel_sched_extent.Gov.Policy.{Switches, GovPolicy}
use lunarkernel_sched_extent.Gov.Start.{
  GovGlobals, lse_gov_policy_from_cpu, lse_gov_cluster_window_ns, lse_gov_cluster_target_load_dyn,
  lse_gov_cluster_agg_util, lse_gov_cluster_freq_cap_applied, lse_gov_cluster_power_pressure,
}
use lunarkernel_sched_extent.Monitor.Watch.{Monitor}

-- an argument of a format
pub data Arg : Type 0 where
  number : ℤ → Arg
  text : String → Arg

-- What a read finds. `scnprintf` is the kernel's: from the room, the format and the arguments, the
-- bytes that it writes, less the one that ends the text. `curr` is the task of each CPU.
pub record Shown : Type 0 where
  pub k : Kernel
  pub scnprintf : ℕ → String → List Arg → List ℕ
  pub curr : ℕ → Task
  pub pid : Task → ℤ
  pub comm : Task → String
  pub monitor : Monitor
  pub dsq : Dsq
  pub switches : Switches
  pub globals : GovGlobals
  pub policies : ℕ → Option GovPolicy

-- A class is none of the others in the default case, which `TaskClass` leaves out.
unfoldable pub lse_task_class_name : TaskClass → String
lse_task_class_name class_idle = "idle"
lse_task_class_name class_background = "background"
lse_task_class_name class_normal = "normal"
lse_task_class_name class_foreground = "foreground"
lse_task_class_name class_rt = "rt"
lse_task_class_name class_deadline = "deadline"

unfoldable pub lse_dsq_depth_cpu : Kernel → Dsq → ℤ → ℕ
unfolding lse_dsq_depth_pcp
lse_dsq_depth_cpu k s cpu = lse_dsq_depth_pcp k s cpu

-- The reads give the text that the kernel's `simple_read_from_buffer` copies from.
unfoldable pub lse_proc_stats_read : Shown → List ℕ
lse_proc_stats_read v = v.scnprintf 512 "update_cnt=%lld\nrollover_cnt=%lld\ntick_cnt=%lld\n" (
    number (pos v.monitor.lse_stats_update_cnt)
    ∷ number (pos v.monitor.lse_stats_rollover_cnt)
    ∷ number (pos v.monitor.lse_stats_tick_cnt)
    ∷ [])

-- the arguments of the second format
unfoldable pub task_row : Shown → ℕ → Lts → List Arg
unfolding lse_task_class_name lse_dsq_depth_cpu lse_gov_policy_from_cpu lse_gov_cluster_window_ns
    lse_gov_cluster_target_load_dyn lse_gov_cluster_agg_util lse_gov_cluster_freq_cap_applied
    lse_gov_cluster_power_pressure
task_row v cpu lts =
    let lg = lse_gov_policy_from_cpu v.k v.globals v.policies (pos cpu) in
    number (pos cpu)
    ∷ number (v.pid (v.curr cpu))
    ∷ text (v.comm (v.curr cpu))
    ∷ text (lse_task_class_name lts.task_class)
    ∷ number (pos lts.boost_pct)
    ∷ number (pos lts.priority_hint)
    ∷ number (pos lts.demand)
    ∷ number (pos lts.demand_scaled)
    ∷ number (pos (lse_dsq_depth_cpu v.k v.dsq (pos cpu)))
    ∷ number (pos (lse_gov_cluster_window_ns v.switches lg))
    ∷ number (pos (lse_gov_cluster_target_load_dyn lg))
    ∷ number (pos (lse_gov_cluster_agg_util lg))
    ∷ number (pos (lse_gov_cluster_freq_cap_applied lg))
    ∷ number (pos (lse_gov_cluster_power_pressure lg))
    ∷ []

-- what is printed of the task of a CPU behind `tmp`, if the task has an extension
unfoldable pub print_task : Shown → ℕ → Option Lts → List ℕ → List ℕ
unfolding task_row
print_task v cpu none tmp = tmp
print_task v cpu (some lts) tmp =
    tmp
    ++ v.scnprintf (sub64 1024 (length tmp)) "%d %d %s %s %u %u %u %u %d %u %u %u %u %u\n"
        (task_row v cpu lts)

-- the loop over the CPUs that are online
unfoldable pub print_tasks : Shown → List ℕ → List ℕ → List ℕ
unfolding print_task
print_tasks v [] tmp = tmp
print_tasks v (cpu ∷ cpus) tmp =
    let o = v.dsq.ext (v.curr cpu).addr in
    let printed = print_task v cpu o tmp in
    let rest = print_tasks v cpus printed in
    elim o [ none ↦ rest | some lts ↦ if leb 928 (length printed) then printed else rest ]

-- the first format
abbrev pub tasks_header : String
tasks_header =
    "cpu pid comm class boost prio demand scaled dsq_depth cw_ns tl_dyn agg_util freq_cap power_pressure\n"

unfoldable pub lse_proc_tasks_read : Shown → List ℕ
unfolding print_tasks
lse_proc_tasks_read v = print_tasks v v.k.online_cpus (v.scnprintf 1024 tasks_header [])
