-- ===== src/Hooks/Events.antt =====
-- What the kernel calls the module for while it runs, one call at a time, each at its clock.
use lunarkernel_sched_extent.Base.{ℕ, Bool, List, [], ◌∷◌, some}
use lunarkernel_sched_extent.Base.Int.{pos}
use lunarkernel_sched_extent.Base.Outcome.{Outcome, done, ◌>>=◌}
use lunarkernel_sched_extent.Kernel.{Kernel, Task, Rq}
use lunarkernel_sched_extent.Track.Update.{sched_ravg_window_change}
use lunarkernel_sched_extent.Hooks.System.{Governor, System, lse_suspend, lse_resume}
use lunarkernel_sched_extent.Hooks.Extension.{alloc_lse_task_struct, free_lse_task_struct}
use lunarkernel_sched_extent.Hooks.Cfs.{
  lse_scheduler_tick, lse_schedule, lse_tick_entry, shadow_tick, irq_work,
}

-- The readings of `jiffies`, and of the governor's clock, are those at the call. A task that
-- arrives or runs is given by what the code sees of it then. A change of the governor, by a start or
-- a stop on a policy, a write of a tunable or a CPU that comes or goes, is given by what it leaves.
pub data Event : Type 0 where
  at_tick : (jiffies : ℕ) → Event
  at_schedule : (jiffies : ℕ) (rq : Rq) (prev next : Task) → Event
  at_tick_entry : (jiffies now_ns now : ℕ) (rq : Rq) (curr : Task) → Event
  at_shadow_tick : (jiffies owner : ℕ) (rq : Rq) (curr : Task) → Event
  at_irq_work : (rq : Rq) (curr : Task) → Event
  at_fork : (ok : Bool) (p : Task) → Event
  at_free : (p : Task) → Event
  at_suspend at_resume : Event
  at_rate : (frame_per_sec : ℕ) → Event
  at_governor : (governor : Governor) → Event

-- The window of the governor stays the global.
abbrev pub governed_by : Governor → System → System
governed_by gov s = record s {
  governor = record gov {
    switches = record gov.switches { lse_sched_ravg_window = s.g.lse_sched_ravg_window };
  };
}

-- The kernel's clock and that of the run queue are the same at a call: the code brings the one of
-- the run queue up to date.
unfoldable pub respond : Kernel → ℕ → Event → System → Outcome System
respond k clock (at_tick jiffies) s = done (lse_scheduler_tick k jiffies clock s)
respond k clock (at_schedule jiffies rq prev next) s = lse_schedule k jiffies clock rq prev next s
respond k clock (at_tick_entry jiffies now_ns now rq curr) s =
    lse_tick_entry k jiffies clock now_ns now rq curr s
respond k clock (at_shadow_tick jiffies owner rq curr) s =
    shadow_tick k jiffies clock owner rq curr s
respond k clock (at_irq_work rq curr) s = irq_work k clock rq curr s
respond k clock (at_fork ok p) s = done (record s { dsq = alloc_lse_task_struct ok (some p) s.dsq })
respond k clock (at_free p) s = done (record s { dsq = free_lse_task_struct (some p) s.dsq })
respond k clock at_suspend s = done (lse_suspend clock s)
respond k clock at_resume s = done (lse_resume s)
respond k clock (at_rate fps) s = do
  g ← sched_ravg_window_change s.g (pos fps)
  done (record s { g = g })
respond k clock (at_governor gov) s = done (governed_by gov s)

unfoldable pub run : Kernel → List (ℕ × Event) → System → Outcome System
unfolding respond
run k [] s = done s
run k ((clock, e) ∷ events) s = respond k clock e s >>= run k events
