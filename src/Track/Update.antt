-- ===== src/Track/Update.antt =====
-- The update of a task and its CPU: `lse_update_task_ravg`, the end of `lse_irq_work`, the
-- initialisation and the change of the window size of lse_util_track.c.
use lunarkernel_sched_extent.Base.{
  ℕ, zero, suc, ◌-◌, ◌/◌, ◌%◌, ◌^◌, not, ◌||◌, ltb, ◌==◌, if◌then◌else◌,
}
use lunarkernel_sched_extent.Base.Int.{ℤ, pos, negsuc}
use lunarkernel_sched_extent.Base.Word.{add64, u32}
use lunarkernel_sched_extent.Base.Outcome.{Outcome, done, div_zero, ◌>>=◌, ◌>>◌, lse_bug}
use lunarkernel_sched_extent.Kernel.{Kernel, Task, Rq}
use lunarkernel_sched_extent.State.{Lts, Lrq, TaskEvent}
use lunarkernel_sched_extent.Monitor.Stats.{lse_stats_inc}
use lunarkernel_sched_extent.Track.Globals.{Globals}
use lunarkernel_sched_extent.Track.Classify.{lse_refresh_task_hint}
use lunarkernel_sched_extent.Track.Window.{update_window_start}
use lunarkernel_sched_extent.Track.Demand.{update_task_demand}
use lunarkernel_sched_extent.Track.Busy.{update_task_rq_cpu_cycles, update_cpu_busy_time}
use lunarkernel_sched_extent.Track.Rollover.{Shared, lse_window_rollover_run_once}

-- The task that is updated, its CPU, and what the CPUs share.
pub record Walt : Type 0 where
  pub lts : Lts
  pub lrq : Lrq
  pub shared : Shared

-- the three updates of a task that has a `mark_start`
unfoldable pub account :
    Kernel → Globals → Task → Rq → TaskEvent → ℕ → Lts → Lrq → Outcome (Lts × Lrq)
account k g p rq event wallclock lts lrq =
    let lrq1 = update_task_rq_cpu_cycles k rq.cpu lrq in
    update_task_demand g lts p rq lrq1 event wallclock >>= λ demanded.
    let lrq2 = update_cpu_busy_time demanded.0 p lrq1 event wallclock in
    done (record demanded.0 { window_start = lrq2.window_start }, lrq2)

-- `lts->window_start` of a task that is seen for the first time
unfoldable pub start_window : Lts → Lrq → Lts
start_window lts lrq =
    if lts.window_start == 0 then record lts { window_start = lrq.window_start } else lts

-- what stands between `update_window_start` and the label `done`
unfoldable pub account_marked :
    Kernel → Globals → Task → Rq → TaskEvent → ℕ → Lts → Lrq → Outcome (Lts × Lrq)
account_marked k g p rq event wallclock lts lrq =
    let started = start_window lts lrq in
    if started.mark_start == 0
    then done (started, lrq)
    else account k g p rq event wallclock started lrq

-- the warning on a mark ahead of the task's window by more than one window
unfoldable pub check_mark : Globals → Lts → ℕ → Outcome (Unit {0})
check_mark g lts wallclock =
    if ltb (add64 lts.window_start g.lse_sched_ravg_window) wallclock
    then lse_bug g.debug_panic
    else done tt

-- what follows the label `done`
unfoldable pub finish : Globals → ℕ → ℕ → Lts → Lrq → Shared → Outcome Walt
finish g old_window_start wallclock lts lrq shared = do
  check_mark g lts wallclock
  let s = lse_window_rollover_run_once g old_window_start lrq.window_start shared
  done (record {
    lts = record lts { mark_start = wallclock };
    lrq = lrq;
    shared = record s { lse_stats_update_cnt = lse_stats_inc g.slim_stats s.lse_stats_update_cnt };
  })

-- the warning on a run queue that is not locked
unfoldable pub check_locked : Globals → Rq → Outcome (Unit {0})
check_locked g rq = if rq.locked then done tt else lse_bug g.debug_panic

-- the path of `lse_update_task_ravg` behind its early returns
unfoldable pub update_running : Kernel → Globals → Task → Rq → TaskEvent → ℕ → Walt → Outcome Walt
update_running k g p rq event wallclock w = do
  check_locked g rq
  rolled ← update_window_start g w.lrq wallclock
  accounted ← account_marked k g p rq event wallclock w.lts rolled.0
  finish g rolled.1 wallclock accounted.0 accounted.1 w.shared

unfoldable pub lse_update_task_ravg :
    Kernel → Globals → Task → Rq → TaskEvent → ℕ → Walt → Outcome Walt
lse_update_task_ravg k g p rq event wallclock w =
    let w' = record w { lts = lse_refresh_task_hint g w.lts p } in
    if not g.slim_walt_ctrl
    then done w
    else if w.lrq.window_start == 0 || w.lts.mark_start == wallclock
    then done w'
    else update_running k g p rq event wallclock w'

-- the adoption of a new window size by the irq work
unfoldable pub adopt_new_window : Globals → Lrq → ℕ → Globals
adopt_new_window g lrq wc =
    if g.new_lse_sched_ravg_window == g.lse_sched_ravg_window
    then g
    else if ltb wc (add64 lrq.window_start g.new_lse_sched_ravg_window)
    then record g { lse_sched_ravg_window = g.new_lse_sched_ravg_window }
    else g

-- lse_sched_init_rq
unfoldable pub lse_sched_init_rq : Globals → Lrq → Lrq
lse_sched_init_rq g lrq = record lrq {
  prev_window_size = g.lse_sched_ravg_window;
  task_exec_scale = 1024;
  window_start = 0;
}

-- The part of `lse_sched_stats_init` that sets globals: WINDOW_STATS_MAX_RECENT_AVG is 2, and
-- `lse_fixup_window_dep` sets the divisor.
unfoldable pub init_globals : Globals → Globals
init_globals g = record g {
  sched_window_stats_policy = pos 2;
  lse_scale_demand_divisor = g.lse_sched_ravg_window / 1024;
}

-- NSEC_PER_SEC / frame_per_sec on `long`, then converted to `unsigned int`
abbrev ravg_window_of : ℤ → ℕ
ravg_window_of (pos n) = u32 (1000000000 / n)
ravg_window_of (negsuc n) = (2 ^ 32 - 1000000000 / suc n) % 2 ^ 32

unfoldable pub sched_ravg_window_change : Globals → ℤ → Outcome Globals
sched_ravg_window_change g (pos zero) = div_zero
sched_ravg_window_change g fps = done (record g { new_lse_sched_ravg_window = ravg_window_of fps })
