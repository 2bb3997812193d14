-- ===== src/Track/Conserve.antt =====
-- Where the busy time of a CPU goes.
use lunarkernel_sched_extent.Base.{ℕ, ◌+◌, ◌^◌, ◌≤◌, ◌<◌, ◌≡◌, true, arith}
use lunarkernel_sched_extent.Kernel.{Task}
use lunarkernel_sched_extent.State.{Lts, Lrq, TaskEvent}
use lunarkernel_sched_extent.Track.Demand.{scale_exec_time}
use lunarkernel_sched_extent.Track.Busy.{account_busy_for_cpu_time, update_cpu_busy_time}

-- A CPU at full speed splits the busy time of a task between the previous and the present window
-- of the CPU without a loss: as much is added to the two sums together as has passed since the
-- task was marked. The task counts as busy, was marked less than one previous window before the
-- present one, and the clock and the sums are far from overflow.
pub busy_time-conserved :
    (lts : Lts) (p : Task) (lrq : Lrq) (event : TaskEvent) (wallclock : ℕ)
    → account_busy_for_cpu_time p event ≡ true
    → lrq.task_exec_scale ≡ 1024
    → lts.mark_start ≤ wallclock
    → lrq.window_start ≤ wallclock
    → wallclock < 2 ^ 54
    → lrq.window_start < lts.mark_start + lrq.prev_window_size
    → lrq.prev_runnable_sum < 2 ^ 63
    → lrq.curr_runnable_sum < 2 ^ 63
    → let r = update_cpu_busy_time lts p lrq event wallclock in
      r.prev_runnable_sum + r.curr_runnable_sum + lts.mark_start
      ≡ lrq.prev_runnable_sum + lrq.curr_runnable_sum + wallclock
unfolding update_cpu_busy_time scale_exec_time
busy_time-conserved lts p lrq event wallclock b e m s c f o q = rw (b, e) (ground arith)
