-- ===== src/Track/Busy.antt =====
-- The busy time of a CPU: `update_task_rq_cpu_cycles`, `account_busy_for_cpu_time`,
-- `update_cpu_busy_time` and `lse_cpu_util` of lse_util_track.c.
use lunarkernel_sched_extent.Base.{
  ℕ, ◌-◌, ◌/◌, max, Bool, true, false, not, ◌&&◌, none, some, ltb, leb, ◌==◌, if◌then◌else◌,
}
use lunarkernel_sched_extent.Base.Word.{u16, add64, sub64, mul64}
use lunarkernel_sched_extent.Kernel.{Kernel, Task}
use lunarkernel_sched_extent.State.{Lts, Lrq, TaskEvent, put_prev_task, task_update}
use lunarkernel_sched_extent.Track.Demand.{scale_exec_time}

unfoldable pub get_max_freq : Kernel → ℕ → ℕ
get_max_freq k cpu = elim (k.cpufreq_cpu_get_raw cpu) [ none ↦ 0 | some policy ↦ policy.max_freq ]

unfoldable pub cpu_cur_freq : Kernel → ℕ → ℕ
cpu_cur_freq k cpu = elim (k.cpufreq_cpu_get_raw cpu) [ none ↦ 0 | some policy ↦ policy.cur ]

-- DIV64_U64_ROUNDUP(x, y) at 0 < y
abbrev pub div64_u64_roundup : ℕ → ℕ → ℕ
div64_u64_roundup x y = add64 x (y - 1) / y

unfoldable pub update_task_rq_cpu_cycles : Kernel → ℕ → Lrq → Lrq
unfolding get_max_freq cpu_cur_freq
update_task_rq_cpu_cycles k cpu lrq =
    let max_freq = get_max_freq k cpu in
    let capacity = k.arch_scale_cpu_capacity cpu in
    let scale =
      (if max_freq == 0
        then capacity
        else div64_u64_roundup (mul64 (cpu_cur_freq k cpu) capacity) max_freq) in
    record lrq { task_exec_scale = max 1 scale }

abbrev pub is_put_prev_or_update : TaskEvent → Bool
is_put_prev_or_update put_prev_task = true
is_put_prev_or_update task_update = true
is_put_prev_or_update _ = false

unfoldable pub account_busy_for_cpu_time : Task → TaskEvent → Bool
account_busy_for_cpu_time p event = not p.is_idle_task && is_put_prev_or_update event

unfoldable pub update_cpu_busy_time : Lts → Task → Lrq → TaskEvent → ℕ → Lrq
unfolding account_busy_for_cpu_time scale_exec_time
update_cpu_busy_time lts p lrq event wallclock =
    let mark_start = lts.mark_start in
    let window_start = lrq.window_start in
    let new_window = ltb mark_start window_start in
    let full_window = new_window && leb lrq.prev_window_size (sub64 window_start mark_start) in
    let past =
      (if full_window
        then scale_exec_time lrq.prev_window_size lrq
        else scale_exec_time (sub64 window_start mark_start) lrq) in
    if not (account_busy_for_cpu_time p event)
    then lrq
    else if not new_window
    then record lrq {
      curr_runnable_sum =
          add64 lrq.curr_runnable_sum (scale_exec_time (sub64 wallclock mark_start) lrq);
    }
    else record lrq {
      prev_runnable_sum = add64 lrq.prev_runnable_sum past;
      curr_runnable_sum =
          add64 lrq.curr_runnable_sum (scale_exec_time (sub64 wallclock window_start) lrq);
    }

unfoldable pub lse_cpu_util : Lrq → ℕ
lse_cpu_util lrq =
    let shift = max lrq.prev_window_size 1 / 1024 in
    if shift == 0 then 0 else u16 (lrq.prev_runnable_sum / shift)
