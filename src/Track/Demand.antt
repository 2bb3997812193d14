-- ===== src/Track/Demand.antt =====
-- The busy time of a task: `scale_exec_time`, `add_to_task_demand`,
-- `account_busy_for_task_demand` and `update_task_demand` of lse_util_track.c.
use lunarkernel_sched_extent.Base.{
  ℕ, zero, ◌+◌, ◌/◌, Bool, true, false, not, ◌&&◌, ◌||◌, ltb, ◌==◌, if◌then◌else◌,
}
use lunarkernel_sched_extent.Base.Int.{ℤ, pos}
use lunarkernel_sched_extent.Base.Word.{u32, add64, sub64, mul64, shr10, to_int, int_to_u64}
use lunarkernel_sched_extent.Base.Outcome.{Outcome, done, ◌>>=◌}
use lunarkernel_sched_extent.Kernel.{Task, Rq}
use lunarkernel_sched_extent.State.{
  Lts, Lrq, TaskEvent, pick_next_task, task_wake, task_migrate, task_update,
}
use lunarkernel_sched_extent.Track.Globals.{Globals}
use lunarkernel_sched_extent.Track.History.{update_history}

unfoldable pub scale_exec_time : ℕ → Lrq → ℕ
scale_exec_time delta lrq = shr10 (mul64 delta lrq.task_exec_scale)

-- `lts->sum` is a `u32`: the addition wraps before the clamp.
unfoldable pub add_to_task_demand : Globals → Lts → Lrq → ℕ → Lts × ℕ
add_to_task_demand g lts lrq delta =
    let scaled = scale_exec_time delta lrq in
    let sum = u32 (lts.sum + scaled) in
    let clamped = (if ltb g.lse_sched_ravg_window sum then g.lse_sched_ravg_window else sum) in
    (record lts { sum = clamped }, scaled)

-- SCHED_ACCOUNT_WAIT_TIME
abbrev sched_account_wait_time : Bool
sched_account_wait_time = false

abbrev pub is_wake : TaskEvent → Bool
is_wake task_wake = true
is_wake _ = false

abbrev pub is_pick_next : TaskEvent → Bool
is_pick_next pick_next_task = true
is_pick_next _ = false

abbrev pub is_migrate : TaskEvent → Bool
is_migrate task_migrate = true
is_migrate _ = false

abbrev pub is_update : TaskEvent → Bool
is_update task_update = true
is_update _ = false

unfoldable pub account_busy_for_task_demand : Rq → Task → TaskEvent → Bool
account_busy_for_task_demand rq p event =
    if p.is_idle_task
    then false
    else if is_wake event
        || (not sched_account_wait_time && (is_pick_next event || is_migrate event))
    then false
    else if is_pick_next event && rq.curr == rq.idle
    then false
    else if is_update event
    then (if rq.curr == p.addr then true else if p.on_rq then sched_account_wait_time else false)
    else true

abbrev pub is_nonzero_int : ℤ → Bool
is_nonzero_int (pos zero) = false
is_nonzero_int _ = true

-- The part of `update_task_demand` for busy time over at least two windows. The run queue's
-- `window_start` is not changed: the rewound start is a local variable of the source.
unfoldable pub account_windows : Globals → Lts → Task → Lrq → ℕ → Outcome (Lts × ℕ)
account_windows g lts p lrq wallclock =
    let mark_start = lts.mark_start in
    let window_size = g.lse_sched_ravg_window in
    let delta = sub64 lrq.window_start mark_start in
    let nr_full_windows = to_int (delta / window_size) in
    let full = mul64 (int_to_u64 nr_full_windows) window_size in
    let first_start = sub64 lrq.window_start full in
    let first = add_to_task_demand g lts lrq (sub64 first_start mark_start) in
    let scaled_window = scale_exec_time window_size lrq in
    let some_full = is_nonzero_int nr_full_windows in
    let runtime =
      (if some_full
        then add64 first.1 (mul64 (int_to_u64 nr_full_windows) scaled_window)
        else first.1) in
    let window_start = add64 first_start full in
    (do
      lts2 ← update_history g first.0 p first.0.sum (pos 1)
      lts3 ←
          (if some_full
            then update_history g lts2 p (u32 scaled_window) nr_full_windows
            else done lts2)
      let last = add_to_task_demand g lts3 lrq (sub64 wallclock window_start)
      done (last.0, add64 runtime last.1))

-- Returns the task and the accounted time.
unfoldable pub update_task_demand :
    Globals → Lts → Task → Rq → Lrq → TaskEvent → ℕ → Outcome (Lts × ℕ)
update_task_demand g lts p rq lrq event wallclock =
    let new_window = ltb lts.mark_start lrq.window_start in
    let charged = (if new_window then update_history g lts p lts.sum (pos 1) else done lts) in
    if not (account_busy_for_task_demand rq p event)
    then (charged >>= λ lts'. done (lts', 0))
    else if not new_window
    then done (add_to_task_demand g lts lrq (sub64 wallclock lts.mark_start))
    else account_windows g lts p lrq wallclock
