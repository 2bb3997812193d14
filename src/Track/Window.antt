-- ===== src/Track/Window.antt =====
-- The window of a CPU: `rollover_cpu_window` and `update_window_start` of lse_util_track.c.
use lunarkernel_sched_extent.Base.{ℕ, Bool, ◌/◌, ltb, ◌==◌, if◌then◌else◌}
use lunarkernel_sched_extent.Base.Int.{pos, ltb_ℤ}
use lunarkernel_sched_extent.Base.Word.{sub64, add64, mul64, to_int, int_to_u64, is_neg64}
use lunarkernel_sched_extent.Base.Outcome.{Outcome, done, div_zero, ◌>>=◌, ◌>>◌, lse_bug}
use lunarkernel_sched_extent.State.{Lrq}
use lunarkernel_sched_extent.Track.Globals.{Globals}

unfoldable pub rollover_cpu_window : Lrq → Bool → Lrq
rollover_cpu_window lrq full_window = record lrq {
  prev_runnable_sum = (if full_window then 0 else lrq.curr_runnable_sum);
  curr_runnable_sum = 0;
}

-- the first test of `update_window_start`: a clock behind `latest_clock`
unfoldable pub check_latest_clock : Globals → Lrq → ℕ → Outcome ℕ
check_latest_clock g lrq wallclock =
    if ltb wallclock lrq.latest_clock
    then (do lse_bug g.debug_panic; done lrq.latest_clock)
    else done wallclock

-- the second: a clock behind `window_start`; returns `delta` and the clock
unfoldable pub check_window_start : Globals → Lrq → ℕ → Outcome (ℕ × ℕ)
check_window_start g lrq wallclock =
    let delta = sub64 wallclock lrq.window_start in
    if is_neg64 delta
    then (do lse_bug g.debug_panic; done (0, lrq.window_start))
    else done (delta, wallclock)

-- the division, and the new start `nr_windows` windows on
unfoldable pub advance_window : Globals → Lrq → ℕ → Outcome Lrq
unfolding rollover_cpu_window
advance_window g lrq delta =
    if g.lse_sched_ravg_window == 0
    then div_zero
    else let nr_windows = to_int (delta / g.lse_sched_ravg_window) in
      done (
        rollover_cpu_window
          (record lrq {
            window_start =
                add64 lrq.window_start (mul64 (int_to_u64 nr_windows) g.lse_sched_ravg_window);
            prev_window_size = g.lse_sched_ravg_window;
          })
          (ltb_ℤ (pos 1) nr_windows))

-- what follows the two tests
unfoldable pub roll_window : Globals → Lrq → ℕ → ℕ → Outcome Lrq
unfolding advance_window
roll_window g lrq delta wallclock =
    if ltb delta g.lse_sched_ravg_window
    then done (record lrq { latest_clock = wallclock })
    else advance_window g (record lrq { latest_clock = wallclock }) delta

-- Returns the run queue and the old window start.
unfoldable pub update_window_start : Globals → Lrq → ℕ → Outcome (Lrq × ℕ)
unfolding check_latest_clock check_window_start roll_window
update_window_start g lrq wallclock = do
  wallclock' ← check_latest_clock g lrq wallclock
  checked ← check_window_start g lrq wallclock'
  lrq' ← roll_window g lrq checked.0 checked.1
  done (lrq', lrq.window_start)
