-- ===== src/Track/Tests.antt =====
-- Concrete runs of the load tracking, at which the theorems of the other modules hold.
use lunarkernel_sched_extent.Base.{ℕ, ◌+◌, ◌≡◌, refl, true, false, List, [], ◌∷◌, inr, arith}
use lunarkernel_sched_extent.Base.Int.{pos}
use lunarkernel_sched_extent.Base.Outcome.{done}
use lunarkernel_sched_extent.State.{Lts, Lrq, put_prev_task, pick_next_task, task_update}
use lunarkernel_sched_extent.Samples.{defaults, plain_lts, plain_task, two_cpus, cpu0, half_busy}
use lunarkernel_sched_extent.Track.Window.{update_window_start}
use lunarkernel_sched_extent.Track.Demand.{update_task_demand, account_busy_for_task_demand}
use lunarkernel_sched_extent.Track.Busy.{account_busy_for_cpu_time, update_cpu_busy_time}
use lunarkernel_sched_extent.Track.Rollover.{Shared}
use lunarkernel_sched_extent.Track.Update.{Walt}
use lunarkernel_sched_extent.Track.Aligned.{Rolled, update_window_start-Rolled}
use lunarkernel_sched_extent.Track.Total.{Ready, UpdateInput, updates, updates-Ready}
use lunarkernel_sched_extent.Track.Conserve.{busy_time-conserved}
use lunarkernel_sched_extent.Track.Charge.{task_demand-charged}
use lunarkernel_sched_extent.Track.History.{update_history}
use lunarkernel_sched_extent.Track.Refine.{After, update_history-refines}
use lunarkernel_sched_extent.Track.Once.{wins, wins-eq}

-- two windows and a half after the start of the CPU's window
update_window_start_example :
    (lrq' : Lrq) × (update_window_start defaults (half_busy 0) 28000000 ≡ done (lrq', 8000000))
    × Rolled defaults (half_busy 0) 28000000 lrq'
update_window_start_example =
    update_window_start-Rolled defaults (half_busy 0) 28000000 (ground arith)

abbrev idle_shared : Shared
idle_shared = record {
  lse_run_rollover_lastq_ws = 8000000;
  irq_work_queued = false;
  lse_stats_update_cnt = 0;
  lse_stats_rollover_cnt = 0;
}

abbrev fresh : Walt
fresh = record { lts = plain_lts 2; lrq = half_busy 0; shared = idle_shared }

-- the task is picked, a tick comes in the same window and it leaves four windows later
abbrev three_updates : List UpdateInput
three_updates =
    record { rq = cpu0; event = pick_next_task; wallclock = 9000000 }
    ∷ record { rq = cpu0; event = task_update; wallclock = 12000000 }
    ∷ record { rq = cpu0; event = put_prev_task; wallclock = 44000000 }
    ∷ []

updates_example :
    (w' : Walt) × (updates two_cpus defaults (plain_task 2) three_updates fresh ≡ done w')
    × Ready w'
updates_example =
    updates-Ready two_cpus defaults (plain_task 2) three_updates fresh 8000000 (omega arith)
      (omega arith) (omega arith) (inr refl, omega arith) (omega arith) (ground arith)

abbrev marked : Lts
marked = record (plain_lts 2) { mark_start = 5000000; window_start = 0 }

-- the task leaves a CPU whose window started after its mark
busy_leaves : account_busy_for_cpu_time (plain_task 2) put_prev_task ≡ true
unfolding account_busy_for_cpu_time
busy_leaves = refl

busy_time_example :
    let r = update_cpu_busy_time marked (plain_task 2) (half_busy 0) put_prev_task 12000000 in
    r.prev_runnable_sum + r.curr_runnable_sum + 5000000 ≡ 4000000 + 0 + 12000000
busy_time_example =
    busy_time-conserved marked (plain_task 2) (half_busy 0) put_prev_task 12000000 busy_leaves refl
      (omega arith) (omega arith) (omega arith) (omega arith) (omega arith) (omega arith)

abbrev late : Lrq
late = record (half_busy 0) { window_start = 40000000; latest_clock = 44000000 }

busy_demand : account_busy_for_task_demand cpu0 (plain_task 2) put_prev_task ≡ true
unfolding account_busy_for_task_demand
busy_demand = refl

-- 39 ms since the mark, 4 ms of them in the present window
task_demand-charged_example :
    (r : Lts × ℕ) × (update_task_demand defaults marked
        (plain_task 2)
        cpu0
        late
        put_prev_task
        44000000
      ≡ done r)
    × (r.1 ≡ 39000000)
    × (r.0.sum ≡ 4000000)
task_demand-charged_example =
    task_demand-charged defaults marked (plain_task 2) cpu0 late put_prev_task 44000000
      (omega arith) refl refl busy_demand (omega arith) (omega arith) (omega arith) (omega arith)
      (omega arith) (omega arith) (omega arith)

wins-eq_example :
    wins defaults 8000000 ((8000000, 16000000) ∷ (8000000, 24000000) ∷ []) idle_shared ≡ 1
wins-eq_example =
    wins-eq defaults 8000000 ((8000000, 16000000) ∷ (8000000, 24000000) ∷ []) idle_shared
      (ground arith) refl

-- 4 ms twice, on a history of zeros
update_history-refines_example :
    (r : Lts) × (update_history defaults (plain_lts 1) (plain_task 1) 4000000 (pos 2) ≡ done r)
    × After defaults (plain_lts 1) 4000000 (pos 2) r false
update_history-refines_example =
    update_history-refines defaults (plain_lts 1) (plain_task 1) 4000000 (pos 2) (omega arith)
      (omega arith) (ground arith)
