-- ===== src/Monitor/Tests.antt =====
-- Concrete runs of the monitor, at which its theorems hold.
use Prim.Native.String.{String}
use lunarkernel_sched_extent.Base.{
  ℕ, ◌<◌, ◌≡◌, refl, true, false, none, some, List, [], ◌∷◌, length, ltb, if◌then◌else◌, arith,
}
use lunarkernel_sched_extent.Base.Int.{pos}
use lunarkernel_sched_extent.Samples.{two_cpus, plain_task, plain_lts, switches}
use lunarkernel_sched_extent.Hooks.Samples.{bare}
use lunarkernel_sched_extent.Monitor.Proc.{Arg, Shown, tasks_header, lse_proc_tasks_read}
use lunarkernel_sched_extent.Monitor.Printed.{Fits, ShowsFirst, tasks_read-fits}
use lunarkernel_sched_extent.Monitor.Watch.{Monitor, lse_heartbeat_timer_fn}
use lunarkernel_sched_extent.Monitor.Alive.{Watched, Step, Reach, is_armed, synced-Armed}

abbrev watching : Monitor
watching = record {
  slim_stats = true;
  heartbeat = false;
  heartbeat_enable = true;
  watchdog_enable = true;
  lse_watchdog_timeout = 7500;
  lse_watchdog_timestamp = 0;
  lse_heartbeat_last_touch = 0;
  lse_monitor_inited = true;
  lse_stats_update_cnt = 0;
  lse_stats_rollover_cnt = 0;
  lse_stats_tick_cnt = 0;
  timer = some 250;
  work = some 3750;
}

abbrev settled : Watched
settled = record { m = watching; owed = false }

synced-Armed_example : is_armed two_cpus (lse_heartbeat_timer_fn two_cpus 250 watching).0 ≡ true
synced-Armed_example =
    synced-Armed two_cpus {v = settled} (refl, refl)
      (Reach.next Reach.here (Step.at_expiry {w = settled} 250 (ground arith))) refl

-- what prints three bytes for every line, where they fit
abbrev short_lines : ℕ → String → List Arg → List ℕ
short_lines size format args = if ltb 3 size then 48 ∷ 32 ∷ 10 ∷ [] else []

short_lines-Fits : Fits short_lines
short_lines-Fits size format args h = ground arith

abbrev shown_tasks : Shown
shown_tasks = record {
  k = two_cpus;
  scnprintf = short_lines;
  curr = plain_task;
  pid = λ p. pos p.addr;
  comm = λ p. "worker";
  monitor = watching;
  dsq = record bare { ext = λ a. some (plain_lts a) };
  switches = switches;
  globals = record {
    gov_flag = [];
    lse_cluster_cfg = [];
    governs = λ cpu. none;
    hooked = λ cpu. false;
  };
  policies = λ a. none;
}

tasks_read-fits_example :
    (length (lse_proc_tasks_read shown_tasks) < 1024)
    × ShowsFirst shown_tasks
        (0 ∷ 1 ∷ [])
        (short_lines 1024 tasks_header [])
        (lse_proc_tasks_read shown_tasks)
tasks_read-fits_example = tasks_read-fits shown_tasks short_lines-Fits
