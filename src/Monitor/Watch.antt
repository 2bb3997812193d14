-- ===== src/Monitor/Watch.antt =====
-- The heartbeat and the watchdog of lse_monitor.c.
use lunarkernel_sched_extent.Base.{
  ℕ, ◌/◌, max, Bool, true, false, not, Option, none, some, ◌==◌, if◌then◌else◌,
}
use lunarkernel_sched_extent.Base.Word.{add64}
use lunarkernel_sched_extent.Kernel.{Kernel}
use lunarkernel_sched_extent.Monitor.Stats.{lse_stats_inc}

-- The globals of the file. `timer` is the expiry of the heartbeat timer and `work` the delay of
-- the watchdog's work, where they are pending.
pub record Monitor : Type 0 where
  pub slim_stats : Bool
  pub heartbeat : Bool
  pub heartbeat_enable : Bool
  pub watchdog_enable : Bool
  pub lse_watchdog_timeout : ℕ
  pub lse_watchdog_timestamp : ℕ
  pub lse_heartbeat_last_touch : ℕ
  pub lse_monitor_inited : Bool
  pub lse_stats_update_cnt : ℕ
  pub lse_stats_rollover_cnt : ℕ
  pub lse_stats_tick_cnt : ℕ
  pub timer : Option ℕ
  pub work : Option ℕ

-- LSE_HEARTBEAT_PERIOD_MS and LSE_WATCHDOG_TIMEOUT_MS
abbrev pub lse_heartbeat_period_ms : ℕ
lse_heartbeat_period_ms = 1000

abbrev pub lse_watchdog_timeout_ms : ℕ
lse_watchdog_timeout_ms = 30000

unfoldable pub lse_stats_record_tick : Monitor → Monitor
unfolding lse_stats_inc
lse_stats_record_tick m = record m {
  lse_stats_tick_cnt = lse_stats_inc m.slim_stats m.lse_stats_tick_cnt;
}

unfoldable pub lse_monitor_touch : ℕ → Monitor → Monitor
unfolding lse_stats_record_tick
lse_monitor_touch now m =
    let touched = record m { heartbeat = true; lse_watchdog_timestamp = now } in
    if now == m.lse_heartbeat_last_touch
    then touched
    else record (lse_stats_record_tick touched) { lse_heartbeat_last_touch = now }

unfoldable pub lse_monitor_reset_stats : ℕ → Monitor → Monitor
lse_monitor_reset_stats jiffies m = record m {
  lse_stats_update_cnt = 0;
  lse_stats_rollover_cnt = 0;
  lse_stats_tick_cnt = 0;
  heartbeat = false;
  lse_heartbeat_last_touch = jiffies;
  lse_watchdog_timestamp = jiffies;
}

-- a write of `count` bytes to the file reset_stats
unfoldable pub lse_proc_stats_reset_write : ℕ → ℕ → Monitor → Monitor
unfolding lse_monitor_reset_stats
lse_proc_stats_reset_write count jiffies m =
    if count == 0 then m else lse_monitor_reset_stats jiffies m

-- The expired timer is no longer pending. Returns whether a stall is reported.
unfoldable pub lse_heartbeat_timer_fn : Kernel → ℕ → Monitor → Monitor × Bool
lse_heartbeat_timer_fn k jiffies m =
    let rearmed = record m {
      heartbeat = false;
      timer = some (add64 jiffies (k.msecs_to_jiffies lse_heartbeat_period_ms));
    } in
    if not m.heartbeat_enable
    then (record m { timer = none }, false)
    else (rearmed, not m.heartbeat)

abbrev pub half_timeout : Monitor → ℕ
half_timeout m = max 1 (m.lse_watchdog_timeout / 2)

-- The work that runs is no longer pending. Returns whether a timeout is reported.
unfoldable pub lse_watchdog_workfn : Kernel → ℕ → Monitor → Monitor × Bool
lse_watchdog_workfn k jiffies m =
    if not m.watchdog_enable then (record m { work = none }, false) else (
      record m { work = some (half_timeout m) },
      k.time_after jiffies (add64 m.lse_watchdog_timestamp m.lse_watchdog_timeout),
    )

-- `queue_delayed_work` leaves work that is pending as it is.
abbrev pub queue_delayed : ℕ → Option ℕ → Option ℕ
queue_delayed delay none = some delay
queue_delayed delay (some d) = some d

unfoldable pub lse_monitor_sync : Kernel → ℕ → Monitor → Monitor
lse_monitor_sync k jiffies m = if not m.lse_monitor_inited then m else record m {
  timer =
      (if m.heartbeat_enable
        then some (add64 jiffies (k.msecs_to_jiffies lse_heartbeat_period_ms))
        else none);
  work = (if m.watchdog_enable then queue_delayed (half_timeout m) m.work else none);
}

-- without the proc files
unfoldable pub lse_monitor_init : Kernel → ℕ → Monitor → Monitor
unfolding lse_monitor_sync
lse_monitor_init k jiffies m =
    if m.lse_monitor_inited
    then m
    else lse_monitor_sync k jiffies (record m {
      lse_watchdog_timeout = k.msecs_to_jiffies lse_watchdog_timeout_ms;
      timer = none;
      work = none;
      lse_heartbeat_last_touch = jiffies;
      lse_watchdog_timestamp = jiffies;
      lse_monitor_inited = true;
    })
