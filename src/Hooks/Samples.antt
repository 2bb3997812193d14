-- ===== src/Hooks/Samples.antt =====
-- A concrete state of the module for the tests.
use lunarkernel_sched_extent.Base.{true, false, [], ◌∷◌, none, some}
use lunarkernel_sched_extent.Samples.{
  half_busy, defaults, switches, freq_policy, tunables, gov_policy,
}
use lunarkernel_sched_extent.Dsq.Queue.{Dsq}
use lunarkernel_sched_extent.Hooks.System.{System}

-- no task has an extension and no queue a task
abbrev pub bare : Dsq
bare = record {
  queues = λ q. record { fifo = []; nr = 0; id = 0; last_consume_at = 0; is_timeout = false };
  ext = λ a. none;
  curr_idx_big = 5;
  curr_idx_little = 8;
  rtime = λ i. 0;
  pcp_rtime = λ cpu. 0;
  pcp_round = λ cpu. false;
  lse_dsq_round = 0;
  last_scan_jf = λ cpu. 0;
}

-- the module after its initialisation, the shadow tick switched on
abbrev pub running : System
running = record {
  g = defaults;
  config = record { lse_dsq_enable = true; slim_stats = true };
  dsq = bare;
  lrqs = half_busy;
  shared = record {
    lse_run_rollover_lastq_ws = 8000000;
    irq_work_queued = false;
    lse_stats_update_cnt = 0;
    lse_stats_rollover_cnt = 0;
  };
  monitor = record {
    slim_stats = true;
    heartbeat = false;
    heartbeat_enable = false;
    watchdog_enable = false;
    lse_watchdog_timeout = 7500;
    lse_watchdog_timestamp = 0;
    lse_heartbeat_last_touch = 0;
    lse_monitor_inited = true;
    lse_stats_update_cnt = 0;
    lse_stats_rollover_cnt = 0;
    lse_stats_tick_cnt = 0;
    timer = none;
    work = none;
  };
  shadow = record {
    lse_shadow_tick_inited = true;
    highres_tick_ctrl = true;
    slim_walt_ctrl = true;
    lse_shadow_tick_armed = λ cpu. false;
    queued = λ cpu. none;
  };
  governor = record {
    switches = switches;
    hooked = λ cpu. true;
    gov_flag = true ∷ [];
    clusters = record { id = 0; cluster_online_cpus = 0 ∷ 1 ∷ [] } ∷ [];
    policy_of = λ cpu. some 0;
    policies =
        λ id. record { policy = freq_policy; tunables = tunables; lg = gov_policy; command = none };
    lse_gov_rq_data =
        λ cpu. record { last_tick_ns = 0; curr_util = 0; cached_this_sum = 0; cached_agg_util = 0 };
  };
  tick_sched_clock = 8000000;
  lse_clock_suspended = false;
  lse_clock_last = 0;
}
