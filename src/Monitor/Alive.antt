-- ===== src/Monitor/Alive.antt =====
-- What the heartbeat and the watchdog report, and that they stay armed.
use lunarkernel_sched_extent.Base.{
  ℕ, ◌≡◌, ◌≢◌, refl, Bool, true, false, not, ◌&&◌, ◌||◌, List, [], ◌∷◌, is_empty, Option, none,
  some, if◌then◌else◌, arith,
}
use lunarkernel_sched_extent.Kernel.{Kernel}
use lunarkernel_sched_extent.Monitor.Watch.{
  Monitor, lse_stats_record_tick, lse_monitor_touch, lse_monitor_reset_stats,
  lse_proc_stats_reset_write, lse_heartbeat_timer_fn, lse_watchdog_workfn, lse_monitor_sync,
}

abbrev pub touches : List ℕ → Monitor → Monitor
touches [] m = m
touches (now ∷ nows) m = touches nows (lse_monitor_touch now m)

touch-fields :
    (now : ℕ) (m : Monitor)
    → let r = lse_monitor_touch now m in
      (r.heartbeat ≡ true)
      × (r.heartbeat_enable ≡ m.heartbeat_enable)
      × (r.lse_watchdog_timestamp ≡ now)
unfolding lse_monitor_touch
touch-fields now m = ground arith

touches-fields :
    (nows : List ℕ) (m : Monitor)
    → let r = touches nows m in
      (r.heartbeat ≡ (if is_empty nows then m.heartbeat else true))
      × (r.heartbeat_enable ≡ m.heartbeat_enable)
touches-fields [] m = (refl, refl)
touches-fields (now ∷ nows) m =
    ground (arith, touches-fields nows (lse_monitor_touch now m), touch-fields now m)

-- A heartbeat that is enabled reports a stall exactly when the scheduler has not touched the monitor
-- since the timer expired before, and the timer is pending again.
pub heartbeat-stalled :
    (k : Kernel) (m : Monitor) (first second : ℕ) (nows : List ℕ)
    → m.heartbeat_enable ≡ true
    → let before = (lse_heartbeat_timer_fn k first m).0 in
      let r = lse_heartbeat_timer_fn k second (touches nows before) in
      (r.1 ≡ is_empty nows) × (r.0.timer ≢ none)
unfolding lse_heartbeat_timer_fn
heartbeat-stalled k m first second nows e =
    ground (arith, touches-fields nows (lse_heartbeat_timer_fn k first m).0)

-- The monitor, and whether a switch was written that no sync has followed yet.
pub record Watched : Type 0 where
  pub m : Monitor
  pub owed : Bool

module _ (k : Kernel) where
  pub data Step : Watched → Watched → Type 0 where
    at_touch : {w : Watched} (now : ℕ) → Step w (record w { m = lse_monitor_touch now w.m })
    at_reset :
        {w : Watched} (count jiffies : ℕ)
        → Step w (record w { m = lse_proc_stats_reset_write count jiffies w.m })
    at_expiry :
        {w : Watched} (jiffies : ℕ)
        → w.m.timer ≢ none
        → Step w (record w { m = (lse_heartbeat_timer_fn k jiffies w.m).0 })
    at_work :
        {w : Watched} (jiffies : ℕ)
        → w.m.work ≢ none
        → Step w (record w { m = (lse_watchdog_workfn k jiffies w.m).0 })
    at_write :
        {w : Watched} (hb wd : Bool)
        → Step w (record w {
          m = record w.m { heartbeat_enable = hb; watchdog_enable = wd };
          owed = true;
        })
    at_sync :
        {w : Watched} (jiffies : ℕ)
        → Step w (record w { m = lse_monitor_sync k jiffies w.m; owed = false })

  pub data Reach (start : Watched) : Watched → Type 0 where
    here : Reach start start
    next : {v w : Watched} → Reach start v → Step v w → Reach start w

  abbrev pub is_pending : Option ℕ → Bool
  is_pending none = false
  is_pending (some d) = true

  -- what is enabled is pending
  abbrev pub is_armed : Monitor → Bool
  is_armed m =
      (not m.heartbeat_enable || is_pending m.timer) && (not m.watchdog_enable || is_pending m.work)

  abbrev pub Armed : Watched → Type 0
  Armed w = (w.m.lse_monitor_inited ≡ true) × (w.owed || is_armed w.m ≡ true)

  Step-Armed : {v w : Watched} → Step v w → Armed v → Armed w
  unfolding lse_monitor_touch lse_stats_record_tick lse_proc_stats_reset_write
      lse_monitor_reset_stats lse_heartbeat_timer_fn lse_watchdog_workfn lse_monitor_sync
  Step-Armed (at_touch {w = w} now) h = ground arith
  Step-Armed (at_reset {w = w} count jiffies) h = ground arith
  Step-Armed (at_expiry {w = w} jiffies q) h = ground arith
  Step-Armed (at_work {w = w} jiffies q) h = ground arith
  Step-Armed (at_write {w = w} hb wd) h = (h.0, refl)
  Step-Armed (at_sync {w = w} jiffies) h = ground arith

  Reach-Armed : {v w : Watched} → Reach v w → Armed v → Armed w
  Reach-Armed here h = h
  Reach-Armed (next r step) h = Step-Armed step (Reach-Armed r h)

  -- Once initialised, an enabled heartbeat always has its timer pending and an enabled watchdog its
  -- work, through any touches, resets, expiries, runs and writes to the switches, as soon as a sync
  -- has followed the last write.
  pub synced-Armed : {v w : Watched} → Armed v → Reach v w → w.owed ≡ false → is_armed w.m ≡ true
  synced-Armed h r o = let a = Reach-Armed r h in ground arith
