-- ===== src/Sysctl/Tests.antt =====
-- Concrete accesses to the files of the table, at which its theorems hold.
use lunarkernel_sched_extent.Base.{◌≡◌, refl, true, [], ◌∷◌, some, arith}
use lunarkernel_sched_extent.Base.Int.{pos}
use lunarkernel_sched_extent.Base.Outcome.{done}
use lunarkernel_sched_extent.Samples.{defaults}
use lunarkernel_sched_extent.Track.Globals.{Globals}
use lunarkernel_sched_extent.Track.Update.{sched_ravg_window_change}
use lunarkernel_sched_extent.Sysctl.Table.{
  CtlTable, lse_boost_bg_pct, limited, plain, lse_proc_monitor_toggle_update,
  lse_proc_sched_ravg_window_update, slim_walt_ctrl, slim_stats, heartbeat, lse_fg_prio_threshold,
  lse_boost_fg_pct, lse_boost_rt_pct, sched_window_stats_policy, frame_per_sec,
  sysctl_lse_gov_debug, highres_tick_ctrl, heartbeat_enable, watchdog_enable, lse_dsq_enable,
  lse_dsq_rescue_enable, lse_dsq_max_depth, highres_tick_ctrl_dbg, util_norm_enable,
  cluster_window_enable, cluster_tl_dyn_enable, cluster_freq_cap_enable, cluster_agg_mode,
  gov_legacy_formula_enable, sysctl_zero,
}
use lunarkernel_sched_extent.Sysctl.Samples.{accept_within, first_byte, call, memory}
use lunarkernel_sched_extent.Sysctl.Handlers.{
  Handled, in_place, monitor_toggle_update, handle, lse_sysctl_init,
}
use lunarkernel_sched_extent.Sysctl.Memory.{Memory, store, load}
use lunarkernel_sched_extent.Sysctl.Ranges.{access-MemoryOk}
use lunarkernel_sched_extent.Sysctl.Limits.{IsTyped, MinmaxOk, MemoryOk, first, later}
use lunarkernel_sched_extent.Sysctl.Rest.{Synced}
use lunarkernel_sched_extent.Sysctl.Toggles.{access-Synced, init-Synced}
use lunarkernel_sched_extent.Sysctl.Total.{EndsBy, is_zero_rate, access-EndsBy}

first_byte-MinmaxOk : MinmaxOk first_byte
first_byte-MinmaxOk lo hi write v buffer = ground arith

abbrev boost_row : CtlTable
boost_row = limited "boost_bg_pct" lse_boost_bg_pct 438 (pos 1) (pos 4096)

abbrev heartbeat_row : CtlTable
heartbeat_row = plain "heartbeat_enable" heartbeat_enable 438 lse_proc_monitor_toggle_update

memory-IsTyped : IsTyped memory
memory-IsTyped slim_walt_ctrl = omega arith
memory-IsTyped slim_stats = omega arith
memory-IsTyped heartbeat = omega arith
memory-IsTyped lse_fg_prio_threshold = omega arith
memory-IsTyped lse_boost_bg_pct = omega arith
memory-IsTyped lse_boost_fg_pct = omega arith
memory-IsTyped lse_boost_rt_pct = omega arith
memory-IsTyped sched_window_stats_policy = omega arith
memory-IsTyped frame_per_sec = omega arith
memory-IsTyped sysctl_lse_gov_debug = omega arith
memory-IsTyped highres_tick_ctrl = omega arith
memory-IsTyped heartbeat_enable = omega arith
memory-IsTyped watchdog_enable = omega arith
memory-IsTyped lse_dsq_enable = omega arith
memory-IsTyped lse_dsq_rescue_enable = omega arith
memory-IsTyped lse_dsq_max_depth = omega arith
memory-IsTyped highres_tick_ctrl_dbg = omega arith
memory-IsTyped util_norm_enable = omega arith
memory-IsTyped cluster_window_enable = omega arith
memory-IsTyped cluster_tl_dyn_enable = omega arith
memory-IsTyped cluster_freq_cap_enable = omega arith
memory-IsTyped cluster_agg_mode = omega arith
memory-IsTyped gov_legacy_formula_enable = omega arith
memory-IsTyped sysctl_zero = omega arith

memory-MemoryOk : MemoryOk memory
memory-MemoryOk = (memory-IsTyped, ground arith)

boosted : Handled
unfolding handle
boosted =
    in_place lse_boost_bg_pct
      (accept_within (some (pos 1)) (some (pos 4096)) true (pos 1024) (7 ∷ [])) memory

-- 7 is stored, 0 is refused
boost_7 : boosted.memory.vars lse_boost_bg_pct ≡ pos 7
unfolding boosted store
boost_7 = refl

handle-boosted : handle call boost_row true (7 ∷ []) memory ≡ done boosted
unfolding handle boosted load
handle-boosted = refl

access-MemoryOk_example : MemoryOk boosted.memory
access-MemoryOk_example =
    access-MemoryOk call boost_row true (7 ∷ []) memory boosted first_byte-MinmaxOk
      (later (later (later (later first)))) memory-MemoryOk handle-boosted

abbrev started : Memory
started = lse_sysctl_init call memory

abbrev stopped : Handled
stopped = monitor_toggle_update call heartbeat_enable true (1 ∷ []) started

handle-stopped : handle call heartbeat_row true (1 ∷ []) started ≡ done stopped
unfolding handle
handle-stopped = refl

access-Synced_example : Synced call stopped.memory
access-Synced_example =
    access-Synced call heartbeat_row true (1 ∷ []) started stopped
      (later (later (later (later (later (later (later (later (later (later (later first)))))))))))
      (init-Synced call memory refl refl) handle-stopped

abbrev rate_row : CtlTable
rate_row =
    plain "sched_ravg_window_frame_per_sec" frame_per_sec 420 lse_proc_sched_ravg_window_update

zero_rate : is_zero_rate call rate_row true (0 ∷ []) memory ≡ true
unfolding load
zero_rate = refl

access-EndsBy_example :
    EndsBy
      (is_zero_rate call rate_row true (0 ∷ []) memory)
      (handle call rate_row true (0 ∷ []) memory)
access-EndsBy_example = access-EndsBy call rate_row true (0 ∷ []) memory

abbrev at_144 : Globals
at_144 = record defaults { new_lse_sched_ravg_window = 6944444 }

change-at_144 : sched_ravg_window_change defaults (pos 144) ≡ done at_144
unfolding sched_ravg_window_change
change-at_144 = refl
