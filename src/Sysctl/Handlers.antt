-- ===== src/Sysctl/Handlers.antt =====
-- The handlers of lse_sysctl.c, and the initialisation. The kernel's functions that parse and
-- print a value are an argument.
use lunarkernel_sched_extent.Base.{ℕ, Bool, not, ◌&&◌, List, if◌then◌else◌}
use lunarkernel_sched_extent.Base.Int.{ℤ, pos, negsuc, ◌==ℤ◌}
use lunarkernel_sched_extent.Base.Outcome.{Outcome, done, ◌>>=◌}
use lunarkernel_sched_extent.Track.Update.{sched_ravg_window_change}
use lunarkernel_sched_extent.Dsq.Sync.{lse_dsq_sync}
use lunarkernel_sched_extent.Dsq.Timeout.{lse_dsq_total_backlog, lse_dsq_urgency_signal}
use lunarkernel_sched_extent.Monitor.Watch.{lse_monitor_sync}
use lunarkernel_sched_extent.Shadow.Timer.{lse_shadow_tick_sync_all}
use lunarkernel_sched_extent.Sysctl.Table.{
  Setting, CtlTable, frame_per_sec, highres_tick_ctrl, proc_dobool, proc_dointvec,
  proc_dointvec_minmax, lse_proc_shadow_tick_update, lse_proc_sched_ravg_window_update,
  lse_proc_monitor_toggle_update, lse_proc_dsq_toggle_update, lse_proc_dsq_dump,
  lse_proc_dsq_urgency,
}
use lunarkernel_sched_extent.Sysctl.Memory.{Call, Memory, ProcResult, load, store}

pub record Handled : Type 0 where
  pub ret : ℤ
  pub buffer : List ℕ
  pub memory : Memory

-- what a handler returns that changed the memory to `m`
abbrev pub answer : ProcResult → Memory → Handled
answer r m = record { ret = r.ret; buffer = r.buffer; memory = m }

-- a write that the kernel's function took and that changes the value
abbrev pub is_change : Bool → ℤ → ProcResult → Bool
is_change write old r = (r.ret ==ℤ pos 0) && (write && not (r.value ==ℤ old))

-- `proc_dointvec` and its relatives work on the variable itself.
abbrev pub in_place : Setting → ProcResult → Memory → Handled
in_place x r m = answer r (store x r.value m)

abbrev pub sync_shadow : Call → Memory → Memory
sync_shadow c m = record m {
  system = record m.system { shadow = lse_shadow_tick_sync_all c.this_cpu c.rqs m.system.shadow };
}

abbrev pub sync_monitor : Call → Memory → Memory
sync_monitor c m = record m {
  system = record m.system { monitor = lse_monitor_sync c.k c.jiffies m.system.monitor };
}

abbrev pub sync_dsq : Call → Memory → Memory
sync_dsq c m = record m {
  system = record m.system { dsq = lse_dsq_sync c.k m.system.config m.system.dsq };
}

-- The handlers take the row, whether it is a write, the buffer and the memory. The mutexes are not
-- modelled: a call runs alone.
unfoldable pub shadow_tick_update : Call → Bool → List ℕ → Memory → Handled
shadow_tick_update c write buffer m =
    let old = load highres_tick_ctrl m in
    let r = c.fns.do_bool write old buffer in
    answer r
      (if is_change write old r then sync_shadow c (store highres_tick_ctrl r.value m) else m)

-- the new rate, and the window of the next rollover
unfoldable pub change_window : ℤ → Memory → Outcome Memory
change_window fps m = do
  g ← sched_ravg_window_change m.system.g fps
  done (record m { system = record m.system { g = g } })

unfoldable pub sched_ravg_window_update : Call → Bool → List ℕ → Memory → Outcome Handled
sched_ravg_window_update c write buffer m =
    let old = load frame_per_sec m in
    let r = c.fns.do_intvec write old buffer in
    if is_change write old r
    then (do m' ← change_window r.value (store frame_per_sec r.value m); done (answer r m'))
    else done (answer r m)

unfoldable pub monitor_toggle_update : Call → Setting → Bool → List ℕ → Memory → Handled
monitor_toggle_update c x write buffer m =
    let old = load x m in
    let r = c.fns.do_intvec write old buffer in
    answer r (if is_change write old r then sync_monitor c (store x r.value m) else m)

unfoldable pub dsq_toggle_update : Call → Setting → Bool → List ℕ → Memory → Handled
dsq_toggle_update c x write buffer m =
    let old = load x m in
    let r = c.fns.do_intvec write old buffer in
    answer r (if is_change write old r then sync_dsq c (store x r.value m) else m)

-- A write that is taken prints the state of the queues, which changes nothing.
unfoldable pub dsq_dump : Call → Bool → List ℕ → Memory → Handled
dsq_dump c write buffer m =
    let val = (if write then pos 0 else pos (lse_dsq_total_backlog c.k m.system.dsq)) in
    answer (c.fns.do_intvec write val buffer) m

-- -EPERM
abbrev pub eperm : ℤ
eperm = negsuc 0

unfoldable pub dsq_urgency : Call → Bool → List ℕ → Memory → Handled
dsq_urgency c write buffer m =
    if write
    then record { ret = eperm; buffer = buffer; memory = m }
    else (let val = pos (lse_dsq_urgency_signal m.system.config m.system.dsq) in
        answer (c.fns.do_uintvec write val buffer) m)

-- the call of the function that stands in the row
unfoldable pub handle : Call → CtlTable → Bool → List ℕ → Memory → Outcome Handled
handle c e write buffer m = elim e.proc_handler [
  | proc_dobool ↦ done (in_place e.entry (c.fns.do_bool write (load e.entry m) buffer) m)
  | proc_dointvec ↦ done (in_place e.entry (c.fns.do_intvec write (load e.entry m) buffer) m)
  | proc_dointvec_minmax ↦
      done (
        in_place e.entry (c.fns.do_intvec_minmax e.extra1 e.extra2 write (load e.entry m) buffer) m)
  | lse_proc_shadow_tick_update ↦ done (shadow_tick_update c write buffer m)
  | lse_proc_sched_ravg_window_update ↦ sched_ravg_window_update c write buffer m
  | lse_proc_monitor_toggle_update ↦ done (monitor_toggle_update c e.entry write buffer m)
  | lse_proc_dsq_toggle_update ↦ done (dsq_toggle_update c e.entry write buffer m)
  | lse_proc_dsq_dump ↦ done (dsq_dump c write buffer m)
  | lse_proc_dsq_urgency ↦ done (dsq_urgency c write buffer m)
]

-- without the registration of the table
unfoldable pub lse_sysctl_init : Call → Memory → Memory
lse_sysctl_init c m = sync_shadow c (sync_monitor c (sync_dsq c m))
