-- ===== src/Sysctl/Toggles.antt =====
-- After every access to a file of the table, what is switched off is at rest.
use mathlib.Core.Path.{subst}
use lunarkernel_sched_extent.Base.{
  ℕ, zero, suc, ◌≡◌, refl, sym, Bool, true, List, if-keeps, All, arith,
}
use lunarkernel_sched_extent.Base.Int.{ℤ, pos, negsuc}
use lunarkernel_sched_extent.Base.Outcome.{Outcome, done, >>=-eq-done, done-injective}
use lunarkernel_sched_extent.Sysctl.Table.{
  CtlTable, ProcHandler, lse_table, Setting, frame_per_sec, highres_tick_ctrl, proc_dobool,
  proc_dointvec, proc_dointvec_minmax, lse_proc_shadow_tick_update,
  lse_proc_sched_ravg_window_update, lse_proc_monitor_toggle_update, lse_proc_dsq_toggle_update,
  lse_proc_dsq_dump, lse_proc_dsq_urgency,
}
use lunarkernel_sched_extent.Sysctl.Handlers.{
  Handled, answer, is_change, in_place, shadow_tick_update, change_window, sched_ravg_window_update,
  monitor_toggle_update, dsq_toggle_update, dsq_dump, dsq_urgency, handle, lse_sysctl_init,
}
use lunarkernel_sched_extent.Sysctl.Memory.{Call, Memory, store, load}
use lunarkernel_sched_extent.Track.Update.{sched_ravg_window_change}
use lunarkernel_sched_extent.Sysctl.Rest.{
  Synced, monitor_sync-MonitorSynced, dsq_sync-DsqSynced, shadow_sync-ShadowSynced,
}
use lunarkernel_sched_extent.Sysctl.Ranges.{dump-memory, urgency-memory}
use lunarkernel_sched_extent.Sysctl.Limits.{Listed, All-Listed}
use lunarkernel_sched_extent.Sysctl.Parts.{
  no_part, part_of, store-Synced, store-parts, the_dsq, the_monitor, the_shadow,
}

-- what the row's function is, for the variable of the row
abbrev Switched : CtlTable → Type 0
Switched e = elim e.proc_handler [
  | lse_proc_monitor_toggle_update ↦ part_of e.entry ≡ the_monitor
  | lse_proc_dsq_toggle_update ↦ part_of e.entry ≡ the_dsq
  | lse_proc_shadow_tick_update ↦ part_of e.entry ≡ the_shadow
  | other ↦ part_of e.entry ≡ no_part
]

window_change-Synced :
    (c : Call) (fps : ℤ) (m m' : Memory) → Synced c m → change_window fps m ≡ done m' → Synced c m'
unfolding change_window sched_ravg_window_change
window_change-Synced c (pos zero) m m' h e = cc
window_change-Synced c (pos (suc n)) m m' h e = subst (Synced c) (done-injective _ m' e) h
window_change-Synced c (negsuc n) m m' h e = subst (Synced c) (done-injective _ m' e) h

module _ (c : Call) (write : Bool) (buffer : List ℕ) (m : Memory) (h : Synced c m) where
  shadow_tick_update-Synced : Synced c (shadow_tick_update c write buffer m).memory
  unfolding shadow_tick_update
  shadow_tick_update-Synced =
      let r = c.fns.do_bool write (load highres_tick_ctrl m) buffer in
      let stored = store highres_tick_ctrl r.value m in
      let (i, j, a, b, d) = store-parts c highres_tick_ctrl r.value m h in
      if-keeps (Synced c) (is_change write (load highres_tick_ctrl m) r)
        (λ q. (
          (d refl).0,
          shadow_sync-ShadowSynced c.this_cpu c.rqs stored.system.shadow j,
          (d refl).1,
        ))
        (λ q. h)

  monitor_toggle-Synced :
      (x : Setting)
      → part_of x ≡ the_monitor
      → Synced c (monitor_toggle_update c x write buffer m).memory
  unfolding monitor_toggle_update
  monitor_toggle-Synced x p =
      let r = c.fns.do_intvec write (load x m) buffer in
      let stored = store x r.value m in
      let (i, j, a, b, d) = store-parts c x r.value m h in
      if-keeps (Synced c) (is_change write (load x m) r)
        (λ q. (monitor_sync-MonitorSynced c.k c.jiffies stored.system.monitor i, (a p).0, (a p).1))
        (λ q. h)

  dsq_toggle-Synced :
      (x : Setting) → part_of x ≡ the_dsq → Synced c (dsq_toggle_update c x write buffer m).memory
  unfolding dsq_toggle_update
  dsq_toggle-Synced x p =
      let r = c.fns.do_intvec write (load x m) buffer in
      let stored = store x r.value m in
      let (i, j, a, b, d) = store-parts c x r.value m h in
      if-keeps (Synced c) (is_change write (load x m) r)
        (λ q. ((b p).0, (b p).1, dsq_sync-DsqSynced c.k stored.system.config stored.system.dsq))
        (λ q. h)

  window_update-Synced :
      (r : Handled) → sched_ravg_window_update c write buffer m ≡ done r → Synced c r.memory
  unfolding sched_ravg_window_update
  window_update-Synced r =
      let old = load frame_per_sec m in
      let p = c.fns.do_intvec write old buffer in
      let stored = store frame_per_sec p.value m in
      if-keeps (λ (o : Outcome Handled). o ≡ done r → Synced c r.memory) (is_change write old p)
        (λ q e.
          let (m', changed, same) =
            >>=-eq-done (change_window p.value stored) (λ m'. done (answer p m')) e in
          rw (sym (done-injective (answer p m') r same)) (
            window_change-Synced c p.value stored m' (store-Synced c frame_per_sec p.value m refl h)
              changed))
        (λ q e. rw (sym (done-injective (answer p m) r e)) h)

  -- by the function in the row
  row-Synced :
      (e : CtlTable) (handler : ProcHandler) (r : Handled)
      → Switched (record e { proc_handler = handler })
      → handle c (record e { proc_handler = handler }) write buffer m ≡ done r
      → Synced c r.memory
  unfolding handle
  row-Synced e proc_dobool r g q =
      let p = c.fns.do_bool write (load e.entry m) buffer in
      rw (sym (done-injective (in_place e.entry p m) r q)) (store-Synced c e.entry p.value m g h)
  row-Synced e proc_dointvec r g q =
      let p = c.fns.do_intvec write (load e.entry m) buffer in
      rw (sym (done-injective (in_place e.entry p m) r q)) (store-Synced c e.entry p.value m g h)
  row-Synced e proc_dointvec_minmax r g q =
      let p = c.fns.do_intvec_minmax e.extra1 e.extra2 write (load e.entry m) buffer in
      rw (sym (done-injective (in_place e.entry p m) r q)) (store-Synced c e.entry p.value m g h)
  row-Synced e lse_proc_shadow_tick_update r g q =
      rw (sym (done-injective (shadow_tick_update c write buffer m) r q)) shadow_tick_update-Synced
  row-Synced e lse_proc_sched_ravg_window_update r g q = window_update-Synced r q
  row-Synced e lse_proc_monitor_toggle_update r g q =
      rw (sym (done-injective (monitor_toggle_update c e.entry write buffer m) r q))
        (monitor_toggle-Synced e.entry g)
  row-Synced e lse_proc_dsq_toggle_update r g q =
      rw (sym (done-injective (dsq_toggle_update c e.entry write buffer m) r q))
        (dsq_toggle-Synced e.entry g)
  row-Synced e lse_proc_dsq_dump r g q =
      rw (sym (done-injective (dsq_dump c write buffer m) r q), dump-memory) h
  row-Synced e lse_proc_dsq_urgency r g q =
      rw (sym (done-injective (dsq_urgency c write buffer m) r q), urgency-memory) h

table-Switched : All Switched lse_table
table-Switched = ground arith

-- Every access to a file of the table that ends leaves the parts of the module in line with their
-- switches, if they were before: the heartbeat timer is pending exactly while the heartbeat is
-- enabled, the work of the watchdog exactly while the watchdog is, no CPU is marked for the shadow
-- tick while that is off, and the dispatch queues are empty while they are disabled, over the CPUs
-- that are online.
pub access-Synced :
    (c : Call) (e : CtlTable) (write : Bool) (buffer : List ℕ) (m : Memory) (r : Handled)
    → Listed e lse_table
    → Synced c m
    → handle c e write buffer m ≡ done r
    → Synced c r.memory
access-Synced c e write buffer m r l h q =
    row-Synced c write buffer m h e e.proc_handler r (All-Listed Switched l table-Switched) q

-- The initialisation brings the parts in line with their switches, whatever these are, if the parts
-- are initialised.
pub init-Synced :
    (c : Call) (m : Memory)
    → m.system.monitor.lse_monitor_inited ≡ true
    → m.system.shadow.lse_shadow_tick_inited ≡ true
    → Synced c (lse_sysctl_init c m)
unfolding lse_sysctl_init
init-Synced c m i j = (
  monitor_sync-MonitorSynced c.k c.jiffies m.system.monitor i,
  shadow_sync-ShadowSynced c.this_cpu c.rqs m.system.shadow j,
  dsq_sync-DsqSynced c.k m.system.config m.system.dsq,
)
