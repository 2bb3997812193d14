-- ===== src/Sysctl/Ranges.antt =====
-- Every access to a file of the table keeps the variables within their limits.
use mathlib.Core.Path.{subst}
use lunarkernel_sched_extent.Base.{
  ℕ, ◌≡◌, refl, sym, inl, inr, Bool, false, ◌==◌, List, Option, none, some, if◌then◌else◌, if-keeps,
  All, arith,
}
use lunarkernel_sched_extent.Base.Int.{ℤ}
use lunarkernel_sched_extent.Base.Outcome.{Outcome, done, >>=-eq-done, done-injective}
use lunarkernel_sched_extent.Sysctl.Table.{
  CtlTable, ProcHandler, lse_table, Setting, heartbeat, frame_per_sec, highres_tick_ctrl,
  proc_dobool, proc_dointvec, proc_dointvec_minmax, lse_proc_shadow_tick_update,
  lse_proc_sched_ravg_window_update, lse_proc_monitor_toggle_update, lse_proc_dsq_toggle_update,
  lse_proc_dsq_dump, lse_proc_dsq_urgency,
}
use lunarkernel_sched_extent.Sysctl.Handlers.{
  Handled, answer, is_change, in_place, sync_shadow, sync_monitor, sync_dsq, shadow_tick_update,
  change_window, sched_ravg_window_update, monitor_toggle_update, dsq_toggle_update, dsq_dump,
  dsq_urgency, handle,
}
use lunarkernel_sched_extent.Sysctl.Memory.{ProcFns, Call, Memory, number, store, load}
use lunarkernel_sched_extent.Sysctl.Written.{
  number-injective, store-InStep, sync_shadow-InStep, sync_monitor-InStep, sync_dsq-InStep,
  window_change-InStep,
}
use lunarkernel_sched_extent.Sysctl.Limits.{
  All-Listed, Guarded, IsTyped, LimitsAgree, Listed, MemoryOk, MinmaxOk, Within, limits,
}

store-IsTyped :
    (x : Setting) (v : ℤ) (m : Memory) → Within (limits x) v → IsTyped m → IsTyped (store x v m)
unfolding store
store-IsTyped x v m w h y =
    if-keeps (Within (limits y)) (number x == number y)
      (λ e. subst (λ (z : Setting). Within (limits z) v) (number-injective x y e) w) (λ e. h y)

free-Within : (x : Setting) (v : ℤ) → limits x ≡ none → Within (limits x) v
free-Within x v e = rw e tt

store-MemoryOk :
    (x : Setting) (v : ℤ) (m : Memory) → Within (limits x) v → MemoryOk m → MemoryOk (store x v m)
store-MemoryOk x v m w h = (store-IsTyped x v m w h.0, store-InStep x v m h.1)

load-other :
    (x : Setting) (m : Memory) → (number x == number heartbeat) ≡ false → load x m ≡ m.vars x
unfolding load
load-other x m n = rw n refl

minmax-MemoryOk :
    (fns : ProcFns) (x : Setting) (lo hi : ℤ) (write : Bool) (buffer : List ℕ) (m : Memory)
    → MinmaxOk fns
    → (number x == number heartbeat) ≡ false
    → limits x ≡ some (lo, hi)
    → MemoryOk m
    → MemoryOk
        (in_place x (fns.do_intvec_minmax (some lo) (some hi) write (load x m) buffer) m).memory
minmax-MemoryOk fns x lo hi write buffer m law n e h =
    let old = load x m in
    let r = fns.do_intvec_minmax (some lo) (some hi) write old buffer in
    store-MemoryOk x r.value m
      (elim (law lo hi write old buffer) [
        | inl same ↦ rw (same, load-other x m n) (h.0 x)
        | inr (low, high) ↦ rw e (low, high)
      ])
      h

agreed-MemoryOk :
    (fns : ProcFns) (x : Setting) (lo hi : Option ℤ) (write : Bool) (buffer : List ℕ) (m : Memory)
    → MinmaxOk fns
    → LimitsAgree x lo hi
    → MemoryOk m
    → MemoryOk (in_place x (fns.do_intvec_minmax lo hi write (load x m) buffer) m).memory
agreed-MemoryOk fns x (some lo) (some hi) write buffer m law (n, e) h =
    minmax-MemoryOk fns x lo hi write buffer m law n e h
agreed-MemoryOk fns x (some lo) none write buffer m law g h = absurd g
agreed-MemoryOk fns x none extra2 write buffer m law g h = absurd g

-- a change of a variable without limits, with what follows it
change-MemoryOk :
    (test : Bool) (x : Setting) (v : ℤ) (m : Memory) (sync : Memory → Memory)
    → limits x ≡ none
    → ((m' : Memory) → MemoryOk m' → MemoryOk (sync m'))
    → MemoryOk m
    → MemoryOk (if test then sync (store x v m) else m)
change-MemoryOk test x v m sync free keeps h =
    if-keeps MemoryOk test
      (λ e. keeps (store x v m) (store-MemoryOk x v m (free-Within x v free) h)) (λ e. h)

module _ (c : Call) (write : Bool) (buffer : List ℕ) (m : Memory) (h : MemoryOk m) where
  shadow_tick_update-MemoryOk : MemoryOk (shadow_tick_update c write buffer m).memory
  unfolding shadow_tick_update
  shadow_tick_update-MemoryOk =
      change-MemoryOk _ highres_tick_ctrl _ m (sync_shadow c) refl
        (λ m' k. (k.0, sync_shadow-InStep c m' k.1)) h

  monitor_toggle-MemoryOk :
      (x : Setting) → limits x ≡ none → MemoryOk (monitor_toggle_update c x write buffer m).memory
  unfolding monitor_toggle_update
  monitor_toggle-MemoryOk x free =
      change-MemoryOk _ x _ m (sync_monitor c) free (λ m' k. (k.0, sync_monitor-InStep c m' k.1)) h

  dsq_toggle-MemoryOk :
      (x : Setting) → limits x ≡ none → MemoryOk (dsq_toggle_update c x write buffer m).memory
  unfolding dsq_toggle_update
  dsq_toggle-MemoryOk x free =
      change-MemoryOk _ x _ m (sync_dsq c) free (λ m' k. (k.0, sync_dsq-InStep c m' k.1)) h

  window_update-MemoryOk :
      (r : Handled) → sched_ravg_window_update c write buffer m ≡ done r → MemoryOk r.memory
  unfolding sched_ravg_window_update
  window_update-MemoryOk r =
      let old = load frame_per_sec m in
      let p = c.fns.do_intvec write old buffer in
      let stored = store frame_per_sec p.value m in
      if-keeps (λ (o : Outcome Handled). o ≡ done r → MemoryOk r.memory) (is_change write old p)
        (λ q e.
          let (m', changed, same) =
            >>=-eq-done (change_window p.value stored) (λ m'. done (answer p m')) e in
          let kept = store-MemoryOk frame_per_sec p.value m tt h in
          let (step, vars) = window_change-InStep p.value stored m' kept.1 changed in
          rw (sym (done-injective (answer p m') r same)) ((λ x. rw vars (kept.0 x)), step))
        (λ q e. rw (sym (done-injective (answer p m) r e)) h)

module _ (c : Call) (write : Bool) (buffer : List ℕ) (m : Memory) where
  pub dump-memory : (dsq_dump c write buffer m).memory ≡ m
  unfolding dsq_dump
  dump-memory = refl

  pub urgency-memory : (dsq_urgency c write buffer m).memory ≡ m
  unfolding dsq_urgency
  urgency-memory = ground arith

module _ (c : Call) (law : MinmaxOk c.fns) where
  -- by the function in the row
  row-MemoryOk :
      (e : CtlTable) (handler : ProcHandler) (write : Bool) (buffer : List ℕ) (m : Memory)
      (r : Handled)
      → Guarded (record e { proc_handler = handler })
      → MemoryOk m
      → handle c (record e { proc_handler = handler }) write buffer m ≡ done r
      → MemoryOk r.memory
  unfolding handle
  row-MemoryOk e proc_dobool write buffer m r g h q =
      let p = c.fns.do_bool write (load e.entry m) buffer in
      rw (sym (done-injective (in_place e.entry p m) r q))
        (store-MemoryOk e.entry p.value m (free-Within e.entry p.value g) h)
  row-MemoryOk e proc_dointvec write buffer m r g h q =
      let p = c.fns.do_intvec write (load e.entry m) buffer in
      rw (sym (done-injective (in_place e.entry p m) r q))
        (store-MemoryOk e.entry p.value m (free-Within e.entry p.value g) h)
  row-MemoryOk e proc_dointvec_minmax write buffer m r g h q =
      let p = c.fns.do_intvec_minmax e.extra1 e.extra2 write (load e.entry m) buffer in
      rw (sym (done-injective (in_place e.entry p m) r q))
        (agreed-MemoryOk c.fns e.entry e.extra1 e.extra2 write buffer m law g h)
  row-MemoryOk e lse_proc_shadow_tick_update write buffer m r g h q =
      rw (sym (done-injective (shadow_tick_update c write buffer m) r q))
        (shadow_tick_update-MemoryOk c write buffer m h)
  row-MemoryOk e lse_proc_sched_ravg_window_update write buffer m r g h q =
      window_update-MemoryOk c write buffer m h r q
  row-MemoryOk e lse_proc_monitor_toggle_update write buffer m r g h q =
      rw (sym (done-injective (monitor_toggle_update c e.entry write buffer m) r q))
        (monitor_toggle-MemoryOk c write buffer m h e.entry g)
  row-MemoryOk e lse_proc_dsq_toggle_update write buffer m r g h q =
      rw (sym (done-injective (dsq_toggle_update c e.entry write buffer m) r q))
        (dsq_toggle-MemoryOk c write buffer m h e.entry g)
  row-MemoryOk e lse_proc_dsq_dump write buffer m r g h q =
      rw (sym (done-injective (dsq_dump c write buffer m) r q), dump-memory) h
  row-MemoryOk e lse_proc_dsq_urgency write buffer m r g h q =
      rw (sym (done-injective (dsq_urgency c write buffer m) r q), urgency-memory) h

table-Guarded : All Guarded lse_table
table-Guarded = ground arith

-- Every access to a file of the table, a read or a write of any text, that ends leaves all
-- variables within the limits that the rows of the table name and their handlers enforce, and what
-- the parts of the module keep of the variables in step with them, if this held before and
-- proc_dointvec_minmax stores nothing out of its limits. The frame rate has no limit, since its
-- handler enforces none, and the policy may be 4, the invalid one, since its row names it.
pub access-MemoryOk :
    (c : Call) (e : CtlTable) (write : Bool) (buffer : List ℕ) (m : Memory) (r : Handled)
    → MinmaxOk c.fns
    → Listed e lse_table
    → MemoryOk m
    → handle c e write buffer m ≡ done r
    → MemoryOk r.memory
access-MemoryOk c e write buffer m r law l h q =
    row-MemoryOk c law e e.proc_handler write buffer m r (All-Listed Guarded l table-Guarded) h q
