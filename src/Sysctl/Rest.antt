-- ===== src/Sysctl/Rest.antt =====
-- Each part of the module after its sync: what is switched off is at rest.
use lunarkernel_sched_extent.Base.{
  ℕ, ◌≡◌, refl, ap, ◌∙◌, inl, inr, Bool, true, false, not, ◌||◌, Bool-cases, ◌==◌, leb, List, [],
  ◌∷◌, Option, none, some, All, All-map, All-intro, is_empty, count, arith,
}
use lunarkernel_sched_extent.Kernel.{Kernel, Rq}
use lunarkernel_sched_extent.Dsq.Queue.{global, pcp, Dsq, DsqConfig}
use lunarkernel_sched_extent.Dsq.Sync.{lse_dsq_sync}
use lunarkernel_sched_extent.Dsq.Drain.{queues-sync}
use lunarkernel_sched_extent.Monitor.Watch.{Monitor, lse_monitor_sync}
use lunarkernel_sched_extent.Shadow.Timer.{
  Shadow, lse_shadow_tick_stop_cpu, lse_shadow_tick_start_cpu, lse_shadow_tick_update_cpu,
  update_cpus, lse_shadow_tick_sync_all,
}
use lunarkernel_sched_extent.Sysctl.Memory.{Call, Memory}
use lunarkernel_sched_extent.Sysctl.Written.{update_cpus-ctrls}

abbrev pub is_some {ℓ} : {A : Type ℓ} → Option A → Bool
is_some none = false
is_some (some a) = true

-- The monitor runs, the heartbeat timer is pending exactly while the heartbeat is enabled, and the
-- watchdog's work exactly while the watchdog is.
abbrev pub MonitorSynced : Monitor → Type 0
MonitorSynced m =
    (m.lse_monitor_inited ≡ true)
    × (is_some m.timer ≡ m.heartbeat_enable)
    × (is_some m.work ≡ m.watchdog_enable)

-- The timers exist, and no CPU that is online is marked while the shadow tick is switched off.
abbrev pub ShadowSynced : List Rq → Shadow → Type 0
ShadowSynced rqs s =
    (s.lse_shadow_tick_inited ≡ true)
    × All (λ (rq : Rq). (s.highres_tick_ctrl || not (s.lse_shadow_tick_armed rq.cpu)) ≡ true) rqs

-- While the dispatch queues are disabled, the global ones and those of the CPUs that are online
-- are empty.
abbrev pub DsqSynced : Kernel → DsqConfig → Dsq → Type 0
DsqSynced k c s =
    ((i : ℕ) → (c.lse_dsq_enable || (leb 10 i || is_empty (s.queues (global i)).fifo)) ≡ true)
    × ((cpu : ℕ)
        → (c.lse_dsq_enable || (count cpu k.online_cpus == 0 || is_empty (s.queues (pcp cpu)).fifo))
          ≡ true)

abbrev pub Synced : Call → Memory → Type 0
Synced c m =
    MonitorSynced m.system.monitor
    × ShadowSynced c.rqs m.system.shadow
    × DsqSynced c.k m.system.config m.system.dsq

pub monitor_sync-MonitorSynced :
    (k : Kernel) (jiffies : ℕ) (m : Monitor)
    → m.lse_monitor_inited ≡ true
    → MonitorSynced (lse_monitor_sync k jiffies m)
unfolding lse_monitor_sync
monitor_sync-MonitorSynced k jiffies m i = ground arith

pub dsq_sync-DsqSynced : (k : Kernel) (c : DsqConfig) (s : Dsq) → DsqSynced k c (lse_dsq_sync k c s)
dsq_sync-DsqSynced k c s = elim (Bool-cases c.lse_dsq_enable) [
  | inl on ↦ ((λ i. rw on refl), (λ cpu. rw on refl))
  | inr off ↦
      ((λ i. ground (arith, queues-sync k c s i)), (λ cpu. ground (arith, queues-sync k c s cpu)))
]

-- With the shadow tick off, an update marks no CPU, and clears the mark of the one it is for.
update_cpu-off :
    (this_cpu : ℕ) (rq : Rq) (s : Shadow)
    → s.lse_shadow_tick_inited ≡ true
    → s.highres_tick_ctrl ≡ false
    → let t = lse_shadow_tick_update_cpu this_cpu rq s in
      (t.lse_shadow_tick_inited ≡ true)
      × (t.highres_tick_ctrl ≡ false)
      × (t.lse_shadow_tick_armed rq.cpu ≡ false)
unfolding lse_shadow_tick_update_cpu lse_shadow_tick_stop_cpu
update_cpu-off this_cpu rq s i off = ground arith

update_cpu-clear :
    (this_cpu : ℕ) (rq : Rq) (s : Shadow) (cpu : ℕ)
    → s.highres_tick_ctrl ≡ false
    → s.lse_shadow_tick_armed cpu ≡ false
    → (lse_shadow_tick_update_cpu this_cpu rq s).lse_shadow_tick_armed cpu ≡ false
unfolding lse_shadow_tick_update_cpu lse_shadow_tick_stop_cpu
update_cpu-clear this_cpu rq s cpu off h = ground arith

update_cpus-clear :
    (this_cpu : ℕ) (rqs : List Rq) (s : Shadow) (cpu : ℕ)
    → s.lse_shadow_tick_inited ≡ true
    → s.highres_tick_ctrl ≡ false
    → s.lse_shadow_tick_armed cpu ≡ false
    → (update_cpus this_cpu rqs s).lse_shadow_tick_armed cpu ≡ false
unfolding update_cpus
update_cpus-clear this_cpu [] s cpu i off h = h
update_cpus-clear this_cpu (rq ∷ rqs) s cpu i off h =
    let (i1, off1, a) = update_cpu-off this_cpu rq s i off in
    update_cpus-clear this_cpu rqs (lse_shadow_tick_update_cpu this_cpu rq s) cpu i1 off1
      (update_cpu-clear this_cpu rq s cpu off h)

update_cpus-off :
    (this_cpu : ℕ) (rqs : List Rq) (s : Shadow)
    → s.lse_shadow_tick_inited ≡ true
    → s.highres_tick_ctrl ≡ false
    → All (λ (rq : Rq). (update_cpus this_cpu rqs s).lse_shadow_tick_armed rq.cpu ≡ false) rqs
unfolding update_cpus
update_cpus-off this_cpu [] s i off = tt
update_cpus-off this_cpu (rq ∷ rqs) s i off =
    let (i1, off1, a) = update_cpu-off this_cpu rq s i off in
    let next = lse_shadow_tick_update_cpu this_cpu rq s in
    (
      update_cpus-clear this_cpu rqs next rq.cpu i1 off1 a,
      update_cpus-off this_cpu rqs next i1 off1,
    )

update_cpu-inited :
    (this_cpu : ℕ) (rq : Rq) (s : Shadow)
    → (lse_shadow_tick_update_cpu this_cpu rq s).lse_shadow_tick_inited ≡ s.lse_shadow_tick_inited
unfolding lse_shadow_tick_update_cpu lse_shadow_tick_start_cpu lse_shadow_tick_stop_cpu
update_cpu-inited this_cpu rq s = ground arith

update_cpus-inited :
    (this_cpu : ℕ) (rqs : List Rq) (s : Shadow)
    → (update_cpus this_cpu rqs s).lse_shadow_tick_inited ≡ s.lse_shadow_tick_inited
unfolding update_cpus
update_cpus-inited this_cpu [] s = refl
update_cpus-inited this_cpu (rq ∷ rqs) s =
    update_cpus-inited this_cpu rqs (lse_shadow_tick_update_cpu this_cpu rq s)
    ∙ update_cpu-inited this_cpu rq s

sync_all-runs :
    (this_cpu : ℕ) (rqs : List Rq) (s : Shadow)
    → s.lse_shadow_tick_inited ≡ true
    → lse_shadow_tick_sync_all this_cpu rqs s ≡ update_cpus this_cpu rqs s
unfolding lse_shadow_tick_sync_all
sync_all-runs this_cpu rqs s i = rw i refl

pub shadow_sync-ShadowSynced :
    (this_cpu : ℕ) (rqs : List Rq) (s : Shadow)
    → s.lse_shadow_tick_inited ≡ true
    → ShadowSynced rqs (lse_shadow_tick_sync_all this_cpu rqs s)
shadow_sync-ShadowSynced this_cpu rqs s i =
    let after = update_cpus this_cpu rqs s in
    let ctrl : after.highres_tick_ctrl ≡ s.highres_tick_ctrl =
      ap (λ (p : Bool × Bool). p.0) (update_cpus-ctrls this_cpu rqs s) in
    rw (sync_all-runs this_cpu rqs s i) (
      update_cpus-inited this_cpu rqs s ∙ i,
      (elim (Bool-cases s.highres_tick_ctrl) [
        | inl on ↦
            All-intro
              (λ (rq : Rq).
                (after.highres_tick_ctrl || not (after.lse_shadow_tick_armed rq.cpu)) ≡ true)
              rqs (λ rq. ground arith)
        | inr off ↦
            All-map (λ (rq : Rq). after.lse_shadow_tick_armed rq.cpu ≡ false)
              (λ (rq : Rq).
                (after.highres_tick_ctrl || not (after.lse_shadow_tick_armed rq.cpu)) ≡ true)
              rqs (λ rq a. ground arith) (update_cpus-off this_cpu rqs s i off)
      ]),
    )
