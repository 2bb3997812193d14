-- ===== src/Shadow/Tests.antt =====
-- Concrete runs of the shadow tick, at which its theorems hold.
use lunarkernel_sched_extent.Base.{◌≡◌, refl, true, false, [], ◌∷◌, none, arith}
use lunarkernel_sched_extent.Kernel.{Rq}
use lunarkernel_sched_extent.Samples.{cpu0}
use lunarkernel_sched_extent.Shadow.Timer.{
  Shadow, lse_shadow_tick_update_cpu, lse_shadow_tick_sync_all, lse_shadow_tick_cb,
}
use lunarkernel_sched_extent.Shadow.Armed.{
  LocalStep, LocalReach, TimerOk, Reach-TimerOk, switches, switches-stuck,
}

-- behind lse_shadow_tick_init, with the shadow tick on
abbrev quiet : Shadow
quiet = record {
  lse_shadow_tick_inited = true;
  highres_tick_ctrl = true;
  slim_walt_ctrl = true;
  lse_shadow_tick_armed = λ cpu. false;
  queued = λ cpu. none;
}

abbrev cpu1 : Rq
cpu1 = record cpu0 { cpu = 1 }

Reach-TimerOk_example : TimerOk (lse_shadow_tick_update_cpu 1 cpu1 quiet) 1
Reach-TimerOk_example =
    Reach-TimerOk (λ c. refl) (LocalReach.next LocalReach.here (LocalStep.at_switch cpu1)) 1

abbrev synced : Shadow
synced = lse_shadow_tick_sync_all 0 (cpu1 ∷ []) quiet

abbrev fired : Shadow
fired = lse_shadow_tick_cb 1 0 (record synced { slim_walt_ctrl = false })

-- CPU 1 marked, without a timer
abbrev lost : Shadow
lost = record quiet { lse_shadow_tick_armed = λ cpu. true }

switches-stuck_example : (switches (cpu1 ∷ cpu1 ∷ []) lost).queued 1 ≡ none
switches-stuck_example = switches-stuck (cpu1 ∷ cpu1 ∷ []) lost 1 refl refl refl (ground arith)
