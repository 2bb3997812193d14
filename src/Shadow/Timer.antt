-- ===== src/Shadow/Timer.antt =====
-- The timers of lse_shadow_tick.c: which CPU's timer is armed, and on which CPU it waits.
use lunarkernel_sched_extent.Base.{
  ℕ, Bool, true, false, not, ◌||◌, List, [], ◌∷◌, Option, none, some, ◌==◌, if◌then◌else◌,
}
use lunarkernel_sched_extent.Kernel.{Rq}

-- `queued` is the kernel's: the CPU on which the hrtimer of a CPU is queued, if it is. A timer
-- that is started with HRTIMER_MODE_REL_PINNED is queued on the CPU that runs `hrtimer_start`.
pub record Shadow : Type 0 where
  pub lse_shadow_tick_inited : Bool
  pub highres_tick_ctrl : Bool
  pub slim_walt_ctrl : Bool
  pub lse_shadow_tick_armed : ℕ → Bool
  pub queued : ℕ → Option ℕ

abbrev pub put {ℓ} : {A : Type ℓ} → ℕ → A → (ℕ → A) → ℕ → A
put i v f j = if i == j then v else f j

unfoldable pub lse_shadow_tick_stop_cpu : ℕ → Shadow → Shadow
lse_shadow_tick_stop_cpu cpu s = if not (s.lse_shadow_tick_armed cpu) then s else record s {
  queued = put cpu none s.queued;
  lse_shadow_tick_armed = put cpu false s.lse_shadow_tick_armed;
}

-- `this_cpu` runs the call.
unfoldable pub lse_shadow_tick_start_cpu : ℕ → ℕ → Shadow → Shadow
unfolding lse_shadow_tick_stop_cpu
lse_shadow_tick_start_cpu this_cpu cpu s =
    if not s.highres_tick_ctrl
    then lse_shadow_tick_stop_cpu cpu s
    else if s.lse_shadow_tick_armed cpu
    then s
    else record s {
      queued = put cpu (some this_cpu) s.queued;
      lse_shadow_tick_armed = put cpu true s.lse_shadow_tick_armed;
    }

unfoldable pub lse_shadow_tick_update_cpu : ℕ → Rq → Shadow → Shadow
unfolding lse_shadow_tick_start_cpu lse_shadow_tick_stop_cpu
lse_shadow_tick_update_cpu this_cpu rq s =
    if not s.lse_shadow_tick_inited
    then s
    else if not s.highres_tick_ctrl
    then lse_shadow_tick_stop_cpu rq.cpu s
    else if rq.curr == rq.idle
    then lse_shadow_tick_stop_cpu rq.cpu s
    else lse_shadow_tick_start_cpu this_cpu rq.cpu s

-- for_each_online_cpu
unfoldable pub update_cpus : ℕ → List Rq → Shadow → Shadow
unfolding lse_shadow_tick_update_cpu
update_cpus this_cpu [] s = s
update_cpus this_cpu (rq ∷ rqs) s =
    update_cpus this_cpu rqs (lse_shadow_tick_update_cpu this_cpu rq s)

unfoldable pub lse_shadow_tick_sync_all : ℕ → List Rq → Shadow → Shadow
unfolding update_cpus
lse_shadow_tick_sync_all this_cpu rqs s =
    if not s.lse_shadow_tick_inited then s else update_cpus this_cpu rqs s

-- The callback of the timer of the CPU `owner`, as far as the timers go: it runs on the CPU where
-- the timer waited, and clears the mark of that CPU when it does not restart.
unfoldable pub lse_shadow_tick_cb : ℕ → ℕ → Shadow → Shadow
lse_shadow_tick_cb owner this_cpu s =
    if not s.highres_tick_ctrl || not s.slim_walt_ctrl
    then record s {
      queued = put owner none s.queued;
      lse_shadow_tick_armed = put this_cpu false s.lse_shadow_tick_armed;
    }
    else record s { queued = put owner (some this_cpu) s.queued }

-- for_each_possible_cpu
unfoldable pub init_timers : List ℕ → Shadow → Shadow
init_timers [] s = s
init_timers (cpu ∷ cpus) s = init_timers cpus (record s {
  queued = put cpu none s.queued;
  lse_shadow_tick_armed = put cpu false s.lse_shadow_tick_armed;
})

unfoldable pub lse_shadow_tick_init : List ℕ → Shadow → Shadow
unfolding init_timers
lse_shadow_tick_init cpus s =
    if s.lse_shadow_tick_inited
    then s
    else record (init_timers cpus s) { lse_shadow_tick_inited = true }
