-- ===== src/Shadow/Armed.antt =====
-- The mark of a CPU and its timer.
use lunarkernel_sched_extent.Base.{
  ℕ, ◌≡◌, ◌≢◌, ap, ◌∙◌, Bool, true, List, [], ◌∷◌, none, some, if◌then◌else◌, All, arith,
}
use lunarkernel_sched_extent.Kernel.{Rq}
use lunarkernel_sched_extent.Shadow.Timer.{
  Shadow, lse_shadow_tick_stop_cpu, lse_shadow_tick_start_cpu, lse_shadow_tick_update_cpu,
  lse_shadow_tick_cb,
}

-- A step of the module that only touches the timer of the CPU it runs on: a context switch, a
-- callback, or a write to the switches.
pub data LocalStep : Shadow → Shadow → Type 0 where
  at_switch : {s : Shadow} (rq : Rq) → LocalStep s (lse_shadow_tick_update_cpu rq.cpu rq s)
  at_timer :
      {s : Shadow} (owner this_cpu : ℕ)
      → s.queued owner ≡ some this_cpu
      → LocalStep s (lse_shadow_tick_cb owner this_cpu s)
  at_write :
      {s : Shadow} (ctrl walt : Bool)
      → LocalStep s (record s { highres_tick_ctrl = ctrl; slim_walt_ctrl = walt })

pub data LocalReach (start : Shadow) : Shadow → Type 0 where
  here : LocalReach start start
  next : {s t : Shadow} → LocalReach start s → LocalStep s t → LocalReach start t

-- The mark tells whether the timer is queued, and a queued timer waits on its own CPU.
abbrev pub TimerOk : Shadow → ℕ → Type 0
TimerOk s cpu = s.queued cpu ≡ (if s.lse_shadow_tick_armed cpu then some cpu else none)

stop_cpu-TimerOk :
    (s : Shadow) (cpu c : ℕ) → TimerOk s c → TimerOk (lse_shadow_tick_stop_cpu cpu s) c
unfolding lse_shadow_tick_stop_cpu
stop_cpu-TimerOk s cpu c h = ground arith

start_cpu-TimerOk :
    (s : Shadow) (cpu c : ℕ) → TimerOk s c → TimerOk (lse_shadow_tick_start_cpu cpu cpu s) c
unfolding lse_shadow_tick_start_cpu
start_cpu-TimerOk s cpu c h = ground arith

update_cpu-TimerOk :
    (s : Shadow) (rq : Rq) (c : ℕ)
    → TimerOk s c
    → TimerOk (lse_shadow_tick_update_cpu rq.cpu rq s) c
unfolding lse_shadow_tick_update_cpu
update_cpu-TimerOk s rq c h =
    ground (arith, stop_cpu-TimerOk s rq.cpu c h, start_cpu-TimerOk s rq.cpu c h)

cb-TimerOk :
    (s : Shadow) (owner this_cpu c : ℕ)
    → TimerOk s owner
    → s.queued owner ≡ some this_cpu
    → TimerOk s c
    → TimerOk (lse_shadow_tick_cb owner this_cpu s) c
unfolding lse_shadow_tick_cb
cb-TimerOk s owner this_cpu c ho q h = ground arith

Step-TimerOk : {s t : Shadow} → LocalStep s t → ((c : ℕ) → TimerOk s c) → (c : ℕ) → TimerOk t c
Step-TimerOk (at_switch {s = s} rq) h c = update_cpu-TimerOk s rq c (h c)
Step-TimerOk (at_timer {s = s} owner this_cpu q) h c =
    cb-TimerOk s owner this_cpu c (h owner) q (h c)
Step-TimerOk (at_write ctrl walt) h c = h c

-- While only context switches, callbacks and writes to the switches happen, the mark of every CPU
-- tells whether its timer is queued, and a queued timer waits on its own CPU.
pub Reach-TimerOk :
    {s t : Shadow} → ((c : ℕ) → TimerOk s c) → LocalReach s t → (c : ℕ) → TimerOk t c
Reach-TimerOk h here = h
Reach-TimerOk h (next r step) = Step-TimerOk step (Reach-TimerOk h r)

-- Calls for context switches on one CPU, by that CPU.
abbrev pub switches : List Rq → Shadow → Shadow
switches [] s = s
switches (rq ∷ rqs) s = switches rqs (lse_shadow_tick_update_cpu rq.cpu rq s)

unchanged :
    (rq : Rq) (s : Shadow) (cpu : ℕ)
    → s.highres_tick_ctrl ≡ true
    → s.lse_shadow_tick_armed cpu ≡ true
    → rq.cpu ≡ cpu
    → rq.curr ≢ rq.idle
    → lse_shadow_tick_update_cpu rq.cpu rq s ≡ s
unfolding lse_shadow_tick_update_cpu lse_shadow_tick_start_cpu
unchanged rq s cpu e a c b = ground arith

-- A CPU whose mark is set without a queued timer gets none back, however often it switches between
-- tasks, until it is idle or the shadow tick is switched off.
pub switches-stuck :
    (rqs : List Rq) (s : Shadow) (cpu : ℕ)
    → s.highres_tick_ctrl ≡ true
    → s.lse_shadow_tick_armed cpu ≡ true
    → s.queued cpu ≡ none
    → All (λ (rq : Rq). (rq.cpu ≡ cpu) × (rq.curr ≢ rq.idle)) rqs
    → (switches rqs s).queued cpu ≡ none
switches-stuck [] s cpu e a q h = q
switches-stuck (rq ∷ rqs) s cpu e a q ((c, b), h) =
    ap (λ (t : Shadow). (switches rqs t).queued cpu) (unchanged rq s cpu e a c b)
    ∙ switches-stuck rqs s cpu e a q h
