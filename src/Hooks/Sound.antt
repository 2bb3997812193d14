-- ===== src/Hooks/Sound.antt =====
-- The invariant of the module while it runs, and what the updates of tasks do to it.
use lunarkernel_sched_extent.Base.{
  ℕ, ◌*◌, ◌^◌, ◌≤◌, ◌<◌, ◌≡◌, ◌≢◌, refl, max, Bool, true, Option, none, some, ◌==◌, if-keeps,
  Bool-cases, inl, inr, arith,
}
use lunarkernel_sched_extent.Base.Outcome.{Outcome, done}
use lunarkernel_sched_extent.Kernel.{Kernel, Task, Rq}
use lunarkernel_sched_extent.State.{Lts, Lrq, TaskEvent, put_prev_task, pick_next_task, task_update}
use lunarkernel_sched_extent.Track.Rollover.{Shared}
use lunarkernel_sched_extent.Track.Update.{Walt, lse_update_task_ravg}
use lunarkernel_sched_extent.Track.Total.{IsFresh, check_locked-passes, update_task_ravg-EndsFresh}
use lunarkernel_sched_extent.Dsq.Queue.{put_at}
use lunarkernel_sched_extent.Hooks.System.{
  System, lse_sched_clock, lse_rq_clock, put_walt, update_ext,
}
use lunarkernel_sched_extent.Hooks.Guided.{Guided}
use lunarkernel_sched_extent.Hooks.Cfs.{update_switched}

abbrev pub ExtOk : Option Lts → Type 0
ExtOk none = Unit
ExtOk (some lts) = IsFresh lts

-- a window between the least one and 2 ^ 32 - 1 ns
abbrev pub WindowOk : ℕ → ℕ → Type 0
WindowOk least window = (least ≤ window) × (window < 2 ^ 32)

-- the clock of the module is past 0 and not ahead of the kernel's
abbrev pub ClockIn : ℕ → System → Type 0
ClockIn clock s = (0 < lse_sched_clock clock s) × (lse_sched_clock clock s ≤ clock)

-- the CPU was not updated, and its window does not start, after the clock
abbrev pub Behind : ℕ → Lrq → Type 0
Behind clock lrq = (lrq.latest_clock ≤ clock) × (lrq.window_start ≤ clock)

-- The module at the kernel's `clock`: the window and the one to come are in bounds, no CPU is ahead
-- of the clock, no task that was never marked has a window, the divisor of the demand is not 0, and
-- the governor serves the clusters where its hook is set.
pub record Sound (least clock : ℕ) (off : Bool) (s : System) : Type 0 where
  pub window : WindowOk least s.g.lse_sched_ravg_window
  pub coming : WindowOk least s.g.new_lse_sched_ravg_window
  pub divisor : s.g.lse_scale_demand_divisor ≢ 0
  pub guided : Guided s.governor
  pub clock_in : ClockIn clock s
  pub awake : s.lse_clock_suspended ≡ off
  pub behind : (cpu : ℕ) → Behind (lse_sched_clock clock s) (s.lrqs cpu)
  pub fresh : (a : ℕ) → ExtOk (s.dsq.ext a)

-- The kernel's clock at a call: below 2 ^ 63 ns and 2 ^ 31 of the least windows.
abbrev pub InRange : ℕ → ℕ → Type 0
InRange least clock = (0 < least) × (clock < 2 ^ 63) × (clock < 2 ^ 31 * least)

-- the module when the clock has moved on
pub later-Sound :
    (least last clock : ℕ) (off : Bool) (s : System)
    → last ≤ clock
    → Sound least last off s
    → Sound least clock off s
unfolding lse_sched_clock
later-Sound least last off clock s le v = record {
  window = v.window;
  coming = v.coming;
  divisor = v.divisor;
  guided = v.guided;
  clock_in = ground (arith, v.clock_in);
  awake = v.awake;
  behind = λ cpu. ground (arith, v.behind cpu);
  fresh = v.fresh;
}

module _ (k : Kernel) (least clock : ℕ) (off : Bool) (range : InRange least clock) where
  rq_clock-eq :
      (rq : Rq) (s : System)
      → rq.locked ≡ true
      → Sound least clock off s
      → lse_rq_clock clock rq s ≡ done (lse_sched_clock clock s)
  unfolding lse_rq_clock lse_sched_clock
  rq_clock-eq rq s l v =
      let behind = v.behind rq.cpu in
      elim (Bool-cases s.lse_clock_suspended) [
        | inl off ↦ rw off refl
        | inr on ↦
            let latest : max clock (s.lrqs rq.cpu).latest_clock ≡ clock = ground arith in
            rw (on, check_locked-passes s.g rq l, latest) refl
      ]

  put_walt-Sound :
      (a cpu : ℕ) (w : Walt) (s : System)
      → IsFresh w.lts
      → Behind (lse_sched_clock clock s) w.lrq
      → Sound least clock off s
      → Sound least clock off (put_walt a cpu w s)
  unfolding put_walt put_at lse_sched_clock
  put_walt-Sound a cpu w s f b v = record {
    window = v.window;
    coming = v.coming;
    divisor = v.divisor;
    guided = v.guided;
    clock_in = v.clock_in;
    awake = v.awake;
    behind = λ c. if-keeps (Behind (lse_sched_clock clock s)) (cpu == c) (λ e. b) (λ e. v.behind c);
    fresh = λ c. if-keeps ExtOk (a == c) (λ e. f) (λ e. v.fresh c);
  }

  -- An update of a task at the clock of the module ends, and what it leaves is sound.
  pub update-Sound :
      (p : Task) (rq : Rq) (event : TaskEvent) (lts : Lts) (shared : Shared) (s : System)
      → rq.locked ≡ true
      → IsFresh lts
      → Sound least clock off s
      → (w : Walt) × (lse_update_task_ravg k s.g p rq event
            (lse_sched_clock clock s)
            (record { lts = lts; lrq = s.lrqs rq.cpu; shared = shared })
          ≡ done w)
        × Sound least clock off (put_walt p.addr rq.cpu w s)
        × Behind (lse_sched_clock clock s) w.lrq
  update-Sound p rq event lts shared s l f v =
      let now : ℕ = lse_sched_clock clock s in
      let (positive, before) = v.clock_in in
      let (latest, start) = v.behind rq.cpu in
      let (low, high) = v.window in
      let (w, e, fresh, l', s') =
        update_task_ravg-EndsFresh k s.g p rq event now
          (record { lts = lts; lrq = s.lrqs rq.cpu; shared = shared }) v.divisor l positive f
          (omega arith, high, latest, start, omega arith, omega arith) in
      (w, e, put_walt-Sound p.addr rq.cpu w s fresh (l', s') v, (l', s'))

  pub update_ext-Sound :
      (p : Task) (rq : Rq) (event : TaskEvent) (o : Option Lts) (s : System)
      → rq.locked ≡ true
      → ExtOk o
      → Sound least clock off s
      → (s' : System) × (update_ext k clock p rq event o s ≡ done s') × Sound least clock off s'
  unfolding update_ext
  update_ext-Sound p rq event none s l f v = (s, refl, v)
  update_ext-Sound p rq event (some lts) s l f v =
      let (w, e, sound, b) = update-Sound p rq event lts s.shared s l f v in
      (put_walt p.addr rq.cpu w s, rw (rq_clock-eq rq s l v, e) refl, sound)

  pub update_switched-Sound :
      (rq : Rq) (prev next : Task) (s : System)
      → rq.locked ≡ true
      → Sound least clock off s
      → (s' : System) × (update_switched k clock rq prev next s ≡ done s')
        × Sound least clock off s'
  unfolding update_switched
  update_switched-Sound rq prev next s l v =
      let (s0, e0, v0) =
        update_ext-Sound prev rq task_update (s.dsq.ext prev.addr) s l (v.fresh prev.addr) v in
      let (s1, e1, v1) =
        update_ext-Sound prev rq put_prev_task (s.dsq.ext prev.addr) s l (v.fresh prev.addr) v in
      let (s2, e2, v2) =
        update_ext-Sound next rq pick_next_task (s1.dsq.ext next.addr) s1 l (v1.fresh next.addr)
          v1 in
      if-keeps (λ (o : Outcome System). (s' : System) × (o ≡ done s') × Sound least clock off s')
        (prev.addr == next.addr) (λ q. (s0, e0, v0)) (λ q. (s2, rw (e1, e2) refl, v2))
