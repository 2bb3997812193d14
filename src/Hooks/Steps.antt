-- ===== src/Hooks/Steps.antt =====
-- The hooks of the scheduler leave a sound module.

use lunarkernel_sched_extent.Base.{
  ℕ, ◌≤◌, ◌≡◌, refl, Bool, true, false, not, List, [], ◌∷◌, some, ◌==◌, if◌then◌else◌, if-keeps,
  Option-cases, inl, inr, arith,
}
use lunarkernel_sched_extent.Base.Word.{sub64}
use lunarkernel_sched_extent.Base.Outcome.{Outcome, done}
use lunarkernel_sched_extent.Kernel.{Kernel, Task, Rq}
use lunarkernel_sched_extent.State.{Lrq, task_update}
use lunarkernel_sched_extent.Monitor.Watch.{lse_monitor_touch}
use lunarkernel_sched_extent.Dsq.Queue.{put_at}
use lunarkernel_sched_extent.Hooks.System.{System, lse_sched_clock}
use lunarkernel_sched_extent.Hooks.Cfs.{
  start_windows, start_clock, lse_scheduler_tick, after_updates, lse_schedule, gov_tick,
  lse_tick_entry,
}
use lunarkernel_sched_extent.Hooks.Exts.{on_schedule-ExtsOk}
use lunarkernel_sched_extent.Hooks.Sound.{
  Behind, Sound, InRange, update_ext-Sound, update_switched-Sound,
}

-- the event has been dealt with, and the module is sound
abbrev pub Fine : ℕ → ℕ → Bool → Outcome System → Type 0
Fine least clock off o = (s : System) × (o ≡ done s) × Sound least clock off s

module _ (k : Kernel) (least clock : ℕ) (off : Bool) (range : InRange least clock) where
  start_windows-Behind :
      (cpus : List ℕ) (start now : ℕ) (lrqs : ℕ → Lrq)
      → start ≤ now
      → ((cpu : ℕ) → Behind now (lrqs cpu))
      → (cpu : ℕ) → Behind now (start_windows cpus start lrqs cpu)
  unfolding start_windows put_at
  start_windows-Behind [] start now lrqs le h cpu = h cpu
  start_windows-Behind (c ∷ cpus) start now lrqs le h cpu =
      start_windows-Behind cpus start now _ le
        (λ x. if-keeps (Behind now) (c == x) (λ _. ((h c).0, le)) (λ _. h x)) cpu

  start_clock-Sound :
      (s : System)
      → 20000 ≤ clock
      → off ≡ false
      → Sound least clock off s
      → Sound least clock off (start_clock k clock s)
  unfolding start_clock lse_sched_clock
  start_clock-Sound s b awake v =
      let before : sub64 clock 20000 ≤ lse_sched_clock clock s = ground arith in
      record {
        window = v.window;
        coming = v.coming;
        divisor = v.divisor;
        guided = v.guided;
        clock_in = v.clock_in;
        awake = v.awake;
        behind =
            start_windows-Behind k.possible_cpus (sub64 clock 20000) (lse_sched_clock clock s)
              s.lrqs before v.behind;
        fresh = v.fresh;
      }

  pub tick-Sound :
      (jiffies : ℕ) (s : System)
      → 20000 ≤ clock
      → off ≡ false
      → Sound least clock off s
      → Sound least clock off (lse_scheduler_tick k jiffies clock s)
  unfolding lse_scheduler_tick lse_sched_clock
  tick-Sound jiffies s b awake v =
      if-keeps (Sound least clock off) (not s.g.slim_walt_ctrl) (λ _. v)
        (λ _.
          let t = (if s.tick_sched_clock == 0 then start_clock k clock s else s) in
          let u : Sound least clock off t =
            if-keeps (Sound least clock off) (s.tick_sched_clock == 0)
              (λ _. start_clock-Sound s b awake v) (λ _. v) in
          record {
            window = u.window;
            coming = u.coming;
            divisor = u.divisor;
            guided = u.guided;
            clock_in = u.clock_in;
            awake = u.awake;
            behind = u.behind;
            fresh = u.fresh;
          })

  after_updates-Sound :
      (jiffies : ℕ) (rq : Rq) (prev next : Task) (s : System)
      → Sound least clock off s
      → Sound least clock off (after_updates k jiffies rq prev next s)
  unfolding after_updates lse_sched_clock
  after_updates-Sound jiffies rq prev next s v = record {
    window = v.window;
    coming = v.coming;
    divisor = v.divisor;
    guided = v.guided;
    clock_in = v.clock_in;
    awake = v.awake;
    behind = v.behind;
    fresh = on_schedule-ExtsOk k s.config jiffies rq (some prev) (some next) s.dsq v.fresh;
  }

  pub schedule-Fine :
      (jiffies : ℕ) (rq : Rq) (prev next : Task) (s : System)
      → rq.locked ≡ true
      → Sound least clock off s
      → Fine least clock off (lse_schedule k jiffies clock rq prev next s)
  unfolding lse_schedule
  schedule-Fine jiffies rq prev next s l v =
      let (t, e, u) = update_switched-Sound k least clock off range rq prev next s l v in
      if-keeps (Fine least clock off) (not s.g.slim_walt_ctrl) (λ _. (s, refl, v))
        (λ _. (
          after_updates k jiffies rq prev next t,
          rw e refl,
          after_updates-Sound jiffies rq prev next t u,
        ))

  gov_tick-Sound :
      (now_ns now cpu : ℕ) (s : System)
      → Sound least clock off s
      → Sound least clock off (gov_tick k now_ns now cpu s)
  unfolding lse_sched_clock gov_tick
  gov_tick-Sound now_ns now cpu s v = elim (Option-cases (s.governor.policy_of cpu)) [
    | inl e ↦ rw (e, gov_tick) v
    | inr (id, e) ↦
        rw (e, gov_tick)
          (record {
            window = v.window;
            coming = v.coming;
            divisor = v.divisor;
            guided = v.guided;
            clock_in = v.clock_in;
            awake = v.awake;
            behind = v.behind;
            fresh = v.fresh;
          })
  ]

  -- Only the parts change that the invariant does not look at.
  pub same-Sound :
      (s t : System)
      → t.g ≡ s.g
      → t.governor ≡ s.governor
      → t.lrqs ≡ s.lrqs
      → t.dsq ≡ s.dsq
      → t.lse_clock_suspended ≡ s.lse_clock_suspended
      → t.lse_clock_last ≡ s.lse_clock_last
      → Sound least clock off s
      → Sound least clock off t
  unfolding lse_sched_clock
  same-Sound s t g governor lrqs dsq flag last v = record {
    window = rw g v.window;
    coming = rw g v.coming;
    divisor = rw g v.divisor;
    guided = rw governor v.guided;
    clock_in = rw (flag, last) v.clock_in;
    awake = rw flag v.awake;
    behind = λ cpu. rw (flag, last, lrqs) (v.behind cpu);
    fresh = λ a. rw dsq (v.fresh a);
  }

  pub tick_entry-Fine :
      (jiffies now_ns now : ℕ) (rq : Rq) (curr : Task) (s : System)
      → rq.locked ≡ true
      → Sound least clock off s
      → Fine least clock off (lse_tick_entry k jiffies clock now_ns now rq curr s)
  unfolding lse_tick_entry
  tick_entry-Fine jiffies now_ns now rq curr s l v =
      let touched = record s { monitor = lse_monitor_touch jiffies s.monitor } in
      let v0 = same-Sound s touched refl refl refl refl refl refl v in
      let (t, e, u) =
        update_ext-Sound k least clock off range curr rq task_update (s.dsq.ext curr.addr) touched l
          (v.fresh curr.addr) v0 in
      if-keeps (Fine least clock off) (not s.g.slim_walt_ctrl) (λ _. (s, refl, v))
        (λ _. (gov_tick k now_ns now rq.cpu t, rw e refl, gov_tick-Sound now_ns now rq.cpu t u))
