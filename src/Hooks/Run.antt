-- ===== src/Hooks/Run.antt =====
-- A run of the module ends without a bug.
use mathlib.Core.Path.{subst}
use lunarkernel_sched_extent.Base.{
  ℕ, ◌/◌, ◌≤◌, ◌<◌, ◌≡◌, refl, Bool, true, false, List, [], ◌∷◌, some, if◌then◌else◌, arith,
}
use lunarkernel_sched_extent.Base.Outcome.{done}
use lunarkernel_sched_extent.Kernel.{Kernel}
use lunarkernel_sched_extent.Dsq.Queue.{Dsq}
use lunarkernel_sched_extent.Hooks.Guided.{Guided}
use lunarkernel_sched_extent.Hooks.System.{
  Governor, System, lse_sched_clock, lse_suspend, lse_resume,
}
use lunarkernel_sched_extent.Hooks.Extension.{alloc_lse_task_struct, free_lse_task_struct}
use lunarkernel_sched_extent.Hooks.Events.{
  Event, at_tick, at_schedule, at_tick_entry, at_shadow_tick, at_irq_work, at_fork, at_free,
  at_suspend, at_resume, at_rate, at_governor, governed_by, respond, run,
}
use lunarkernel_sched_extent.Hooks.Exts.{ExtsOk, alloc-ExtsOk, free-ExtsOk}
use lunarkernel_sched_extent.Hooks.Steps.{Fine, tick-Sound, schedule-Fine, tick_entry-Fine}
use lunarkernel_sched_extent.Hooks.Callbacks.{shadow_tick-Fine, irq_work-Fine, rate-Fine}
use lunarkernel_sched_extent.Hooks.Sound.{Behind, Sound, InRange, later-Sound}

-- the kernel suspends nothing and ticks no CPU while the module is suspended
abbrev pub suspended_after : Bool → Event → Bool
suspended_after off at_suspend = true
suspended_after off at_resume = false
suspended_after off (at_tick jiffies) = off
suspended_after off (at_schedule jiffies rq prev next) = off
suspended_after off (at_tick_entry jiffies now_ns now rq curr) = off
suspended_after off (at_shadow_tick jiffies owner rq curr) = off
suspended_after off (at_irq_work rq curr) = off
suspended_after off (at_fork ok p) = off
suspended_after off (at_free p) = off
suspended_after off (at_rate fps) = off
suspended_after off (at_governor gov) = off

-- What the kernel keeps to at an event: the run queue of a hook is locked, no tick comes and no
-- suspension starts while the module is suspended. A frame rate gives a window of at least the least
-- one. A change of the governor leaves it serving the clusters where its hook is set.
abbrev pub Allowed : ℕ → Bool → Event → Type 0
Allowed least off (at_tick jiffies) = off ≡ false
Allowed least off (at_schedule jiffies rq prev next) = rq.locked ≡ true
Allowed least off (at_tick_entry jiffies now_ns now rq curr) = rq.locked ≡ true
Allowed least off (at_rate fps) = (0 < fps) × (least ≤ 1000000000 / fps)
Allowed least off (at_governor gov) = Guided gov
Allowed least off at_suspend = off ≡ false
Allowed least off (at_shadow_tick jiffies owner rq curr) = Unit
Allowed least off (at_irq_work rq curr) = Unit
Allowed least off (at_fork ok p) = Unit
Allowed least off (at_free p) = Unit
Allowed least off at_resume = Unit

module _ (k : Kernel) (least : ℕ) where
  suspend-Sound :
      (clock : ℕ) (s : System)
      → 0 < clock
      → Sound least clock false s
      → Sound least clock true (lse_suspend clock s)
  unfolding lse_suspend lse_sched_clock
  suspend-Sound clock s p v = record {
    window = v.window;
    coming = v.coming;
    divisor = v.divisor;
    guided = v.guided;
    clock_in = (p, omega arith);
    awake = refl;
    behind = λ cpu.
        subst (λ (b : Bool). Behind (if b then s.lse_clock_last else clock) (s.lrqs cpu)) v.awake
          (v.behind cpu);
    fresh = v.fresh;
  }

  resume-Sound :
      (clock : ℕ) (off : Bool) (s : System)
      → 0 < clock
      → Sound least clock off s
      → Sound least clock false (lse_resume s)
  unfolding lse_resume lse_sched_clock
  resume-Sound clock off s p v = record {
    window = v.window;
    coming = v.coming;
    divisor = v.divisor;
    guided = v.guided;
    clock_in = (p, omega arith);
    awake = refl;
    behind = λ cpu. ground (arith, v.behind cpu, v.clock_in);
    fresh = v.fresh;
  }

  pub dsq-Sound :
      (clock : ℕ) (off : Bool) (s : System) (dsq : Dsq)
      → ExtsOk dsq
      → Sound least clock off s
      → Sound least clock off (record s { dsq = dsq })
  unfolding lse_sched_clock
  dsq-Sound clock off s dsq h v = record {
    window = v.window;
    coming = v.coming;
    divisor = v.divisor;
    guided = v.guided;
    clock_in = v.clock_in;
    awake = v.awake;
    behind = v.behind;
    fresh = h;
  }

  governed-Sound :
      (clock : ℕ) (off : Bool) (gov : Governor) (s : System)
      → Guided gov
      → Sound least clock off s
      → Sound least clock off (governed_by gov s)
  unfolding lse_sched_clock
  governed-Sound clock off gov s h v = record {
    window = v.window;
    coming = v.coming;
    divisor = v.divisor;
    guided = h;
    clock_in = v.clock_in;
    awake = v.awake;
    behind = v.behind;
    fresh = v.fresh;
  }

  respond-Fine :
      (clock : ℕ) (off : Bool) (e : Event) (s : System)
      → InRange least clock
      → 20000 ≤ clock
      → Allowed least off e
      → Sound least clock off s
      → Fine least clock (suspended_after off e) (respond k clock e s)
  unfolding respond
  respond-Fine clock off (at_tick jiffies) s range past a v =
      (_, refl, tick-Sound k least clock off range jiffies s past a v)
  respond-Fine clock off (at_schedule jiffies rq prev next) s range past a v =
      schedule-Fine k least clock off range jiffies rq prev next s a v
  respond-Fine clock off (at_tick_entry jiffies now_ns now rq curr) s range past a v =
      tick_entry-Fine k least clock off range jiffies now_ns now rq curr s a v
  respond-Fine clock off (at_shadow_tick jiffies owner rq curr) s range past a v =
      shadow_tick-Fine k least clock off range jiffies owner rq curr s v
  respond-Fine clock off (at_irq_work rq curr) s range past a v =
      irq_work-Fine k least clock off range rq curr s v
  respond-Fine clock off (at_fork ok p) s range past a v = (
    _,
    refl,
    dsq-Sound clock off s (alloc_lse_task_struct ok (some p) s.dsq)
        (alloc-ExtsOk ok p s.dsq v.fresh) v,
  )
  respond-Fine clock off (at_free p) s range past a v = (
    _,
    refl,
    dsq-Sound clock off s (free_lse_task_struct (some p) s.dsq) (free-ExtsOk p s.dsq v.fresh) v,
  )
  respond-Fine clock off at_suspend s range past a v = (
    _,
    refl,
    suspend-Sound clock s (omega arith) (subst (λ (b : Bool). Sound least clock b s) a v),
  )
  respond-Fine clock off at_resume s range past a v =
      (_, refl, resume-Sound clock off s (omega arith) v)
  respond-Fine clock off (at_rate fps) s range past a v =
      rate-Fine k least clock off range fps s a.0 a.1 v
  respond-Fine clock off (at_governor gov) s range past a v =
      (_, refl, governed-Sound clock off gov s a v)

  -- From `last` on the clock does not run backwards, and every event is one that the kernel, or the
  -- user who writes the rate, keeps to.
  abbrev pub Lawful : Bool → ℕ → List (ℕ × Event) → Type 0
  Lawful off last [] = Unit
  Lawful off last ((clock, e) ∷ events) =
      (last ≤ clock)
      × (20000 ≤ clock)
      × InRange least clock
      × Allowed least off e
      × Lawful (suspended_after off e) clock events

  -- Whatever the order of ticks, context switches, timer and irq work callbacks, forks, exits,
  -- suspensions, resumptions and changes of the frame rate and of the governor, and whichever
  -- tasks they concern, the module deals with all of them without a bug, a division by zero or a
  -- fault, the governor's hook in the irq work included. It starts from any state in which the
  -- windows are in bounds, the divisor of the demand is not 0, no CPU is ahead of the clock, no
  -- task that was never marked has a window, and, where the kernel holds the governor's hook, each
  -- cluster has a flag, the first online CPU of a flagged cluster has a policy, and the legacy
  -- formula is off; and it ends in such a state. The clock does not run backwards from event to
  -- event, is from 20000 ns to below 2 ^ 63 ns and below 2 ^ 31 of the least windows; the hooks
  -- come with their run queue locked; while the module is suspended no tick and no suspension
  -- comes; the rates written give windows of at least the least one, which is not 0; and a change
  -- of the governor leaves its hooks, flags and policies as said. The use of memory after its
  -- release is not counted as a fault: an exit of a task that waits leaves its node in the queue,
  -- which the theorem does not exclude.
  pub run-Sound :
      (events : List (ℕ × Event)) (off : Bool) (last : ℕ) (s : System)
      → Sound least last off s
      → Lawful off last events
      → (s' : System) × (end : ℕ) × (off' : Bool) × (run k events s ≡ done s')
        × Sound least end off' s'
  unfolding run
  run-Sound [] off last s v h = (s, last, off, refl, v)
  run-Sound ((clock, e) ∷ events) off last s v (le, past, range, a, h) =
      let (t, d, u) =
        respond-Fine clock off e s range past a (later-Sound least last clock off s le v) in
      let (s', end, off', f, w) = run-Sound events (suspended_after off e) clock t u h in
      (s', end, off', rw d f, w)
