-- ===== src/Hooks/Order.antt =====
-- The runs in which the tasks keep their attributes, and where the tasks wait in them.

use lunarkernel_sched_extent.Base.{ℕ, ◌≡◌, refl, Bool, false, List, [], ◌∷◌}
use lunarkernel_sched_extent.Base.Int.{pos}
use lunarkernel_sched_extent.Base.Outcome.{done, >>=-eq-done}
use lunarkernel_sched_extent.Kernel.{Kernel}
use lunarkernel_sched_extent.Track.Globals.{Globals}
use lunarkernel_sched_extent.Dsq.Filed.{switched}
use lunarkernel_sched_extent.Hooks.System.{System, lse_suspend, lse_resume}
use lunarkernel_sched_extent.Hooks.Cfs.{lse_scheduler_tick}
use lunarkernel_sched_extent.Hooks.Events.{
  Event, at_tick, at_schedule, at_tick_entry, at_shadow_tick, at_irq_work, at_fork, at_free,
  at_suspend, at_resume, at_rate, at_governor, governed_by, respond, run,
}
use lunarkernel_sched_extent.Hooks.Places.{index_for}
use lunarkernel_sched_extent.Hooks.Waiting.{
  Settled, Leaves, Leaves-done, same-Settled, schedule-Settled,
}
use lunarkernel_sched_extent.Hooks.Ticks.{tick_entry-Settled, shadow_tick-Settled}
use lunarkernel_sched_extent.Hooks.Lasting.{
  alloc-Settled, free-Settled, irq_work-Settled, rate-Settled, tick-Settled,
}

-- The tasks that may wait after an event: a task that leaves its CPU while it is runnable, until it
-- arrives on one.
abbrev pub may_after : Event → (ℕ → Bool) → ℕ → Bool
may_after (at_schedule jiffies rq prev next) may = switched prev next may
may_after (at_tick jiffies) may = may
may_after (at_tick_entry jiffies now_ns now rq curr) may = may
may_after (at_shadow_tick jiffies owner rq curr) may = may
may_after (at_irq_work rq curr) may = may
may_after (at_fork ok p) may = may
may_after (at_free p) may = may
may_after at_suspend may = may
may_after at_resume may = may
may_after (at_rate fps) may = may
may_after (at_governor gov) may = may

abbrev pub may_at_end : List (ℕ × Event) → (ℕ → Bool) → ℕ → Bool
may_at_end [] may = may
may_at_end ((clock, e) ∷ events) may = may_at_end events (may_after e may)

-- The attributes of a task at a switch are those that `place` was given for, and no task is freed
-- that may wait.
abbrev pub Keeping : Globals → (ℕ → ℕ) → Event → (ℕ → Bool) → Type 0
Keeping g place (at_schedule jiffies rq prev next) may =
    (index_for g prev ≡ place prev.addr) × (index_for g next ≡ place next.addr)
Keeping g place (at_free p) may = may p.addr ≡ false
Keeping g place (at_tick jiffies) may = Unit
Keeping g place (at_tick_entry jiffies now_ns now rq curr) may = Unit
Keeping g place (at_shadow_tick jiffies owner rq curr) may = Unit
Keeping g place (at_irq_work rq curr) may = Unit
Keeping g place (at_fork ok p) may = Unit
Keeping g place at_suspend may = Unit
Keeping g place at_resume may = Unit
Keeping g place (at_rate fps) may = Unit
Keeping g place (at_governor gov) may = Unit

-- Every event keeps to that.
abbrev pub Orderly : Globals → (ℕ → ℕ) → (ℕ → Bool) → List (ℕ × Event) → Type 0
Orderly g place may [] = Unit
Orderly g place may ((clock, e) ∷ events) =
    Keeping g place e may × Orderly g place (may_after e may) events

module _ (k : Kernel) (g0 : Globals) (place : ℕ → ℕ) where
  respond-Settled :
      (clock : ℕ) (e : Event) (s : System) (may : ℕ → Bool)
      → Keeping g0 place e may
      → Settled k g0 place may s
      → Leaves (Settled k g0 place (may_after e may)) (respond k clock e s)
  unfolding respond
  respond-Settled clock (at_tick jiffies) s may a v =
      Leaves-done (Settled k g0 place may) (lse_scheduler_tick k jiffies clock s)
        (tick-Settled k g0 place jiffies clock s may v)
  respond-Settled clock (at_schedule jiffies rq prev next) s may a v =
      schedule-Settled k g0 place jiffies clock rq prev next s may a.0 a.1 v
  respond-Settled clock (at_tick_entry jiffies now_ns now rq curr) s may a v =
      tick_entry-Settled k g0 place jiffies clock now_ns now rq curr s may v
  respond-Settled clock (at_shadow_tick jiffies owner rq curr) s may a v =
      shadow_tick-Settled k g0 place jiffies clock owner rq curr s may v
  respond-Settled clock (at_irq_work rq curr) s may a v =
      irq_work-Settled k g0 place clock rq curr s may v
  respond-Settled clock (at_fork ok p) s may a v =
      Leaves-done (Settled k g0 place may) _ (alloc-Settled k g0 place ok p s may v)
  respond-Settled clock (at_free p) s may a v =
      Leaves-done (Settled k g0 place may) _ (free-Settled k g0 place p s may a v)
  respond-Settled clock at_suspend s may a v =
      Leaves-done (Settled k g0 place may) (lse_suspend clock s)
        (unfold lse_suspend in same-Settled k g0 place s _ may refl refl refl v)
  respond-Settled clock at_resume s may a v =
      Leaves-done (Settled k g0 place may) (lse_resume s)
        (unfold lse_resume in same-Settled k g0 place s _ may refl refl refl v)
  respond-Settled clock (at_rate fps) s may a v = rate-Settled k g0 place (pos fps) s may v
  respond-Settled clock (at_governor gov) s may a v =
      Leaves-done (Settled k g0 place may) (governed_by gov s)
        (same-Settled k g0 place s (governed_by gov s) may refl refl refl v)

  -- In a run that ends, with everything switched on, in which the tasks keep the attributes that
  -- their classes come from, and no task is freed that left its CPU while it was runnable and did
  -- not arrive since: every task that waits afterwards waits once, in the queue of its class, and
  -- left a CPU while it was runnable and did not arrive since; the marks and the counters agree with
  -- the queues. This holds if it does before the run.
  pub run-Settled :
      (events : List (ℕ × Event)) (may : ℕ → Bool) (s s' : System)
      → Settled k g0 place may s
      → Orderly g0 place may events
      → run k events s ≡ done s'
      → Settled k g0 place (may_at_end events may) s'
  unfolding run
  run-Settled [] may s s' v h r = Leaves-done (Settled k g0 place may) s v s' r
  run-Settled ((clock, e) ∷ events) may s s' v (a, h) r =
      let (t, r1, r2) = >>=-eq-done (respond k clock e s) (run k events) r in
      run-Settled events (may_after e may) t s' (respond-Settled clock e s may a v t r1) h r2
