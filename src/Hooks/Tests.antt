-- ===== src/Hooks/Tests.antt =====
-- Concrete runs of the hooks, at which their theorems hold.
use lunarkernel_sched_extent.Base.{
  ℕ, List, [], ◌∷◌, Bool, true, false, ◌≡◌, ◌<◌, refl, Option, none, some, inr, arith,
}
use lunarkernel_sched_extent.Base.Outcome.{done}
use lunarkernel_sched_extent.Samples.{two_cpus, plain_task, plain_lts, cpu0}
use lunarkernel_sched_extent.Dsq.Queue.{QueueId, global, Dsq, put_at}
use lunarkernel_sched_extent.Dsq.Invariant.{Placed, IsWellFormed}
use lunarkernel_sched_extent.Dsq.Enqueue.{dsq_enqueue}
use lunarkernel_sched_extent.Dsq.Keeps.{dsq_enqueue-Placed}
use lunarkernel_sched_extent.Hooks.System.{System, lse_sched_clock}
use lunarkernel_sched_extent.Hooks.Samples.{bare, running}
use lunarkernel_sched_extent.Hooks.Events.{
  Event, at_schedule, at_suspend, at_resume, at_rate, at_governor, at_irq_work, run,
}
use lunarkernel_sched_extent.Hooks.Run.{Lawful, run-Sound}
use lunarkernel_sched_extent.Hooks.Extension.{free_lse_task_struct}
use lunarkernel_sched_extent.Hooks.Sound.{Sound, InRange}
use lunarkernel_sched_extent.Hooks.Guided.{Guided}
use lunarkernel_sched_extent.Hooks.Freed.{freed-not-IsWellFormed}

-- the same with extensions for all tasks
abbrev equipped : System
equipped = record running { dsq = record bare { ext = λ a. some (plain_lts a) } }

running-Guided : Guided running.governor
running-Guided cpu on = (refl, ((true, refl, λ t. refl), tt))

equipped-Sound : Sound 1000000 8000000 false equipped
unfolding lse_sched_clock
equipped-Sound = record {
  window = (omega arith, omega arith);
  coming = (omega arith, omega arith);
  divisor = omega arith;
  guided = running-Guided;
  clock_in = (omega arith, omega arith);
  awake = refl;
  behind = λ cpu. (omega arith, omega arith);
  fresh = λ a. inr refl;
}

-- a start of the governor, and the irq work, whose hook it takes
abbrev governed : List (ℕ × Event)
governed =
    (910500000, at_governor running.governor) ∷ (911000000, at_irq_work cpu0 (plain_task 2)) ∷ []

-- a switch after more than two windows, a suspension, a new frame rate, and these two
abbrev night : List (ℕ × Event)
night =
    (30000000, at_schedule 100 cpu0 (plain_task 1) (plain_task 2))
    ∷ (31000000, at_suspend)
    ∷ (900000000, at_resume)
    ∷ (910000000, at_rate 144)
    ∷ governed

governed-Lawful :
    Lawful two_cpus 1000000 false 910000000 (
      (910500000, at_governor running.governor) ∷ (911000000, at_irq_work cpu0 (plain_task 2)) ∷ [])
governed-Lawful = (
  omega arith,
  omega arith,
  (omega arith, omega arith, omega arith),
  running-Guided,
  ground arith,
)

night-Lawful : Lawful two_cpus 1000000 false 8000000 night
night-Lawful =
    let in_range : (clock : ℕ) → clock < 1000000000 → InRange 1000000 clock =
      λ clock h. (omega arith, omega arith, omega arith) in
    let resumed : Lawful two_cpus 1000000 false 900000000 ((910000000, at_rate 144) ∷ governed) = (
      omega arith,
      omega arith,
      in_range 910000000 (omega arith),
      (omega arith, ground arith),
      governed-Lawful,
    ) in
    (
      omega arith,
      omega arith,
      in_range 30000000 (omega arith),
      refl,
      (
        omega arith,
        omega arith,
        in_range 31000000 (omega arith),
        refl,
        (omega arith, omega arith, in_range 900000000 (omega arith), tt, resumed),
      ),
    )

run-Sound_example :
    (s' : System) × (end : ℕ) × (off' : Bool) × (run two_cpus night equipped ≡ done s')
    × Sound 1000000 end off' s'
run-Sound_example =
    run-Sound two_cpus 1000000 night false 8000000 equipped equipped-Sound night-Lawful

-- task 1 waits in queue 8
abbrev waiting : Dsq
waiting = dsq_enqueue 100 (global 8) (plain_task 1) (plain_lts 1) bare

abbrev home_of_one : ℕ → Option QueueId
home_of_one = put_at 1 (some (global 8)) (λ a. none)

bare-Placed : Placed (λ a. none) bare
bare-Placed = record { counted = λ q. refl; located = λ q a. refl; flagged = λ a. refl }

waiting-Placed : Placed home_of_one waiting
waiting-Placed =
    dsq_enqueue-Placed 100 (global 8) (plain_task 1) (plain_lts 1) (λ a. none) bare bare-Placed refl

waits_in_8 : home_of_one 1 ≡ some (global 8)
unfolding put_at
waits_in_8 = refl

freed-not-IsWellFormed_example : ¬ IsWellFormed (free_lse_task_struct (some (plain_task 1)) waiting)
freed-not-IsWellFormed_example =
    freed-not-IsWellFormed home_of_one (plain_task 1) (global 8) waiting waiting-Placed waits_in_8
