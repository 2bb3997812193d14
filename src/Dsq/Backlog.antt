-- ===== src/Dsq/Backlog.antt =====
-- The backlog of lse_dsq.c: `lse_dsq_total_backlog`.
use lunarkernel_sched_extent.Base.{
  ℕ, zero, suc, ◌+◌, ◌≡◌, refl, List, [], ◌∷◌, ◌++◌, leb, arith, length, length-append,
  if◌then◌else◌,
}
use lunarkernel_sched_extent.Kernel.{Kernel}
use lunarkernel_sched_extent.Dsq.Queue.{global, pcp, Dsq}
use lunarkernel_sched_extent.Dsq.Timeout.{sum_global, sum_pcp, lse_dsq_total_backlog}
use lunarkernel_sched_extent.Dsq.Invariant.{IsWellFormed}

-- the tasks that wait in the queues that the backlog counts
waiting_global : Dsq → ℕ → ℕ → List ℕ
waiting_global s zero i = []
waiting_global s (suc n) i =
    (if leb 10 i then [] else (s.queues (global i)).fifo) ++ waiting_global s n (i + 1)

waiting_pcp : Kernel → Dsq → List ℕ → List ℕ
waiting_pcp k s [] = []
waiting_pcp k s (cpu ∷ cpus) =
    (if leb k.nr_cpu_ids cpu then [] else (s.queues (pcp cpu)).fifo) ++ waiting_pcp k s cpus

pub waiting : Kernel → Dsq → List ℕ
unfolding waiting_global waiting_pcp
waiting k s = waiting_global s 10 0 ++ waiting_pcp k s k.online_cpus

sum_global-waiting :
    (s : Dsq) → IsWellFormed s → (n i : ℕ) → sum_global s n i ≡ length (waiting_global s n i)
unfolding sum_global waiting_global
sum_global-waiting s w zero i = refl
sum_global-waiting s (home, v) (suc n) i = ground (
  arith,
  v.counted (global i),
  sum_global-waiting s (home, v) n (i + 1),
  length-append (s.queues (global i)).fifo (waiting_global s n (i + 1)),
)

sum_pcp-waiting :
    (k : Kernel) (s : Dsq)
    → IsWellFormed s
    → (cpus : List ℕ) → sum_pcp k s cpus ≡ length (waiting_pcp k s cpus)
unfolding sum_pcp waiting_pcp
sum_pcp-waiting k s w [] = refl
sum_pcp-waiting k s (home, v) (cpu ∷ cpus) = ground (
  arith,
  v.counted (pcp cpu),
  sum_pcp-waiting k s (home, v) cpus,
  length-append (s.queues (pcp cpu)).fifo (waiting_pcp k s cpus),
)

-- Under the invariant the backlog is the number of tasks that wait in the ten global queues and in
-- the queues of the CPUs that are online.
pub total_backlog-waiting :
    (k : Kernel) (s : Dsq) → IsWellFormed s → lse_dsq_total_backlog k s ≡ length (waiting k s)
unfolding lse_dsq_total_backlog waiting
total_backlog-waiting k s w = omega (
  arith,
  sum_global-waiting s w 10 0,
  sum_pcp-waiting k s w k.online_cpus,
  length-append {0} (waiting_global s 10 0) (waiting_pcp k s k.online_cpus),
)
