-- ===== src/Dsq/Misfiled.antt =====
-- `lse_dsq_dequeue_task` of lse_dsq.c at a task whose class has changed since it was queued.
use lunarkernel_sched_extent.Base.{ℕ, ◌+◌, ◌≡◌, true, false, Option, some, arith, length}
use lunarkernel_sched_extent.Kernel.{Kernel, Task}
use lunarkernel_sched_extent.State.{Lts}
use lunarkernel_sched_extent.Dsq.Queue.{QueueId, eq_id, Dsq, DsqConfig, put_queue}
use lunarkernel_sched_extent.Dsq.Classify.{lse_dsq_classify_lts, queue_at, pcp_out_of_range}
use lunarkernel_sched_extent.Dsq.Dequeue.{
  dsq_dequeue, dequeue_classified, dequeue_found, lse_dsq_dequeue_task,
}
use lunarkernel_sched_extent.Dsq.Invariant.{eq_id_refl, length-unlink, Placed, IsWellFormed}

-- The counter of the queue that the task leaves is one more than the length of its list.
dsq_dequeue-nr :
    (jiffies : ℕ) (q r : QueueId) (p : Task) (lts : Lts) (home : ℕ → Option QueueId) (s : Dsq)
    → Placed home s
    → home p.addr ≡ some r
    → eq_id q r ≡ false
    → let dsq = (dsq_dequeue jiffies q p lts s).queues r in dsq.nr ≡ length dsq.fifo + 1
unfolding dsq_dequeue put_queue
dsq_dequeue-nr jiffies q r p lts home s v at ne =
    ground
      (arith, v.counted r, v.located r p.addr, eq_id_refl r, length-unlink p.addr (s.queues r).fifo)

dsq_dequeue-not-IsWellFormed :
    (jiffies : ℕ) (q r : QueueId) (p : Task) (lts : Lts) (home : ℕ → Option QueueId) (s : Dsq)
    → Placed home s
    → home p.addr ≡ some r
    → eq_id q r ≡ false
    → ¬ IsWellFormed (dsq_dequeue jiffies q p lts s)
dsq_dequeue-not-IsWellFormed jiffies q r p lts home s v at ne (home', v') =
    omega (arith, dsq_dequeue-nr jiffies q r p lts home s v at ne, v'.counted r)

module _ (k : Kernel) (c : DsqConfig) (jiffies : ℕ) (p : Task) (s : Dsq) (lts : Lts)
    (home : ℕ → Option QueueId) (r : QueueId) where
  -- A task that waits in one queue and is classified into another is unlinked from the first, and
  -- the counter of the second is lowered: with the queues enabled and the new queue in range, no
  -- assignment of tasks to queues satisfies the invariant afterwards.
  pub misfiled_dequeue-not-IsWellFormed :
      Placed home s
      → c.lse_dsq_enable ≡ true
      → s.ext p.addr ≡ some lts
      → lts.on_dsq ≡ true
      → pcp_out_of_range k (lse_dsq_classify_lts (some lts) p) ≡ false
      → home p.addr ≡ some r
      → eq_id (queue_at (lse_dsq_classify_lts (some lts) p)) r ≡ false
      → ¬ IsWellFormed (lse_dsq_dequeue_task k c jiffies (some p) s)
  unfolding lse_dsq_dequeue_task dequeue_found dequeue_classified
  misfiled_dequeue-not-IsWellFormed v on found waits range at ne =
      rw (on, found, waits, range) (dsq_dequeue-not-IsWellFormed jiffies _ r p lts home s v at ne)
