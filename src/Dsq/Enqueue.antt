-- ===== src/Dsq/Enqueue.antt =====
-- `__dsq_enqueue` and `lse_dsq_enqueue_task` of lse_dsq.c.
use lunarkernel_sched_extent.Base.{
  ℕ, ◌+◌, true, not, ◌||◌, [], ◌∷◌, ◌++◌, Option, none, some, ◌==◌, is_empty, if◌then◌else◌,
}
use lunarkernel_sched_extent.Kernel.{Kernel, Task}
use lunarkernel_sched_extent.State.{Lts}
use lunarkernel_sched_extent.Dsq.Queue.{QueueId, DispatchQ, Dsq, DsqConfig, put_queue, put_at}
use lunarkernel_sched_extent.Dsq.Classify.{
  lse_dsq_classify_lts, dsq_idx_valid, queue_at, pcp_out_of_range,
}

-- The queue behind `__dsq_enqueue`.
unfoldable pub add_tail : ℕ → ℕ → DispatchQ → DispatchQ
add_tail jiffies a dsq = record dsq {
  last_consume_at = (if is_empty dsq.fifo then jiffies else dsq.last_consume_at);
  fifo = dsq.fifo ++ (a ∷ []);
  nr = dsq.nr + 1;
}

unfoldable pub dsq_enqueue : ℕ → QueueId → Task → Lts → Dsq → Dsq
unfolding add_tail put_queue put_at
dsq_enqueue jiffies q p lts s = record s {
  queues = put_queue q (add_tail jiffies p.addr (s.queues q)) s.queues;
  ext = put_at p.addr (some (record lts { on_dsq = true })) s.ext;
}

-- behind the tests on `lts`
unfoldable pub enqueue_classified : Kernel → ℕ → Task → Lts → Dsq → Dsq
unfolding dsq_enqueue dsq_idx_valid lse_dsq_classify_lts queue_at pcp_out_of_range
enqueue_classified k jiffies p lts s =
    let idx = lse_dsq_classify_lts (some lts) p in
    if not (dsq_idx_valid k idx) || pcp_out_of_range k idx
    then s
    else dsq_enqueue jiffies (queue_at idx) p lts s

unfoldable pub enqueue_found : Kernel → ℕ → ℕ → Task → Option Lts → Dsq → Dsq
unfolding enqueue_classified
enqueue_found k jiffies curr p none s = s
enqueue_found k jiffies curr p (some lts) s =
    if lts.on_dsq || (not p.on_rq || p.addr == curr)
    then s
    else enqueue_classified k jiffies p lts s

-- `curr` is the address of `cpu_rq(cpu)->curr`.
unfoldable pub lse_dsq_enqueue_task : Kernel → DsqConfig → ℕ → ℕ → Option Task → Dsq → Dsq
unfolding enqueue_found
lse_dsq_enqueue_task k c jiffies curr none s = s
lse_dsq_enqueue_task k c jiffies curr (some p) s =
    if not c.lse_dsq_enable then s else enqueue_found k jiffies curr p (s.ext p.addr) s
