-- ===== src/Dsq/Dequeue.antt =====
-- `__dsq_dequeue`, `lse_dsq_dequeue_task` and `lse_dsq_add_runtime` of lse_dsq.c.
use lunarkernel_sched_extent.Base.{
  ℕ, ◌+◌, ◌-◌, false, not, ◌&&◌, ◌||◌, Option, none, some, leb, is_empty, if◌then◌else◌,
}
use lunarkernel_sched_extent.Base.Word.{u32}
use lunarkernel_sched_extent.Kernel.{Kernel, Task}
use lunarkernel_sched_extent.State.{Lts}
use lunarkernel_sched_extent.Dsq.Queue.{
  QueueId, DispatchQ, Dsq, DsqConfig, max_global_dsqs, non_period_start, put_queue, put_at,
  list_del,
}
use lunarkernel_sched_extent.Dsq.Classify.{lse_dsq_classify_lts, queue_at, pcp_out_of_range}

-- What `__dsq_dequeue` does to its queue once the node is unlinked; `max(0, nr - 1)` is the
-- truncated difference.
unfoldable pub settle : ℕ → DispatchQ → DispatchQ
settle jiffies dsq =
    let clears = is_empty dsq.fifo && dsq.is_timeout in
    record dsq {
      nr = dsq.nr - 1;
      is_timeout = (if clears then false else dsq.is_timeout);
      last_consume_at = (if clears then jiffies else dsq.last_consume_at);
    }

unfoldable pub dsq_dequeue : ℕ → QueueId → Task → Lts → Dsq → Dsq
unfolding settle put_queue put_at list_del
dsq_dequeue jiffies q p lts s =
    let queues = list_del p.addr s.queues in
    record s {
      queues = put_queue q (settle jiffies (queues q)) queues;
      ext = put_at p.addr (some (record lts { on_dsq = false })) s.ext;
    }

-- behind the tests on `lts`: the task is classified anew
unfoldable pub dequeue_classified : Kernel → ℕ → Task → Lts → Dsq → Dsq
unfolding dsq_dequeue lse_dsq_classify_lts queue_at pcp_out_of_range
dequeue_classified k jiffies p lts s =
    let idx = lse_dsq_classify_lts (some lts) p in
    if pcp_out_of_range k idx then s else dsq_dequeue jiffies (queue_at idx) p lts s

unfoldable pub dequeue_found : Kernel → ℕ → Task → Option Lts → Dsq → Dsq
unfolding dequeue_classified
dequeue_found k jiffies p none s = s
dequeue_found k jiffies p (some lts) s =
    if not lts.on_dsq then s else dequeue_classified k jiffies p lts s

unfoldable pub lse_dsq_dequeue_task : Kernel → DsqConfig → ℕ → Option Task → Dsq → Dsq
unfolding dequeue_found
lse_dsq_dequeue_task k c jiffies none s = s
lse_dsq_dequeue_task k c jiffies (some p) s =
    if not c.lse_dsq_enable then s else dequeue_found k jiffies p (s.ext p.addr) s

-- The running times are `int`s that an `unsigned long` is added to: their low 32 bits.
unfoldable pub lse_dsq_add_runtime : Kernel → DsqConfig → Option Task → ℕ → Dsq → Dsq
unfolding lse_dsq_classify_lts pcp_out_of_range put_at
lse_dsq_add_runtime k c none exec_ns s = s
lse_dsq_add_runtime k c (some p) exec_ns s =
    let idx = lse_dsq_classify_lts (s.ext p.addr) p in
    let cpu = idx - max_global_dsqs in
    if not c.lse_dsq_enable || pcp_out_of_range k idx
    then s
    else if leb max_global_dsqs idx
    then record s { pcp_rtime = put_at cpu (u32 (s.pcp_rtime cpu + exec_ns)) s.pcp_rtime }
    else if leb non_period_start idx
    then record s { rtime = put_at idx (u32 (s.rtime idx + exec_ns)) s.rtime }
    else s
