-- ===== src/Dsq/Timeout.antt =====
-- Timeouts, depths and the urgency signal: `lse_dsq_scan_timeout` to `lse_dsq_urgency_signal` of
-- lse_dsq.c.
use lunarkernel_sched_extent.Base.{
  ℕ, zero, suc, ◌+◌, ◌*◌, min, Bool, true, false, not, ◌&&◌, List, [], ◌∷◌, none, some, leb,
  get_elem?, is_empty, if◌then◌else◌,
}
use lunarkernel_sched_extent.Base.Int.{ℤ, pos, negsuc}
use lunarkernel_sched_extent.Base.Word.{add64}
use lunarkernel_sched_extent.Kernel.{Kernel}
use lunarkernel_sched_extent.Dsq.Queue.{
  global, pcp, DispatchQ, Dsq, DsqConfig, max_global_dsqs, non_period_start, lse_dsq_deadlines,
  lse_pcp_dsq_deadline_ms, put_queue,
}

-- A waiting queue whose deadline has passed is marked.
unfoldable pub mark_late : Kernel → ℕ → ℕ → DispatchQ → DispatchQ
mark_late k jiffies deadline_ms dsq =
    if not (is_empty dsq.fifo)
      && not dsq.is_timeout
      && k.time_after jiffies (add64 dsq.last_consume_at (k.msecs_to_jiffies deadline_ms))
    then record dsq { is_timeout = true }
    else dsq

-- An empty queue that is marked is cleared.
unfoldable pub clear_empty : ℕ → DispatchQ → DispatchQ
clear_empty jiffies dsq =
    if is_empty dsq.fifo && dsq.is_timeout
    then record dsq { is_timeout = false; last_consume_at = jiffies }
    else dsq

-- lse_dsq_deadlines[i]
unfoldable pub deadline_of : ℕ → ℕ
deadline_of i = elim (get_elem? lse_dsq_deadlines i) [ none ↦ 0 | some d ↦ d ]

-- one round of the loop over the global queues
unfoldable pub scan_global : Kernel → ℕ → ℕ → Dsq → Dsq
unfolding mark_late clear_empty deadline_of put_queue
scan_global k jiffies i s =
    let dsq = s.queues (global i) in
    let scanned = clear_empty jiffies (mark_late k jiffies (deadline_of i) dsq) in
    record s { queues = put_queue (global i) scanned s.queues }

-- `n` rounds of the loop, from index `i`
unfoldable pub scan_globals : Kernel → ℕ → ℕ → ℕ → Dsq → Dsq
unfolding scan_global
scan_globals k jiffies zero i s = s
scan_globals k jiffies (suc n) i s = scan_globals k jiffies n (i + 1) (scan_global k jiffies i s)

unfoldable pub lse_dsq_scan_timeout : Kernel → DsqConfig → ℕ → ℕ → Dsq → Dsq
unfolding mark_late scan_globals put_queue
lse_dsq_scan_timeout k c jiffies cpu s =
    let dsq = s.queues (pcp cpu) in
    let marked = mark_late k jiffies lse_pcp_dsq_deadline_ms dsq in
    let s' = record s { queues = put_queue (pcp cpu) marked s.queues } in
    if not c.lse_dsq_enable then s else scan_globals k jiffies 5 non_period_start s'

unfoldable pub lse_dsq_has_timeout : Dsq → ℤ → Bool
lse_dsq_has_timeout s (negsuc n) = false
lse_dsq_has_timeout s (pos i) =
    if leb max_global_dsqs i then false else (s.queues (global i)).is_timeout

unfoldable pub lse_dsq_depth_global : Dsq → ℤ → ℕ
lse_dsq_depth_global s (negsuc n) = 0
lse_dsq_depth_global s (pos i) = if leb max_global_dsqs i then 0 else (s.queues (global i)).nr

unfoldable pub lse_dsq_depth_pcp : Kernel → Dsq → ℤ → ℕ
lse_dsq_depth_pcp k s (negsuc n) = 0
lse_dsq_depth_pcp k s (pos cpu) = if leb k.nr_cpu_ids cpu then 0 else (s.queues (pcp cpu)).nr

-- the loop over the global queues, `n` rounds from index `i`
unfoldable pub sum_global : Dsq → ℕ → ℕ → ℕ
unfolding lse_dsq_depth_global
sum_global s zero i = 0
sum_global s (suc n) i = lse_dsq_depth_global s (pos i) + sum_global s n (i + 1)

-- the loop over the CPUs that are online
unfoldable pub sum_pcp : Kernel → Dsq → List ℕ → ℕ
unfolding lse_dsq_depth_pcp
sum_pcp k s [] = 0
sum_pcp k s (cpu ∷ cpus) = lse_dsq_depth_pcp k s (pos cpu) + sum_pcp k s cpus

unfoldable pub lse_dsq_total_backlog : Kernel → Dsq → ℕ
unfolding sum_global sum_pcp
lse_dsq_total_backlog k s = sum_global s max_global_dsqs 0 + sum_pcp k s k.online_cpus

-- the number of marked queues, `n` rounds from index `i`
unfoldable pub count_timeouts : Dsq → ℕ → ℕ → ℕ
unfolding lse_dsq_has_timeout
count_timeouts s zero i = 0
count_timeouts s (suc n) i =
    (if lse_dsq_has_timeout s (pos i) then 1 else 0) + count_timeouts s n (i + 1)

-- The backlog that the source adds up beside the timeouts does not enter the result.
unfoldable pub lse_dsq_urgency_signal : DsqConfig → Dsq → ℕ
unfolding count_timeouts
lse_dsq_urgency_signal c s =
    if not c.lse_dsq_enable then 0 else min (count_timeouts s max_global_dsqs 0 * 256) 1024
