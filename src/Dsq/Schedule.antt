-- ===== src/Dsq/Schedule.antt =====
-- The hook of a context switch: `lse_dsq_on_schedule` of lse_dsq.c.
use lunarkernel_sched_extent.Base.{
  ℕ, Bool, true, false, not, ◌&&◌, ◌||◌, Option, none, some, ◌==◌, if◌then◌else◌,
}
use lunarkernel_sched_extent.Base.Word.{add64}
use lunarkernel_sched_extent.Kernel.{Kernel, Task, Rq}
use lunarkernel_sched_extent.Dsq.Queue.{Dsq, DsqConfig, put_at}
use lunarkernel_sched_extent.Dsq.Enqueue.{lse_dsq_enqueue_task}
use lunarkernel_sched_extent.Dsq.Dequeue.{lse_dsq_dequeue_task}
use lunarkernel_sched_extent.Dsq.Timeout.{lse_dsq_scan_timeout}

-- prev != next, on pointers
abbrev pub same_task : Option Task → Option Task → Bool
same_task none none = true
same_task none (some p) = false
same_task (some p) none = false
same_task (some p) (some q) = p.addr == q.addr

-- prev leaves the CPU
unfoldable pub leave : Kernel → DsqConfig → ℕ → Rq → Option Task → Dsq → Dsq
unfolding lse_dsq_enqueue_task
leave k c jiffies rq none s = s
leave k c jiffies rq (some prev) s =
    if not prev.is_idle_task && prev.on_rq && prev.task_cpu == rq.cpu
    then lse_dsq_enqueue_task k c jiffies rq.curr (some prev) s
    else s

-- next arrives
unfoldable pub arrive : Kernel → DsqConfig → ℕ → Option Task → Dsq → Dsq
unfolding lse_dsq_dequeue_task
arrive k c jiffies none s = s
arrive k c jiffies (some next) s =
    if next.is_idle_task then s else lse_dsq_dequeue_task k c jiffies (some next) s

-- the scan, at most once in four jiffies for each CPU; time_before(a, b) is time_after(b, a)
unfoldable pub throttled_scan : Kernel → DsqConfig → ℕ → ℕ → Dsq → Dsq
unfolding lse_dsq_scan_timeout put_at
throttled_scan k c jiffies cpu s =
    if k.time_after jiffies (add64 (s.last_scan_jf cpu) 4)
    then lse_dsq_scan_timeout k c jiffies cpu
        (record s { last_scan_jf = put_at cpu jiffies s.last_scan_jf })
    else s

-- The run queue is not null.
unfoldable pub lse_dsq_on_schedule :
    Kernel → DsqConfig → ℕ → Rq → Option Task → Option Task → Dsq → Dsq
unfolding leave arrive throttled_scan
lse_dsq_on_schedule k c jiffies rq prev next s =
    if not c.slim_stats || not c.lse_dsq_enable
    then s
    else let switched = arrive k c jiffies next (leave k c jiffies rq prev s) in
      throttled_scan k c jiffies rq.cpu (if same_task prev next then s else switched)
