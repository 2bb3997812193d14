-- ===== src/Hooks/Exts.antt =====
-- No call of the module gives a task that was never marked a window.
use mathlib.Core.Path.{subst}
use lunarkernel_sched_extent.Base.{
  ℕ, zero, suc, ◌+◌, ◌≡◌, refl, Bool, not, Option, some, ◌==◌, if-keeps, arith,
}
use lunarkernel_sched_extent.Base.Word.{add64}
use lunarkernel_sched_extent.Kernel.{Kernel, Task, Rq}
use lunarkernel_sched_extent.State.{Lts}
use lunarkernel_sched_extent.Dsq.Queue.{
  QueueId, pcp, put_queue, lse_pcp_dsq_deadline_ms, Dsq, DsqConfig, put_at, non_period_start,
}
use lunarkernel_sched_extent.Dsq.Enqueue.{dsq_enqueue}
use lunarkernel_sched_extent.Dsq.Dequeue.{dsq_dequeue}
use lunarkernel_sched_extent.Dsq.Timeout.{mark_late, scan_globals, lse_dsq_scan_timeout}
use lunarkernel_sched_extent.Dsq.Schedule.{throttled_scan, lse_dsq_on_schedule}
use lunarkernel_sched_extent.Dsq.Walk.{on_schedule-keeps}
use lunarkernel_sched_extent.Hooks.Extension.{alloc_lse_task_struct, free_lse_task_struct}
use lunarkernel_sched_extent.Hooks.Sound.{ExtOk}

abbrev pub ExtsOk : Dsq → Type 0
ExtsOk s = (a : ℕ) → ExtOk (s.ext a)

enqueue-ExtsOk :
    (jiffies : ℕ) (q : QueueId) (p : Task) (lts : Lts) (s : Dsq)
    → s.ext p.addr ≡ some lts
    → ExtsOk s
    → ExtsOk (dsq_enqueue jiffies q p lts s)
unfolding dsq_enqueue put_at
enqueue-ExtsOk jiffies q p lts s e h a =
    if-keeps ExtOk (p.addr == a) (λ _. subst ExtOk e (h p.addr)) (λ _. h a)

dequeue-ExtsOk :
    (jiffies : ℕ) (q : QueueId) (p : Task) (lts : Lts) (s : Dsq)
    → s.ext p.addr ≡ some lts
    → ExtsOk s
    → ExtsOk (dsq_dequeue jiffies q p lts s)
unfolding dsq_dequeue put_at
dequeue-ExtsOk jiffies q p lts s e h a =
    if-keeps ExtOk (p.addr == a) (λ _. subst ExtOk e (h p.addr)) (λ _. h a)

ext-scan_globals :
    (k : Kernel) (jiffies n i : ℕ) (s : Dsq) → (scan_globals k jiffies n i s).ext ≡ s.ext
unfolding scan_globals
ext-scan_globals k jiffies zero i s = refl
ext-scan_globals k jiffies (suc n) i s = ext-scan_globals k jiffies n (i + 1) _

ext-scan_timeout :
    (k : Kernel) (c : DsqConfig) (jiffies cpu : ℕ) (s : Dsq)
    → (lse_dsq_scan_timeout k c jiffies cpu s).ext ≡ s.ext
unfolding lse_dsq_scan_timeout
ext-scan_timeout k c jiffies cpu s =
    if-keeps (λ (t : Dsq). t.ext ≡ s.ext) (not c.lse_dsq_enable) (λ _. refl)
      (λ _. ext-scan_globals k jiffies 5 non_period_start (record s {
        queues =
            put_queue (pcp cpu) (mark_late k jiffies lse_pcp_dsq_deadline_ms (s.queues (pcp cpu)))
              s.queues;
      }))

scan-ExtsOk :
    (k : Kernel) (c : DsqConfig) (jiffies cpu : ℕ) (s : Dsq)
    → ExtsOk s
    → ExtsOk (throttled_scan k c jiffies cpu s)
unfolding throttled_scan
scan-ExtsOk k c jiffies cpu s h =
    if-keeps ExtsOk (k.time_after jiffies (add64 (s.last_scan_jf cpu) 4))
      (λ _ a.
        rw
          (ext-scan_timeout k c jiffies cpu
            (record s { last_scan_jf = put_at cpu jiffies s.last_scan_jf }))
          (h a))
      (λ _. h)

pub on_schedule-ExtsOk :
    (k : Kernel) (c : DsqConfig) (jiffies : ℕ) (rq : Rq) (prev next : Option Task) (s : Dsq)
    → ExtsOk s
    → ExtsOk (lse_dsq_on_schedule k c jiffies rq prev next s)
on_schedule-ExtsOk k c jiffies rq prev next s =
    on_schedule-keeps ExtsOk k jiffies c rq prev next s (enqueue-ExtsOk jiffies)
      (dequeue-ExtsOk jiffies) (scan-ExtsOk k c jiffies)

pub alloc-ExtsOk :
    (ok : Bool) (p : Task) (s : Dsq) → ExtsOk s → ExtsOk (alloc_lse_task_struct ok (some p) s)
unfolding alloc_lse_task_struct
alloc-ExtsOk ok p s h a = ground (arith, h a)

pub free-ExtsOk : (p : Task) (s : Dsq) → ExtsOk s → ExtsOk (free_lse_task_struct (some p) s)
unfolding free_lse_task_struct
free-ExtsOk p s h a = if-keeps ExtOk (p.addr == a) (λ _. tt) (λ _. h a)
