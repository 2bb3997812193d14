-- ===== src/Dsq/Walk.antt =====
-- What every call of the hook of a context switch keeps that an enqueue, a dequeue and a scan keep.
use lunarkernel_sched_extent.Base.{ℕ, ◌≡◌, refl, not, ◌||◌, ◌==◌, Option, none, some, if-keeps}
use lunarkernel_sched_extent.Kernel.{Kernel, Task, Rq}
use lunarkernel_sched_extent.State.{Lts}
use lunarkernel_sched_extent.Dsq.Queue.{QueueId, Dsq, DsqConfig}
use lunarkernel_sched_extent.Dsq.Classify.{lse_dsq_classify_lts, queue_at}
use lunarkernel_sched_extent.Dsq.Enqueue.{
  dsq_enqueue, enqueue_classified, enqueue_found, lse_dsq_enqueue_task,
}
use lunarkernel_sched_extent.Dsq.Dequeue.{
  dsq_dequeue, dequeue_classified, dequeue_found, lse_dsq_dequeue_task,
}
use lunarkernel_sched_extent.Dsq.Schedule.{
  same_task, leave, arrive, throttled_scan, lse_dsq_on_schedule,
}

module _ (P : Dsq → Type 0) (k : Kernel) (jiffies : ℕ) where
  -- an operation on a queue, on behalf of a task with the extension that it has
  abbrev pub Keeps : (ℕ → QueueId → Task → Lts → Dsq → Dsq) → Type 0
  Keeps operation =
      (q : QueueId) (p : Task) (lts : Lts) (s : Dsq)
      → s.ext p.addr ≡ some lts
      → P s
      → P (operation jiffies q p lts s)

  enqueue_found-keeps :
      (curr : ℕ) (p : Task) (o : Option Lts) (s : Dsq)
      → Keeps dsq_enqueue
      → s.ext p.addr ≡ o
      → P s
      → P (enqueue_found k jiffies curr p o s)
  unfolding enqueue_found enqueue_classified
  enqueue_found-keeps curr p none s enqueue e v = v
  enqueue_found-keeps curr p (some lts) s enqueue e v =
      if-keeps P (lts.on_dsq || (not p.on_rq || p.addr == curr)) (λ _. v)
        (λ _.
          if-keeps P _ (λ _. v)
            (λ _. enqueue (queue_at (lse_dsq_classify_lts (some lts) p)) p lts s e v))

  dequeue_found-keeps :
      (p : Task) (o : Option Lts) (s : Dsq)
      → Keeps dsq_dequeue
      → s.ext p.addr ≡ o
      → P s
      → P (dequeue_found k jiffies p o s)
  unfolding dequeue_found dequeue_classified
  dequeue_found-keeps p none s dequeue e v = v
  dequeue_found-keeps p (some lts) s dequeue e v =
      if-keeps P (not lts.on_dsq) (λ _. v)
        (λ _.
          if-keeps P _ (λ _. v)
            (λ _. dequeue (queue_at (lse_dsq_classify_lts (some lts) p)) p lts s e v))

  module _ (c : DsqConfig) where
    leave-keeps :
        (rq : Rq) (prev : Option Task) (s : Dsq)
        → Keeps dsq_enqueue
        → P s
        → P (leave k c jiffies rq prev s)
    unfolding leave lse_dsq_enqueue_task
    leave-keeps rq none s enqueue v = v
    leave-keeps rq (some prev) s enqueue v =
        if-keeps P _
          (λ _.
            if-keeps P (not c.lse_dsq_enable) (λ _. v)
              (λ _. enqueue_found-keeps rq.curr prev (s.ext prev.addr) s enqueue refl v))
          (λ _. v)

    arrive-keeps :
        (next : Option Task) (s : Dsq) → Keeps dsq_dequeue → P s → P (arrive k c jiffies next s)
    unfolding arrive lse_dsq_dequeue_task
    arrive-keeps none s dequeue v = v
    arrive-keeps (some next) s dequeue v =
        if-keeps P next.is_idle_task (λ _. v)
          (λ _.
            if-keeps P (not c.lse_dsq_enable) (λ _. v)
              (λ _. dequeue_found-keeps next (s.ext next.addr) s dequeue refl v))

    pub on_schedule-keeps :
        (rq : Rq) (prev next : Option Task) (s : Dsq)
        → Keeps dsq_enqueue
        → Keeps dsq_dequeue
        → ((cpu : ℕ) (t : Dsq) → P t → P (throttled_scan k c jiffies cpu t))
        → P s
        → P (lse_dsq_on_schedule k c jiffies rq prev next s)
    unfolding lse_dsq_on_schedule
    on_schedule-keeps rq prev next s enqueue dequeue scan v =
        if-keeps P _ (λ _. v)
          (λ _. scan rq.cpu _ (
            if-keeps P (same_task prev next) (λ _. v)
              (λ _. arrive-keeps next _ dequeue (leave-keeps rq prev s enqueue v))))
