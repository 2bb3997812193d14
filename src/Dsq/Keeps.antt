-- ===== src/Dsq/Keeps.antt =====
-- Enqueueing and dequeueing keep the invariant of the dispatch queues.
use lunarkernel_sched_extent.Base.{
  ℕ, ◌≡◌, refl, sym, ◌∙◌, if-keeps, ap, true, false, [], ◌∷◌, Option, none, some, arith, count,
  count-append, length-append, Bool-cases, inl, inr,
}
use lunarkernel_sched_extent.Kernel.{Kernel, Task, Rq}
use lunarkernel_sched_extent.State.{Lts}
use lunarkernel_sched_extent.Dsq.Queue.{QueueId, Dsq, DsqConfig, put_queue, put_at}
use lunarkernel_sched_extent.Dsq.Classify.{lse_dsq_classify_lts, queue_at}
use lunarkernel_sched_extent.Dsq.Enqueue.{
  dsq_enqueue, enqueue_classified, enqueue_found, lse_dsq_enqueue_task,
}
use lunarkernel_sched_extent.Dsq.Dequeue.{
  dsq_dequeue, dequeue_classified, dequeue_found, lse_dsq_dequeue_task,
}
use lunarkernel_sched_extent.Dsq.Timeout.{lse_dsq_scan_timeout}
use lunarkernel_sched_extent.Dsq.Schedule.{
  same_task, leave, arrive, throttled_scan, lse_dsq_on_schedule,
}
use lunarkernel_sched_extent.Dsq.Scan.{queues-scan, ext-scan}
use lunarkernel_sched_extent.Dsq.Invariant.{
  eq_id_refl, eq_id_eq, count-unlink, length-unlink, at_home, is_some, on_dsq_of, Placed,
  IsWellFormed,
}

module _ (jiffies : ℕ) (q : QueueId) (p : Task) (lts : Lts) (home : ℕ → Option QueueId)
    (s : Dsq) where
  pub dsq_enqueue-Placed :
      Placed home s
      → home p.addr ≡ none
      → Placed (put_at p.addr (some q) home) (dsq_enqueue jiffies q p lts s)
  unfolding dsq_enqueue put_at put_queue
  dsq_enqueue-Placed v free = record {
    counted = λ r.
        ground (arith, v.counted r, eq_id_eq q r, length-append (s.queues q).fifo (p.addr ∷ []));
    located = λ r a.
        ground (arith, v.located r a, eq_id_eq q r, count-append a (s.queues q).fifo (p.addr ∷ []));
    flagged = λ a. ground (arith, v.flagged a);
  }

  pub dsq_dequeue-Placed :
      Placed home s
      → home p.addr ≡ some q
      → Placed (put_at p.addr none home) (dsq_dequeue jiffies q p lts s)
  unfolding dsq_dequeue put_at put_queue
  dsq_dequeue-Placed v waits = record {
    counted = λ r. ground (
      arith,
      v.counted r,
      v.located r p.addr,
      eq_id_refl q,
      eq_id_eq q r,
      length-unlink p.addr (s.queues r).fifo,
    );
    located =
        λ r a. ground (arith, v.located r a, eq_id_eq q r, count-unlink p.addr a (s.queues r).fifo);
    flagged = λ a. ground (arith, v.flagged a);
  }

-- The task, if it waits, stands in the list of the queue that its class names now.
abbrev pub IsFiled : Task → Dsq → Type 0
IsFiled p s =
    (lts : Lts)
    → s.ext p.addr ≡ some lts
    → lts.on_dsq ≡ true
    → count p.addr (s.queues (queue_at (lse_dsq_classify_lts (some lts) p))).fifo ≡ 1

home_of_count : (o : Option QueueId) (q : QueueId) → at_home o q ≡ 1 → o ≡ some q
home_of_count none q h = absurd (omega arith)
home_of_count (some r) q h = ap some (eq_id_eq r q (ground arith))

pub no_home : (o : Option QueueId) → is_some o ≡ false → o ≡ none
no_home none h = refl
no_home (some q) h = cc

module _ (k : Kernel) (jiffies : ℕ) (p : Task) (s : Dsq) where
  enqueue_classified-IsWellFormed :
      (lts : Lts)
      → s.ext p.addr ≡ some lts
      → lts.on_dsq ≡ false
      → IsWellFormed s
      → IsWellFormed (enqueue_classified k jiffies p lts s)
  unfolding enqueue_classified
  enqueue_classified-IsWellFormed lts e off (home, v) =
      if-keeps IsWellFormed _ (λ _. (home, v))
        λ _. (
          put_at p.addr (some (queue_at (lse_dsq_classify_lts (some lts) p))) home,
          dsq_enqueue-Placed jiffies _ p lts home s v
              (no_home _ (sym (v.flagged p.addr) ∙ ap on_dsq_of e ∙ off)),
        )

  enqueue_found-IsWellFormed :
      (curr : ℕ) (o : Option Lts)
      → s.ext p.addr ≡ o
      → IsWellFormed s
      → IsWellFormed (enqueue_found k jiffies curr p o s)
  unfolding enqueue_found
  enqueue_found-IsWellFormed curr none e w = w
  enqueue_found-IsWellFormed curr (some lts) e w =
      if-keeps IsWellFormed _ (λ _. w) λ h. enqueue_classified-IsWellFormed lts e (ground arith) w

  dequeue_classified-IsWellFormed :
      (lts : Lts)
      → s.ext p.addr ≡ some lts
      → lts.on_dsq ≡ true
      → IsWellFormed s
      → IsFiled p s
      → IsWellFormed (dequeue_classified k jiffies p lts s)
  unfolding dequeue_classified
  dequeue_classified-IsWellFormed lts e on (home, v) filed =
      if-keeps IsWellFormed _ (λ _. (home, v))
        λ _. (
          put_at p.addr none home,
          dsq_dequeue-Placed jiffies _ p lts home s v
              (home_of_count _ _ (sym (v.located _ p.addr) ∙ filed lts e on)),
        )

  dequeue_found-IsWellFormed :
      (o : Option Lts)
      → s.ext p.addr ≡ o
      → IsWellFormed s
      → IsFiled p s
      → IsWellFormed (dequeue_found k jiffies p o s)
  unfolding dequeue_found
  dequeue_found-IsWellFormed none e w filed = w
  dequeue_found-IsWellFormed (some lts) e w filed =
      if-keeps IsWellFormed _ (λ _. w)
        λ h. dequeue_classified-IsWellFormed lts e (ground arith) w filed

module _ (k : Kernel) (c : DsqConfig) (jiffies : ℕ) where
  -- Enqueueing keeps the invariant, whichever branch it takes.
  pub enqueue_task-IsWellFormed :
      (curr : ℕ) (p : Option Task) (s : Dsq)
      → IsWellFormed s
      → IsWellFormed (lse_dsq_enqueue_task k c jiffies curr p s)
  unfolding lse_dsq_enqueue_task
  enqueue_task-IsWellFormed curr none s w = w
  enqueue_task-IsWellFormed curr (some p) s w =
      if-keeps IsWellFormed _ (λ _. w)
        λ _. enqueue_found-IsWellFormed k jiffies p s curr (s.ext p.addr) refl w

  -- Dequeueing keeps the invariant, if the task is filed under its present class.
  pub dequeue_task-IsWellFormed :
      (p : Task) (s : Dsq)
      → IsWellFormed s
      → IsFiled p s
      → IsWellFormed (lse_dsq_dequeue_task k c jiffies (some p) s)
  unfolding lse_dsq_dequeue_task
  dequeue_task-IsWellFormed p s w filed =
      if-keeps IsWellFormed _ (λ _. w)
        λ _. dequeue_found-IsWellFormed k jiffies p s (s.ext p.addr) refl w filed

-- The scan keeps the invariant.
pub scan-Placed :
    (k : Kernel) (c : DsqConfig) (jiffies cpu : ℕ) (s : Dsq) (home : ℕ → Option QueueId)
    → Placed home s
    → Placed home (lse_dsq_scan_timeout k c jiffies cpu s)
scan-Placed k c jiffies cpu s home v = elim (Bool-cases c.lse_dsq_enable) [
  | inl on ↦ record {
    counted = λ q. ground (arith, v.counted q, queues-scan k c jiffies cpu s on q);
    located = λ q a. ground (arith, v.located q a, queues-scan k c jiffies cpu s on q);
    flagged = λ a. rw (ext-scan k jiffies c cpu s) (v.flagged a);
  }
  | inr off ↦ unfold lse_dsq_scan_timeout in rw off v
]

module _ (k : Kernel) (c : DsqConfig) (jiffies : ℕ) where
  scan-IsWellFormed :
      (cpu : ℕ) (s : Dsq) → IsWellFormed s → IsWellFormed (throttled_scan k c jiffies cpu s)
  unfolding throttled_scan
  scan-IsWellFormed cpu s (home, v) =
      if-keeps IsWellFormed _
        (λ _. (
          home,
          scan-Placed k c jiffies cpu
              (record s { last_scan_jf = put_at cpu jiffies s.last_scan_jf }) home
              (record { counted = v.counted; located = v.located; flagged = v.flagged }),
        ))
        (λ _. (home, v))

  leave-IsWellFormed :
      (rq : Rq) (prev : Option Task) (s : Dsq)
      → IsWellFormed s
      → IsWellFormed (leave k c jiffies rq prev s)
  unfolding leave
  leave-IsWellFormed rq none s w = w
  leave-IsWellFormed rq (some prev) s w =
      if-keeps IsWellFormed _ (λ _. enqueue_task-IsWellFormed k c jiffies rq.curr (some prev) s w)
        (λ _. w)

  arrive-IsWellFormed :
      (next : Task) (s : Dsq)
      → IsWellFormed s
      → IsFiled next s
      → IsWellFormed (arrive k c jiffies (some next) s)
  unfolding arrive
  arrive-IsWellFormed next s w filed =
      if-keeps IsWellFormed _ (λ _. w) (λ _. dequeue_task-IsWellFormed k c jiffies next s w filed)

  -- The hook of a context switch keeps the invariant, if the task that arrives is filed under its
  -- present class once the other has left.
  pub on_schedule-IsWellFormed :
      (rq : Rq) (prev : Option Task) (next : Task) (s : Dsq)
      → IsWellFormed s
      → IsFiled next (leave k c jiffies rq prev s)
      → IsWellFormed (lse_dsq_on_schedule k c jiffies rq prev (some next) s)
  unfolding lse_dsq_on_schedule
  on_schedule-IsWellFormed rq prev next s w filed =
      if-keeps IsWellFormed _ (λ _. w)
        λ _. scan-IsWellFormed rq.cpu _ (
          if-keeps IsWellFormed (same_task prev (some next)) (λ _. w)
            (λ _. arrive-IsWellFormed next _ (leave-IsWellFormed rq prev s w) filed))
