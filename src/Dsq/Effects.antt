-- ===== src/Dsq/Effects.antt =====
-- Where `lse_dsq_enqueue_task` of lse_dsq.c puts a task, and what `lse_dsq_dequeue_task` makes of it.
use lunarkernel_sched_extent.Base.{
  ℕ, ◌+◌, ◌<◌, ◌≡◌, refl, ◌∙◌, ap, Bool, true, false, not, List, [], ◌∷◌, ◌++◌, Option, none, some,
  ◌==◌, leb, ◌&&◌, ◌||◌, ==_refl, arith, count, Bool-cases, inl, inr, if◌then◌else◌,
}
use lunarkernel_sched_extent.Kernel.{Kernel, Task}
use lunarkernel_sched_extent.State.{
  Lts, TaskClass, class_idle, class_background, class_normal, class_foreground, class_rt,
  class_deadline,
}
use lunarkernel_sched_extent.Dsq.Queue.{QueueId, eq_id, Dsq, DsqConfig, put_queue, put_at, unlink}
use lunarkernel_sched_extent.Dsq.Classify.{
  TaskPrio, index_of, critical_system, critical_app, rt, enhanced, foreground, normal, background,
  lse_dsq_classify_lts, is_pinned, prio_of_class, prio_fallback, dsq_idx_valid, queue_at,
  pcp_out_of_range,
}
use lunarkernel_sched_extent.Dsq.Enqueue.{
  dsq_enqueue, enqueue_classified, enqueue_found, lse_dsq_enqueue_task,
}
use lunarkernel_sched_extent.Dsq.Dequeue.{
  dsq_dequeue, dequeue_classified, dequeue_found, lse_dsq_dequeue_task,
}
use lunarkernel_sched_extent.Dsq.Invariant.{eq_id_eq, at_home, is_some, on_dsq_of, IsWellFormed}

index_of-lt : (t : TaskPrio) → index_of t < 10
index_of-lt critical_system = omega arith
index_of-lt critical_app = omega arith
index_of-lt rt = omega arith
index_of-lt enhanced = omega arith
index_of-lt foreground = omega arith
index_of-lt normal = omega arith
index_of-lt background = omega arith

abbrev pub has_ext : Option Lts → Bool
has_ext none = false
has_ext (some lts) = true

-- The index of a task is valid and addresses a queue that exists, if the task may run on some CPU
-- of the system; and it is the index of a per-CPU queue exactly when the task has an extension and
-- is pinned.
pub classify_lts_valid :
    (k : Kernel) (o : Option Lts) (p : Task)
    → p.any_cpu < k.nr_cpu_ids
    → let idx = lse_dsq_classify_lts o p in
      (dsq_idx_valid k idx ≡ true)
      × (pcp_out_of_range k idx ≡ false)
      × (leb 10 idx ≡ (has_ext o && is_pinned p))
unfolding lse_dsq_classify_lts dsq_idx_valid pcp_out_of_range
classify_lts_valid k none p h = ground (arith, index_of-lt (prio_fallback p))
classify_lts_valid k (some lts) p h = ground (arith, index_of-lt (prio_of_class lts lts.task_class))

-- whether the call enqueues
unfoldable pub accepts : Kernel → DsqConfig → ℕ → Task → Lts → Bool
accepts k c curr p lts =
    let idx = lse_dsq_classify_lts (some lts) p in
    c.lse_dsq_enable
    && not lts.on_dsq
    && p.on_rq
    && not (p.addr == curr)
    && dsq_idx_valid k idx
    && not (pcp_out_of_range k idx)

-- the early returns of the call, as one test
early_returns {ℓ} :
    {A : Type ℓ} (a b c d e f : Bool) (x s : A)
    → (if not a then s else if b || (not c || d) then s else if not e || f then s else x)
      ≡ (if a && not b && c && not d && e && not f then x else s)
early_returns false b c d e f x s = refl
early_returns true true c d e f x s = refl
early_returns true false false d e f x s = refl
early_returns true false true true e f x s = refl
early_returns true false true false false f x s = refl
early_returns true false true false true true x s = refl
early_returns true false true false true false x s = refl

enqueue-eq :
    (k : Kernel) (c : DsqConfig) (jiffies curr : ℕ) (p : Task) (lts : Lts) (s : Dsq)
    → s.ext p.addr ≡ some lts
    → lse_dsq_enqueue_task k c jiffies curr (some p) s ≡ (
        if accepts k c curr p lts
        then dsq_enqueue jiffies (queue_at (lse_dsq_classify_lts (some lts) p)) p lts s
        else s)
unfolding lse_dsq_enqueue_task enqueue_found enqueue_classified accepts
enqueue-eq k c jiffies curr p lts s e = rw e (
    early_returns c.lse_dsq_enable lts.on_dsq p.on_rq (p.addr == curr)
      (dsq_idx_valid k (lse_dsq_classify_lts (some lts) p))
      (pcp_out_of_range k (lse_dsq_classify_lts (some lts) p))
      (dsq_enqueue jiffies (queue_at (lse_dsq_classify_lts (some lts) p)) p lts s) s)

module _ (k : Kernel) (c : DsqConfig) (jiffies curr : ℕ) (p : Task) (lts : Lts) (s : Dsq)
    (found : s.ext p.addr ≡ some lts) where
  -- A task that has an extension is appended to the queue of its class, and counted there, exactly
  -- when the queues are enabled, the task is on a run queue, neither current nor queued already, and
  -- its index is in range; no other list and no other counter changes.
  pub queues-enqueue_task :
      (r : QueueId)
      → let after = (lse_dsq_enqueue_task k c jiffies curr (some p) s).queues r in
        let goes_here =
          accepts k c curr p lts && eq_id (queue_at (lse_dsq_classify_lts (some lts) p)) r in
        (after.fifo ≡ (if goes_here then (s.queues r).fifo ++ (p.addr ∷ []) else (s.queues r).fifo))
        × (after.nr ≡ (if goes_here then (s.queues r).nr + 1 else (s.queues r).nr))
  queues-enqueue_task r =
      rw (enqueue-eq k c jiffies curr p lts s found)
        (both (accepts k c curr p lts) (queue_at (lse_dsq_classify_lts (some lts) p)))
    where
      both :
          (b : Bool) (q : QueueId)
          → let after = (if b then dsq_enqueue jiffies q p lts s else s).queues r in
            (after.fifo
              ≡ (if b && eq_id q r then (s.queues r).fifo ++ (p.addr ∷ []) else (s.queues r).fifo))
            × (after.nr ≡ (if b && eq_id q r then (s.queues r).nr + 1 else (s.queues r).nr))
      both true q = unfold dsq_enqueue put_queue in ground (arith, eq_id_eq q r)
      both false q = (refl, refl)

unlink-append_absent : (a : ℕ) (xs : List ℕ) → count a xs ≡ 0 → unlink a (xs ++ (a ∷ [])) ≡ xs
unfolding unlink
unlink-append_absent a [] h = rw (==_refl a)
unlink-append_absent a (x ∷ xs) h = ground (arith, unlink-append_absent a xs)

unlink_absent : (a : ℕ) (xs : List ℕ) → count a xs ≡ 0 → unlink a xs ≡ xs
unfolding unlink
unlink_absent a [] h = refl
unlink_absent a (x ∷ xs) h = ground (arith, unlink_absent a xs)

-- setting `on_dsq` does not change the class
classify-on_dsq :
    (lts : Lts) (p : Task) (b : Bool)
    → lse_dsq_classify_lts (some (record lts { on_dsq = b })) p ≡ lse_dsq_classify_lts (some lts) p
unfolding lse_dsq_classify_lts
classify-on_dsq lts p b = rw (by_class lts.task_class)
  where
    by_class : (t : TaskClass) → prio_of_class (record lts { on_dsq = b }) t ≡ prio_of_class lts t
    by_class class_idle = refl
    by_class class_background = refl
    by_class class_normal = refl
    by_class class_foreground = refl
    by_class class_rt = refl
    by_class class_deadline = refl

module _ (jiffies now : ℕ) (q : QueueId) (p : Task) (lts : Lts) (s : Dsq) where
  dequeue-enqueue_at :
      ((r : QueueId) → count p.addr (s.queues r).fifo ≡ 0)
      → (r : QueueId)
      → let after =
          dsq_dequeue now q p (record lts { on_dsq = true }) (dsq_enqueue jiffies q p lts s) in
        ((after.queues r).fifo ≡ (s.queues r).fifo) × ((after.queues r).nr ≡ (s.queues r).nr)
  unfolding dsq_dequeue dsq_enqueue put_queue
  dequeue-enqueue_at absent r = ground (
    arith,
    absent r,
    eq_id_eq q r,
    unlink-append_absent p.addr (s.queues r).fifo,
    unlink_absent p.addr (s.queues r).fifo,
  )

dequeue_returns {ℓ} :
    {A : Type ℓ} (a b f : Bool) (x s : A)
    → (if not a then s else if not b then s else if f then s else x)
      ≡ (if a && b && not f then x else s)
dequeue_returns false b f x s = refl
dequeue_returns true false f x s = refl
dequeue_returns true true true x s = refl
dequeue_returns true true false x s = refl

-- the dequeue of a task that has an extension, as one test
dequeue-eq :
    (k : Kernel) (c : DsqConfig) (jiffies : ℕ) (p : Task) (lts : Lts) (s : Dsq)
    → s.ext p.addr ≡ some lts
    → lse_dsq_dequeue_task k c jiffies (some p) s ≡ (
        if c.lse_dsq_enable
          && lts.on_dsq
          && not (pcp_out_of_range k (lse_dsq_classify_lts (some lts) p))
        then dsq_dequeue jiffies (queue_at (lse_dsq_classify_lts (some lts) p)) p lts s
        else s)
unfolding lse_dsq_dequeue_task dequeue_found dequeue_classified
dequeue-eq k c jiffies p lts s e = rw e (
    dequeue_returns c.lse_dsq_enable lts.on_dsq
      (pcp_out_of_range k (lse_dsq_classify_lts (some lts) p))
      (dsq_dequeue jiffies (queue_at (lse_dsq_classify_lts (some lts) p)) p lts s) s)

ext-dsq_enqueue :
    (jiffies : ℕ) (q : QueueId) (p : Task) (lts : Lts) (s : Dsq)
    → (dsq_enqueue jiffies q p lts s).ext p.addr ≡ some (record lts { on_dsq = true })
unfolding dsq_enqueue put_at
ext-dsq_enqueue jiffies q p lts s = rw (==_refl p.addr)

module _ (k : Kernel) (c : DsqConfig) (jiffies now curr : ℕ) (p : Task) (lts : Lts) (s : Dsq)
    (found : s.ext p.addr ≡ some lts) (off : lts.on_dsq ≡ false) where
  accepts_parts :
      accepts k c curr p lts ≡ true
      → (c.lse_dsq_enable ≡ true) × (pcp_out_of_range k (lse_dsq_classify_lts (some lts) p) ≡ false)
  unfolding accepts
  accepts_parts h = ground arith

  dequeue_accepted :
      accepts k c curr p lts ≡ true
      → lse_dsq_dequeue_task k c now (some p) (lse_dsq_enqueue_task k c jiffies curr (some p) s)
        ≡ dsq_dequeue now
            (queue_at (lse_dsq_classify_lts (some lts) p))
            p
            (record lts { on_dsq = true })
            (dsq_enqueue jiffies (queue_at (lse_dsq_classify_lts (some lts) p)) p lts s)
  dequeue_accepted h =
      rw (enqueue-eq k c jiffies curr p lts s found, h)
        (rw (
          dequeue-eq k c now p (record lts { on_dsq = true })
              (dsq_enqueue jiffies (queue_at (lse_dsq_classify_lts (some lts) p)) p lts s)
              (ext-dsq_enqueue jiffies (queue_at (lse_dsq_classify_lts (some lts) p)) p lts s),
          classify-on_dsq lts p true,
          (accepts_parts h).0,
          (accepts_parts h).1,
        ))

  dequeue_refused :
      accepts k c curr p lts ≡ false
      → lse_dsq_dequeue_task k c now (some p) (lse_dsq_enqueue_task k c jiffies curr (some p) s) ≡ s
  dequeue_refused h =
      rw (enqueue-eq k c jiffies curr p lts s found, h)
        (dequeue-eq k c now p lts s found ∙ ground arith)

  -- Enqueueing a task that does not wait and dequeueing it again, with no change of its class
  -- between, gives back the list and the counter of every queue.
  pub dequeue-enqueue_task :
      IsWellFormed s
      → (r : QueueId)
      → let after =
          lse_dsq_dequeue_task k c now
            (some p)
            (lse_dsq_enqueue_task k c jiffies curr (some p) s) in
        ((after.queues r).fifo ≡ (s.queues r).fifo) × ((after.queues r).nr ≡ (s.queues r).nr)
  dequeue-enqueue_task (home, v) r = elim (Bool-cases (accepts k c curr p lts)) [
    | inl h ↦ rw (dequeue_accepted h) (
        dequeue-enqueue_at jiffies now (queue_at (lse_dsq_classify_lts (some lts) p)) p lts s
          (λ q. absent q (home p.addr) (v.located q p.addr) (v.flagged p.addr)) r)
    | inr h ↦ rw (dequeue_refused h) (refl, refl)
  ]
    where
      absent :
          (q : QueueId) (o : Option QueueId)
          → count p.addr (s.queues q).fifo ≡ at_home o q
          → on_dsq_of (s.ext p.addr) ≡ is_some o
          → count p.addr (s.queues q).fifo ≡ 0
      absent q none l f = l
      absent q (some x) l f = absurd (ground (arith, ap on_dsq_of found))
