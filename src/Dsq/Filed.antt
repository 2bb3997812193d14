-- ===== src/Dsq/Filed.antt =====
-- In which dispatch queue of lse_dsq.c each waiting task stands.
use lunarkernel_sched_extent.Base.{
  ℕ, ◌≡◌, refl, sym, ◌∙◌, ap, Bool, true, false, not, ◌||◌, ◌&&◌, ◌==◌, ==_iff, Option, none, some,
  Option-cases, Bool-cases, inl, inr, if-keeps, if◌then◌else◌, arith,
}
use lunarkernel_sched_extent.Kernel.{Kernel, Task, Rq}
use lunarkernel_sched_extent.State.{Lts}
use lunarkernel_sched_extent.Dsq.Queue.{QueueId, Dsq, DsqConfig, put_at}
use lunarkernel_sched_extent.Dsq.Classify.{
  lse_dsq_classify_lts, queue_at, pcp_out_of_range, dsq_idx_valid,
}
use lunarkernel_sched_extent.Dsq.Enqueue.{
  dsq_enqueue, enqueue_classified, enqueue_found, lse_dsq_enqueue_task,
}
use lunarkernel_sched_extent.Dsq.Dequeue.{
  dsq_dequeue, dequeue_classified, dequeue_found, lse_dsq_dequeue_task,
}
use lunarkernel_sched_extent.Dsq.Schedule.{leave, arrive, throttled_scan, lse_dsq_on_schedule}
use lunarkernel_sched_extent.Dsq.Invariant.{is_some, on_dsq_of, Placed}
use lunarkernel_sched_extent.Dsq.Keeps.{
  dsq_enqueue-Placed, dsq_dequeue-Placed, scan-Placed, no_home,
}

-- a task that leaves while it is runnable may wait
abbrev pub left : Task → (ℕ → Bool) → ℕ → Bool
left p may a = if p.addr == a then p.on_rq || may a else may a

-- one that arrives does not
abbrev pub arrived : Task → (ℕ → Bool) → ℕ → Bool
arrived p may a = if p.addr == a then p.is_idle_task && may a else may a

-- The tasks that may wait after a switch from `prev` to `next`.
abbrev pub switched : Task → Task → (ℕ → Bool) → ℕ → Bool
switched prev next may = if prev.addr == next.addr then may else arrived next (left prev may)

-- `place` gives the index of the class of each task, and `may` the tasks that may wait.
module _ (k : Kernel) (place : ℕ → ℕ) where
  abbrev pub Filed : (ℕ → Bool) → Dsq → Type 0
  Filed may s =
      (home : ℕ → Option QueueId) × Placed home s
      × ((a : ℕ) (q : QueueId)
          → home a ≡ some q
          → (q ≡ queue_at (place a)) × (pcp_out_of_range k (place a) ≡ false) × (may a ≡ true))

  -- the class that the code finds for the task is the one that `place` gives
  abbrev pub Agrees : Task → Option Lts → Type 0
  Agrees p o = (lts : Lts) → o ≡ some lts → lse_dsq_classify_lts (some lts) p ≡ place p.addr

  widen-Filed :
      (may wide : ℕ → Bool) (s : Dsq)
      → ((a : ℕ) → may a ≡ true → wide a ≡ true)
      → Filed may s
      → Filed wide s
  widen-Filed may wide s f (home, v, h) =
      (home, v, λ a q e. ((h a q e).0, (h a q e).1, f a (h a q e).2))

  left-Filed : (p : Task) (may : ℕ → Bool) (s : Dsq) → Filed may s → Filed (left p may) s
  left-Filed p may s = widen-Filed may (left p may) s (λ a h. ground arith)

  module _ (jiffies : ℕ) (p : Task) (may : ℕ → Bool) (s : Dsq) where
    enqueue-Filed :
        (lts : Lts)
        → s.ext p.addr ≡ some lts
        → lts.on_dsq ≡ false
        → p.on_rq ≡ true
        → pcp_out_of_range k (place p.addr) ≡ false
        → Filed may s
        → Filed (left p may) (dsq_enqueue jiffies (queue_at (place p.addr)) p lts s)
    unfolding put_at
    enqueue-Filed lts e off on_rq range (home, v, h) = (
      put_at p.addr (some (queue_at (place p.addr))) home,
      dsq_enqueue-Placed jiffies _ p lts home s v
          (no_home _ (sym (v.flagged p.addr) ∙ ap on_dsq_of e ∙ off)),
      λ a q e'. ground (arith, h a q, ==_iff p.addr a),
    )

    dequeue-Filed :
        (lts : Lts)
        → s.ext p.addr ≡ some lts
        → lts.on_dsq ≡ true
        → p.is_idle_task ≡ false
        → Filed may s
        → Filed (arrived p may) (dsq_dequeue jiffies (queue_at (place p.addr)) p lts s)
    unfolding put_at
    dequeue-Filed lts e on busy (home, v, h) =
        let waits : is_some (home p.addr) ≡ true = sym (v.flagged p.addr) ∙ ap on_dsq_of e ∙ on in
        elim (Option-cases (home p.addr)) [
          | inl none_home ↦ let never : false ≡ true = rw none_home at waits in cc
          | inr (q, some_home) ↦ (
            put_at p.addr none home,
            dsq_dequeue-Placed jiffies _ p lts home s v
                (some_home ∙ ap some (h p.addr q some_home).0),
            λ a r e'. ground (arith, h a r),
          )
        ]

    -- A task that does not wait may be struck from those that may.
    strike-Filed : on_dsq_of (s.ext p.addr) ≡ false → Filed may s → Filed (arrived p may) s
    strike-Filed off (home, v, h) = (
      home,
      v,
      λ a q e.
          let free : home p.addr ≡ none = no_home _ (sym (v.flagged p.addr) ∙ off) in
          ground (arith, h a q, ==_iff p.addr a),
    )

    enqueue_found-Filed :
        (curr : ℕ) (o : Option Lts)
        → s.ext p.addr ≡ o
        → Agrees p o
        → Filed may s
        → Filed (left p may) (enqueue_found k jiffies curr p o s)
    unfolding enqueue_found enqueue_classified
    enqueue_found-Filed curr none e ag v = left-Filed p may s v
    enqueue_found-Filed curr (some lts) e ag v =
        if-keeps (Filed (left p may)) (lts.on_dsq || (not p.on_rq || p.addr == curr))
          (λ _. left-Filed p may s v)
          (λ free. rw (ag lts refl) (
            if-keeps (Filed (left p may))
              (not (dsq_idx_valid k (place p.addr)) || pcp_out_of_range k (place p.addr))
              (λ _. left-Filed p may s v)
              (λ valid. enqueue-Filed lts e (ground arith) (ground arith) (ground arith) v)))

    -- a task that waits has a queue that exists
    in_range :
        (lts : Lts)
        → s.ext p.addr ≡ some lts
        → lts.on_dsq ≡ true
        → Filed may s
        → pcp_out_of_range k (place p.addr) ≡ false
    in_range lts e on (home, v, h) =
        let waits : is_some (home p.addr) ≡ true = sym (v.flagged p.addr) ∙ ap on_dsq_of e ∙ on in
        elim (Option-cases (home p.addr)) [
          | inl none_home ↦ let never : false ≡ true = rw none_home at waits in cc
          | inr (q, some_home) ↦ (h p.addr q some_home).1
        ]

    dequeue_found-Filed :
        (o : Option Lts)
        → s.ext p.addr ≡ o
        → Agrees p o
        → p.is_idle_task ≡ false
        → Filed may s
        → Filed (arrived p may) (dequeue_found k jiffies p o s)
    unfolding dequeue_found dequeue_classified
    dequeue_found-Filed none e ag busy v = strike-Filed (ap on_dsq_of e) v
    dequeue_found-Filed (some lts) e ag busy v = elim (Bool-cases lts.on_dsq) [
      | inr off ↦ rw off (strike-Filed (ap on_dsq_of e ∙ off) v)
      | inl on ↦ rw (on, ag lts refl, in_range lts e on v) (dequeue-Filed lts e on busy v)
    ]

  module _ (c : DsqConfig) (enabled : c.lse_dsq_enable ≡ true) (jiffies : ℕ) where
    leave-Filed :
        (rq : Rq) (p : Task) (may : ℕ → Bool) (s : Dsq)
        → Agrees p (s.ext p.addr)
        → Filed may s
        → Filed (left p may) (leave k c jiffies rq (some p) s)
    unfolding leave lse_dsq_enqueue_task
    leave-Filed rq p may s ag v =
        if-keeps (Filed (left p may)) (not p.is_idle_task && p.on_rq && p.task_cpu == rq.cpu)
          (λ _. rw enabled (enqueue_found-Filed jiffies p may s rq.curr (s.ext p.addr) refl ag v))
          (λ _. left-Filed p may s v)

    arrive-Filed :
        (p : Task) (may : ℕ → Bool) (s : Dsq)
        → Agrees p (s.ext p.addr)
        → Filed may s
        → Filed (arrived p may) (arrive k c jiffies (some p) s)
    unfolding arrive lse_dsq_dequeue_task
    arrive-Filed p may s ag v = elim (Bool-cases p.is_idle_task) [
      | inl idle ↦ rw idle (widen-Filed may _ s (λ a h. ground arith) v)
      | inr busy ↦
          rw (busy, enabled)
            (rw busy at (dequeue_found-Filed jiffies p may s (s.ext p.addr) refl ag busy v))
    ]

    -- the task that leaves is the only one whose extension changes
    ext-leave :
        (rq : Rq) (p : Task) (s : Dsq) (a : ℕ)
        → (p.addr == a) ≡ false
        → (leave k c jiffies rq (some p) s).ext a ≡ s.ext a
    unfolding leave lse_dsq_enqueue_task enqueue_found enqueue_classified dsq_enqueue put_at
    ext-leave rq p s a n = elim (Option-cases (s.ext p.addr)) [
      | inl e ↦ rw e (ground arith)
      | inr (lts, e) ↦ rw e (ground arith)
    ]

    scan-Filed :
        (cpu : ℕ) (may : ℕ → Bool) (s : Dsq)
        → Filed may s
        → Filed may (throttled_scan k c jiffies cpu s)
    unfolding throttled_scan
    scan-Filed cpu may s (home, v, h) =
        if-keeps (Filed may) _
          (λ _. (
            home,
            scan-Placed k c jiffies cpu
                (record s { last_scan_jf = put_at cpu jiffies s.last_scan_jf }) home
                (record { counted = v.counted; located = v.located; flagged = v.flagged }),
            h,
          ))
          (λ _. (home, v, h))

    -- While the queues are on, a switch files the task that leaves, if it stays runnable, and takes
    -- out the one that arrives.
    pub on_schedule-Filed :
        (rq : Rq) (prev next : Task) (may : ℕ → Bool) (s : Dsq)
        → c.slim_stats ≡ true
        → ((prev.addr == next.addr) ≡ false → Agrees prev (s.ext prev.addr))
        → ((prev.addr == next.addr) ≡ false → Agrees next (s.ext next.addr))
        → Filed may s
        → Filed
            (switched prev next may)
            (lse_dsq_on_schedule k c jiffies rq (some prev) (some next) s)
    unfolding lse_dsq_on_schedule
    on_schedule-Filed rq prev next may s on agp agn v =
        let t = leave k c jiffies rq (some prev) s in
        let wide = switched prev next may in
        if-keeps (Filed wide) (not c.slim_stats || not c.lse_dsq_enable)
          (λ off. absurd (ground arith))
          (λ _. scan-Filed rq.cpu wide _ (
            if-keeps (Filed wide) (prev.addr == next.addr) (λ same. rw same v)
              (λ other.
                let agree : Agrees next (t.ext next.addr) =
                  rw (ext-leave rq prev s next.addr other) (agn other) in
                rw other (
                  arrive-Filed next (left prev may) t agree
                    (leave-Filed rq prev may s (agp other) v)))))
