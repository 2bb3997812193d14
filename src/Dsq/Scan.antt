-- ===== src/Dsq/Scan.antt =====
-- What `lse_dsq_scan_timeout` of lse_dsq.c does to every queue.
use lunarkernel_sched_extent.Base.{
  ℕ, zero, suc, ◌+◌, ◌<◌, ◌≡◌, refl, Bool, Bool-cases, inl, inr, ◌==◌, ==_iff, true, not, ◌&&◌,
  ◌||◌, ltb, leb, arith, is_empty, if◌then◌else◌,
}
use lunarkernel_sched_extent.Base.Word.{add64}
use lunarkernel_sched_extent.Kernel.{Kernel}
use lunarkernel_sched_extent.Dsq.Queue.{
  QueueId, global, pcp, eq_id, DispatchQ, Dsq, DsqConfig, put_queue, lse_pcp_dsq_deadline_ms,
}
use lunarkernel_sched_extent.Dsq.Timeout.{
  mark_late, clear_empty, deadline_of, scan_global, scan_globals, lse_dsq_scan_timeout,
}

-- whether a queue has waited past a deadline
abbrev pub is_late : Kernel → ℕ → ℕ → DispatchQ → Bool
is_late k jiffies deadline_ms dsq =
    k.time_after jiffies (add64 dsq.last_consume_at (k.msecs_to_jiffies deadline_ms))

-- one visit of the loop to a global queue
abbrev visited : Kernel → ℕ → ℕ → DispatchQ → DispatchQ
visited k jiffies i dsq = clear_empty jiffies (mark_late k jiffies (deadline_of i) dsq)

module _ (k : Kernel) (jiffies : ℕ) where
  queues-scan_global :
      (i m : ℕ) (s : Dsq)
      → (scan_global k jiffies i s).queues (global m)
        ≡ (if i == m then visited k jiffies m (s.queues (global m)) else s.queues (global m))
  unfolding scan_global put_queue eq_id
  queues-scan_global i m s = elim (Bool-cases (i == m)) [
    | inl h ↦ rw (h, (==_iff i m).0 h)
    | inr h ↦ rw h
  ]

  -- The loop visits each queue of its range once, and no other.
  queues-scan_globals :
      (n i m : ℕ) (s : Dsq)
      → (scan_globals k jiffies n i s).queues (global m) ≡ (
          if leb i m && ltb m (i + n)
          then visited k jiffies m (s.queues (global m))
          else s.queues (global m))
  unfolding scan_globals
  queues-scan_globals zero i m s = ground arith
  queues-scan_globals (suc n) i m s =
      ground (
        arith,
        queues-scan_globals n (i + 1) m (scan_global k jiffies i s),
        queues-scan_global i m s,
      )

  pcp-scan_globals :
      (n i m : ℕ) (s : Dsq) → (scan_globals k jiffies n i s).queues (pcp m) ≡ s.queues (pcp m)
  unfolding scan_globals put_queue eq_id
  pcp-scan_globals zero i m s = refl
  pcp-scan_globals (suc n) i m s = pcp-scan_globals n (i + 1) m (scan_global k jiffies i s)

  visited_lem :
      (i : ℕ) (dsq : DispatchQ)
      → ((visited k jiffies i dsq).is_timeout
          ≡ (not (is_empty dsq.fifo) && (dsq.is_timeout || is_late k jiffies (deadline_of i) dsq)))
        × ((visited k jiffies i dsq).fifo ≡ dsq.fifo)
        × ((visited k jiffies i dsq).nr ≡ dsq.nr)
  unfolding mark_late clear_empty
  visited_lem i dsq = ground arith

module _ (k : Kernel) (c : DsqConfig) (jiffies cpu : ℕ) (s : Dsq)
    (on : c.lse_dsq_enable ≡ true) where
  queues-scan_global_at :
      (m : ℕ)
      → (lse_dsq_scan_timeout k c jiffies cpu s).queues (global m) ≡ (
          if leb 5 m && ltb m 10
          then visited k jiffies m (s.queues (global m))
          else s.queues (global m))
  unfolding lse_dsq_scan_timeout put_queue eq_id
  queues-scan_global_at m = rw (on, queues-scan_globals k jiffies 5 5 m)

  queues-scan_pcp_at :
      (m : ℕ)
      → (lse_dsq_scan_timeout k c jiffies cpu s).queues (pcp m) ≡ (
          if cpu == m
          then mark_late k jiffies lse_pcp_dsq_deadline_ms (s.queues (pcp cpu))
          else s.queues (pcp m))
  unfolding lse_dsq_scan_timeout put_queue eq_id
  queues-scan_pcp_at m = rw (on, pcp-scan_globals k jiffies 5 5 m)

  -- After a scan with the queues enabled, a global queue from 5 to 9 is marked exactly when it is
  -- not empty and was marked before or has passed its deadline; the mark of another global queue
  -- stays; and the queue of the scanned CPU is marked exactly when it was marked before or is not
  -- empty and has passed the deadline of 20 ms. The deadline counts from last_consume_at, not from
  -- the arrival of the head task.
  pub is_timeout-scan :
      (m : ℕ)
      → let dsq = s.queues (global m) in
        let own = s.queues (pcp cpu) in
        let after = (lse_dsq_scan_timeout k c jiffies cpu s).queues in
        ((after (global m)).is_timeout ≡ (
          if leb 5 m && ltb m 10
          then not (is_empty dsq.fifo) && (dsq.is_timeout || is_late k jiffies (deadline_of m) dsq)
          else dsq.is_timeout))
        × ((after (pcp cpu)).is_timeout ≡ (
            own.is_timeout
            || (not (is_empty own.fifo) && is_late k jiffies lse_pcp_dsq_deadline_ms own)))
  unfolding mark_late
  is_timeout-scan m = (
    ground (arith, queues-scan_global_at m, visited_lem k jiffies m (s.queues (global m))),
    ground (arith, queues-scan_pcp_at cpu),
  )

  scan_low :
      (m : ℕ)
      → m < 5
      → ((lse_dsq_scan_timeout k c jiffies cpu s).queues (global m)).is_timeout
        ≡ (s.queues (global m)).is_timeout
  scan_low m h = ground (arith, queues-scan_global_at m)

  -- The scan leaves the list and the counter of every queue as they are.
  pub queues-scan :
      (q : QueueId)
      → (((lse_dsq_scan_timeout k c jiffies cpu s).queues q).fifo ≡ (s.queues q).fifo)
        × (((lse_dsq_scan_timeout k c jiffies cpu s).queues q).nr ≡ (s.queues q).nr)
  unfolding mark_late
  queues-scan (global m) =
      ground (arith, queues-scan_global_at m, visited_lem k jiffies m (s.queues (global m)))
  queues-scan (pcp m) = ground (arith, queues-scan_pcp_at m)

module _ (k : Kernel) (jiffies : ℕ) where
  ext-scan_globals : (n i : ℕ) (s : Dsq) → (scan_globals k jiffies n i s).ext ≡ s.ext
  unfolding scan_globals
  ext-scan_globals zero i s = refl
  ext-scan_globals (suc n) i s = ext-scan_globals n (i + 1) (scan_global k jiffies i s)

  pub ext-scan :
      (c : DsqConfig) (cpu : ℕ) (s : Dsq) → (lse_dsq_scan_timeout k c jiffies cpu s).ext ≡ s.ext
  unfolding lse_dsq_scan_timeout
  ext-scan c cpu s = elim (Bool-cases c.lse_dsq_enable) [
    | inl on ↦ rw (on, ext-scan_globals)
    | inr off ↦ rw off
  ]

-- The mark of a queue below the non-period ones stays, enabled or not.
pub is_timeout-scan_low :
    (k : Kernel) (c : DsqConfig) (jiffies cpu : ℕ) (s : Dsq) (m : ℕ)
    → m < 5
    → ((lse_dsq_scan_timeout k c jiffies cpu s).queues (global m)).is_timeout
      ≡ (s.queues (global m)).is_timeout
is_timeout-scan_low k c jiffies cpu s m h = elim (Bool-cases c.lse_dsq_enable) [
  | inl on ↦ scan_low k c jiffies cpu s on m h
  | inr off ↦ unfold lse_dsq_scan_timeout in rw off
]
