-- ===== src/Dsq/Quiet.antt =====
-- Which queues of lse_dsq.c can time out, over every run of the module's entry points, and what
-- the urgency signal can be.
use lunarkernel_sched_extent.Base.{
  ℕ, zero, suc, ◌+◌, ◌*◌, ◌<◌, ◌≡◌, refl, ◌∙◌, min, false, ◌&&◌, ==_iff, List, [], ◌∷◌, Option, ltb,
  leb, arith, if-keeps, if◌then◌else◌,
}
use lunarkernel_sched_extent.Base.Int.{pos}
use lunarkernel_sched_extent.Kernel.{Kernel, Task, Rq}
use lunarkernel_sched_extent.State.{Lts}
use lunarkernel_sched_extent.Dsq.Queue.{
  QueueId, global, pcp, eq_id, Dsq, DsqConfig, put_queue, put_at, max_global_dsqs,
}
use lunarkernel_sched_extent.Dsq.Enqueue.{dsq_enqueue}
use lunarkernel_sched_extent.Dsq.Dequeue.{dsq_dequeue}
use lunarkernel_sched_extent.Dsq.Timeout.{
  lse_dsq_scan_timeout, lse_dsq_has_timeout, count_timeouts, lse_dsq_urgency_signal,
}
use lunarkernel_sched_extent.Dsq.Schedule.{throttled_scan, lse_dsq_on_schedule}
use lunarkernel_sched_extent.Dsq.Sync.{
  drain, drain_globals, drain_pcps, reset_pcp_info, lse_dsq_sync, init_global, init_globals,
  init_pcps, lse_dsq_init,
}
use lunarkernel_sched_extent.Dsq.Walk.{on_schedule-keeps}
use lunarkernel_sched_extent.Dsq.Scan.{is_timeout-scan_low}
use lunarkernel_sched_extent.Dsq.Invariant.{eq_id_eq}

-- No queue below the non-period ones is marked as timed out.
pub record IsQuiet (s : Dsq) : Type 0 where
  pub unmarked : (m : ℕ) → m < 5 → (s.queues (global m)).is_timeout ≡ false

dsq_enqueue-IsQuiet :
    (jiffies : ℕ) (q : QueueId) (p : Task) (lts : Lts) (s : Dsq)
    → IsQuiet s
    → IsQuiet (dsq_enqueue jiffies q p lts s)
unfolding dsq_enqueue put_queue
dsq_enqueue-IsQuiet jiffies q p lts s v = record {
  unmarked = λ m h. ground (arith, v.unmarked m h, eq_id_eq q (global m));
}

dsq_dequeue-IsQuiet :
    (jiffies : ℕ) (q : QueueId) (p : Task) (lts : Lts) (s : Dsq)
    → IsQuiet s
    → IsQuiet (dsq_dequeue jiffies q p lts s)
unfolding dsq_dequeue put_queue
dsq_dequeue-IsQuiet jiffies q p lts s v = record {
  unmarked = λ m h. ground (arith, v.unmarked m h, eq_id_eq q (global m));
}

drain-IsQuiet : (q : QueueId) (s : Dsq) → IsQuiet s → IsQuiet (drain q s)
unfolding drain put_queue
drain-IsQuiet q s v = record {
  unmarked = λ m h. ground (arith, v.unmarked m h, eq_id_eq q (global m));
}

module _ (k : Kernel) (c : DsqConfig) (jiffies : ℕ) where
  scan_timeout-IsQuiet :
      (cpu : ℕ) (s : Dsq) → IsQuiet s → IsQuiet (lse_dsq_scan_timeout k c jiffies cpu s)
  scan_timeout-IsQuiet cpu s v = record {
    unmarked = λ m h. is_timeout-scan_low k c jiffies cpu s m h ∙ v.unmarked m h;
  }

  scan-IsQuiet : (cpu : ℕ) (s : Dsq) → IsQuiet s → IsQuiet (throttled_scan k c jiffies cpu s)
  unfolding throttled_scan
  scan-IsQuiet cpu s v =
      if-keeps IsQuiet _
        (λ _.
          scan_timeout-IsQuiet cpu (record s { last_scan_jf = put_at cpu jiffies s.last_scan_jf })
            (record { unmarked = v.unmarked }))
        (λ _. v)

  on_schedule-IsQuiet :
      (rq : Rq) (prev next : Option Task) (s : Dsq)
      → IsQuiet s
      → IsQuiet (lse_dsq_on_schedule k c jiffies rq prev next s)
  on_schedule-IsQuiet rq prev next s =
      on_schedule-keeps IsQuiet k jiffies c rq prev next s
        (λ q p lts t _. dsq_enqueue-IsQuiet jiffies q p lts t)
        (λ q p lts t _. dsq_dequeue-IsQuiet jiffies q p lts t) scan-IsQuiet

drain_globals-IsQuiet : (n i : ℕ) (s : Dsq) → IsQuiet s → IsQuiet (drain_globals n i s)
unfolding drain_globals
drain_globals-IsQuiet zero i s v = v
drain_globals-IsQuiet (suc n) i s v =
    drain_globals-IsQuiet n (i + 1) (drain (global i) s) (drain-IsQuiet (global i) s v)

drain_pcps-IsQuiet : (cpus : List ℕ) (s : Dsq) → IsQuiet s → IsQuiet (drain_pcps cpus s)
unfolding drain_pcps
drain_pcps-IsQuiet [] s v = v
drain_pcps-IsQuiet (cpu ∷ cpus) s v =
    drain_pcps-IsQuiet cpus (drain (pcp cpu) s) (drain-IsQuiet (pcp cpu) s v)

queues-reset_pcp_info : (cpus : List ℕ) (s : Dsq) → (reset_pcp_info cpus s).queues ≡ s.queues
unfolding reset_pcp_info
queues-reset_pcp_info [] s = refl
queues-reset_pcp_info (cpu ∷ cpus) s = queues-reset_pcp_info cpus _

sync-IsQuiet : (k : Kernel) (c : DsqConfig) (s : Dsq) → IsQuiet s → IsQuiet (lse_dsq_sync k c s)
unfolding lse_dsq_sync
sync-IsQuiet k c s v =
    if-keeps IsQuiet c.lse_dsq_enable (λ _. v)
      λ _. record { unmarked = λ m h. rw queues-reset_pcp_info (drained.unmarked m h) }
  where
    drained : IsQuiet (drain_pcps k.online_cpus (drain_globals max_global_dsqs 0 s))
    drained = drain_pcps-IsQuiet k.online_cpus _ (drain_globals-IsQuiet max_global_dsqs 0 s v)

-- A call of the module that touches the queues, under switches that may differ from call to call.
pub data Step (k : Kernel) : Dsq → Dsq → Type 0 where
  schedule :
      {s : Dsq} (c : DsqConfig) (jiffies : ℕ) (rq : Rq) (prev next : Option Task)
      → Step k s (lse_dsq_on_schedule k c jiffies rq prev next s)
  sync : {s : Dsq} (c : DsqConfig) → Step k s (lse_dsq_sync k c s)
  -- `lse_refresh_task_hint`, and the allocation and release of extensions
  retag : {s : Dsq} (ext : ℕ → Option Lts) → Step k s (record s { ext = ext })

pub data Reach (k : Kernel) (s : Dsq) : Dsq → Type 0 where
  here : Reach k s s
  more : {t u : Dsq} → Reach k s t → Step k t u → Reach k s u

Step-IsQuiet : {k : Kernel} {s t : Dsq} → Step k s t → IsQuiet s → IsQuiet t
Step-IsQuiet {k} {s} (schedule c jiffies rq prev next) v =
    on_schedule-IsQuiet k c jiffies rq prev next s v
Step-IsQuiet {k} {s} (sync c) v = sync-IsQuiet k c s v
Step-IsQuiet (retag ext) v = record { unmarked = v.unmarked }

Reach-IsQuiet : {k : Kernel} {s t : Dsq} → Reach k s t → IsQuiet s → IsQuiet t
Reach-IsQuiet here v = v
Reach-IsQuiet (more r step) v = Step-IsQuiet step (Reach-IsQuiet r v)

init_globals-unmarked :
    (jiffies n i m : ℕ) (s : Dsq)
    → ((init_globals jiffies n i s).queues (global m)).is_timeout
      ≡ (if leb i m && ltb m (i + n) then false else (s.queues (global m)).is_timeout)
unfolding init_globals put_queue eq_id
init_globals-unmarked jiffies zero i m s = ground arith
init_globals-unmarked jiffies (suc n) i m s =
    ground (arith, init_globals-unmarked jiffies n (i + 1) m (init_global jiffies i s), ==_iff i m)

init_pcps-global :
    (jiffies : ℕ) (cpus : List ℕ) (s : Dsq) (m : ℕ)
    → (init_pcps jiffies cpus s).queues (global m) ≡ s.queues (global m)
unfolding init_pcps put_queue eq_id
init_pcps-global jiffies [] s m = refl
init_pcps-global jiffies (cpu ∷ cpus) s m = init_pcps-global jiffies cpus _ m

init-IsQuiet : (k : Kernel) (jiffies : ℕ) (s : Dsq) → IsQuiet (lse_dsq_init k jiffies s)
unfolding lse_dsq_init
init-IsQuiet k jiffies s = record {
  unmarked = λ m h.
      rw (queues-reset_pcp_info, init_pcps-global)
        (ground (arith, init_globals-unmarked jiffies 10 0 m s));
}

module _ (k : Kernel) (jiffies : ℕ) (s t : Dsq) (run : Reach k (lse_dsq_init k jiffies s) t) where
  -- After initialisation, whatever the calls, no queue below the non-period ones is reported as
  -- timed out.
  has_timeout_low : (m : ℕ) → m < 5 → lse_dsq_has_timeout t (pos m) ≡ false
  unfolding lse_dsq_has_timeout
  has_timeout_low m h = ground (arith, (Reach-IsQuiet run (init-IsQuiet k jiffies s)).unmarked m h)

  -- So the urgency signal is 256 for each of the five non-period queues that has timed out, at most
  -- 1024, and 0 while the queues are disabled.
  pub urgency_signal_lem :
      (c : DsqConfig)
      → lse_dsq_urgency_signal c t
        ≡ (if c.lse_dsq_enable then min (count_timeouts t 5 5 * 256) 1024 else 0)
  unfolding lse_dsq_urgency_signal count_timeouts
  urgency_signal_lem c = ground (
    arith,
    has_timeout_low 0 (omega arith),
    has_timeout_low 1 (omega arith),
    has_timeout_low 2 (omega arith),
    has_timeout_low 3 (omega arith),
    has_timeout_low 4 (omega arith),
  )
