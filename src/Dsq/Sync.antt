-- ===== src/Dsq/Sync.antt =====
-- Cleanup and initialisation: `lse_dsq_sync`, `init_one_dsq` and `lse_dsq_init` of lse_dsq.c.
use lunarkernel_sched_extent.Base.{
  ℕ, zero, suc, ◌+◌, ◌^◌, false, List, [], ◌∷◌, Option, none, some, if◌then◌else◌,
}
use lunarkernel_sched_extent.Kernel.{Kernel}
use lunarkernel_sched_extent.State.{Lts}
use lunarkernel_sched_extent.Dsq.Queue.{
  QueueId, global, pcp, DispatchQ, Dsq, DsqConfig, max_global_dsqs, non_period_start,
  cluster_separate_idx, put_queue, put_at,
}

abbrev pub off_dsq : Option Lts → Option Lts
off_dsq none = none
off_dsq (some lts) = some (record lts { on_dsq = false })

-- `list_for_each_safe`: each task of the list leaves it
unfoldable pub release : List ℕ → (ℕ → Option Lts) → ℕ → Option Lts
unfolding put_at
release [] ext = ext
release (a ∷ fifo) ext = release fifo (put_at a (off_dsq (ext a)) ext)

unfoldable pub drain : QueueId → Dsq → Dsq
unfolding release put_queue
drain q s = record s {
  queues = put_queue q (record (s.queues q) { fifo = []; nr = 0; is_timeout = false }) s.queues;
  ext = release (s.queues q).fifo s.ext;
}

unfoldable pub drain_globals : ℕ → ℕ → Dsq → Dsq
unfolding drain
drain_globals zero i s = s
drain_globals (suc n) i s = drain_globals n (i + 1) (drain (global i) s)

unfoldable pub drain_pcps : List ℕ → Dsq → Dsq
unfolding drain
drain_pcps [] s = s
drain_pcps (cpu ∷ cpus) s = drain_pcps cpus (drain (pcp cpu) s)

-- per_cpu(lse_pcp_info, cpu) of the CPUs visited
unfoldable pub reset_pcp_info : List ℕ → Dsq → Dsq
unfolding put_at
reset_pcp_info [] s = s
reset_pcp_info (cpu ∷ cpus) s =
    reset_pcp_info cpus
      (record s { pcp_rtime = put_at cpu 0 s.pcp_rtime; pcp_round = put_at cpu false s.pcp_round })

unfoldable pub lse_dsq_sync : Kernel → DsqConfig → Dsq → Dsq
unfolding drain_globals drain_pcps reset_pcp_info
lse_dsq_sync k c s =
    if c.lse_dsq_enable
    then s
    else let drained = drain_pcps k.online_cpus (drain_globals max_global_dsqs 0 s) in
      reset_pcp_info k.online_cpus (record drained {
        curr_idx_big = non_period_start;
        curr_idx_little = cluster_separate_idx;
        rtime = λ i. 0;
      })

unfoldable pub init_one_dsq : ℕ → ℕ → DispatchQ
init_one_dsq jiffies id = record {
  fifo = [];
  nr = 0;
  id = id;
  last_consume_at = jiffies;
  is_timeout = false;
}

-- LSE_DSQ_FLAG_BUILTIN | i
abbrev builtin_id : ℕ → ℕ
builtin_id i = 2 ^ 63 + i

-- one round of the loop over the global queues
unfoldable pub init_global : ℕ → ℕ → Dsq → Dsq
unfolding init_one_dsq put_queue
init_global jiffies i s = record s {
  queues = put_queue (global i) (init_one_dsq jiffies (builtin_id i)) s.queues;
}

unfoldable pub init_globals : ℕ → ℕ → ℕ → Dsq → Dsq
unfolding init_global
init_globals jiffies zero i s = s
init_globals jiffies (suc n) i s = init_globals jiffies n (i + 1) (init_global jiffies i s)

unfoldable pub init_pcps : ℕ → List ℕ → Dsq → Dsq
unfolding init_one_dsq put_queue
init_pcps jiffies [] s = s
init_pcps jiffies (cpu ∷ cpus) s =
    let dsq = init_one_dsq jiffies (builtin_id (max_global_dsqs + cpu)) in
    init_pcps jiffies cpus (record s { queues = put_queue (pcp cpu) dsq s.queues })

unfoldable pub lse_dsq_init : Kernel → ℕ → Dsq → Dsq
unfolding init_globals init_pcps reset_pcp_info
lse_dsq_init k jiffies s =
    let queued = init_pcps jiffies k.possible_cpus (init_globals jiffies max_global_dsqs 0 s) in
    record (reset_pcp_info k.possible_cpus
      (record queued { curr_idx_big = non_period_start; curr_idx_little = cluster_separate_idx })) {
        lse_dsq_round = 0;
      }
