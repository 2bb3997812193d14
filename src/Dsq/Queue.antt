-- ===== src/Dsq/Queue.antt =====
-- The dispatch queues and the state of lse_dsq.c: `struct lse_dispatch_q`,
-- `struct lse_dsq_sched_info`, `struct lse_pcp_dsq_info` and the tables of deadlines.
use lunarkernel_sched_extent.Base.{ℕ, Bool, false, List, [], ◌∷◌, Option, ◌==◌, if◌then◌else◌}
use lunarkernel_sched_extent.State.{Lts}

-- A pointer to a queue: `&lse_gdsqs[i]`, or `&per_cpu(lse_pcp_dsq, cpu)`.
pub data QueueId : Type 0 where
  global : ℕ → QueueId
  pcp : ℕ → QueueId

unfoldable pub eq_id : QueueId → QueueId → Bool
eq_id (global i) (global j) = i == j
eq_id (global i) (pcp j) = false
eq_id (pcp i) (global j) = false
eq_id (pcp i) (pcp j) = i == j

-- struct lse_dispatch_q. The list holds the addresses of tasks, linked by their `dsq_node`; `nr`
-- is an `int` that starts at 0 and is only incremented, or lowered by `max(0, nr - 1)`. The tree
-- `priq` is never filled.
pub record DispatchQ : Type 0 where
  pub fifo : List ℕ
  pub nr : ℕ
  pub id : ℕ
  pub last_consume_at : ℕ
  pub is_timeout : Bool

-- The state: the queues, the extension of each task by its address, `lse_dsq_sinfo`,
-- `lse_pcp_info` (an `int` of running time as its bit pattern), the round counter and the last scan
-- of each CPU.
pub record Dsq : Type 0 where
  pub queues : QueueId → DispatchQ
  pub ext : ℕ → Option Lts
  pub curr_idx_big : ℕ
  pub curr_idx_little : ℕ
  pub rtime : ℕ → ℕ
  pub pcp_rtime : ℕ → ℕ
  pub pcp_round : ℕ → Bool
  pub lse_dsq_round : ℕ
  pub last_scan_jf : ℕ → ℕ

-- The switches that the code reads, as truth values.
pub record DsqConfig : Type 0 where
  pub lse_dsq_enable : Bool
  pub slim_stats : Bool

-- LSE_MAX_GLOBAL_DSQS, which is also LSE_DSQ_PCP_BASE and LSE_DSQ_NON_PERIOD_END
abbrev pub max_global_dsqs : ℕ
max_global_dsqs = 10

-- LSE_DSQ_NON_PERIOD_START, which is also LSE_DSQ_BIG_LOWER
abbrev pub non_period_start : ℕ
non_period_start = 5

-- LSE_DSQ_CLUSTER_SEPARATE_IDX, which is also LSE_DSQ_LITTLE_LOWER
abbrev pub cluster_separate_idx : ℕ
cluster_separate_idx = 8

-- LSE_DSQ_DEFAULT_DEADLINES, the value of `lse_dsq_deadlines`
abbrev pub lse_dsq_deadlines : List ℕ
lse_dsq_deadlines = 0 ∷ 1 ∷ 2 ∷ 4 ∷ 6 ∷ 8 ∷ 16 ∷ 32 ∷ 64 ∷ 128 ∷ []

-- LSE_PCP_DSQ_DEADLINE_MS
abbrev pub lse_pcp_dsq_deadline_ms : ℕ
lse_pcp_dsq_deadline_ms = 20

-- Writes through a pointer.
unfoldable pub put_queue : QueueId → DispatchQ → (QueueId → DispatchQ) → QueueId → DispatchQ
unfolding eq_id
put_queue q v queues r = if eq_id q r then v else queues r

unfoldable pub put_at {ℓ} : {A : Type ℓ} → ℕ → A → (ℕ → A) → ℕ → A
put_at i v f j = if i == j then v else f j

-- list_del_init: the node leaves the list that holds it.
unfoldable pub unlink : ℕ → List ℕ → List ℕ
unlink a [] = []
unlink a (x ∷ xs) = let rest = unlink a xs in if x == a then rest else x ∷ rest

-- the same on all queues: the node names no queue
unfoldable pub list_del : ℕ → (QueueId → DispatchQ) → QueueId → DispatchQ
unfolding unlink
list_del a queues q = record (queues q) { fifo = unlink a (queues q).fifo }
