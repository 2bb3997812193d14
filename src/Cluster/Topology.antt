-- ===== src/Cluster/Topology.antt =====
-- The clusters of CPUs: `alloc_new_cluster` to `update_cluster_topology` of lse_sched_cluster.c.
use lunarkernel_sched_extent.Base.{
  ℕ, suc, Bool, false, not, List, [], ◌∷◌, ltb, leb, Option, none, some, is_empty, is_member,
  if◌then◌else◌,
}
use lunarkernel_sched_extent.Base.Int.{ℤ, negsuc, ◌==ℤ◌}
use lunarkernel_sched_extent.Base.Outcome.{Outcome, done, bug, ◌>>=◌}
use lunarkernel_sched_extent.Kernel.{Kernel}

-- struct lse_sched_cluster, without its lock, its notifiers and its place in the list.
pub record SchedCluster : Type 0 where
  pub id : ℕ
  pub cpus : List ℕ
  pub max_possible_capacity : ℕ
  pub cur_freq : ℕ
  pub max_freq : ℕ
  pub min_freq : ℕ
  pub freq_init_done : Bool
  pub capacity_margin : ℕ
  pub sd_capacity_margin : ℕ

-- cpumask_first; a cluster is not empty.
abbrev pub cpumask_first : List ℕ → ℕ
cpumask_first [] = 0
cpumask_first (cpu ∷ cpus) = cpu

abbrev pub capacity_of : Kernel → SchedCluster → ℕ
capacity_of k cluster = k.arch_scale_cpu_capacity (cpumask_first cluster.cpus)

unfoldable pub insert_cluster : Kernel → SchedCluster → List SchedCluster → List SchedCluster
insert_cluster k cluster [] = cluster ∷ []
insert_cluster k cluster (tmp ∷ rest) =
    let behind = insert_cluster k cluster rest in
    if ltb (capacity_of k cluster) (capacity_of k tmp) then cluster ∷ tmp ∷ rest else tmp ∷ behind

unfoldable pub alloc_new_cluster : Kernel → List ℕ → SchedCluster
alloc_new_cluster k cpus = record {
  id = 0;
  cpus = cpus;
  max_possible_capacity = k.arch_scale_cpu_capacity (cpumask_first cpus);
  cur_freq = 1;
  max_freq = 1;
  min_freq = 1;
  freq_init_done = false;
  capacity_margin = 1280;
  sd_capacity_margin = 1280;
}

abbrev pub size : List SchedCluster → ℕ
size [] = 0
size (c ∷ cs) = suc (size cs)

-- The list is its own counter `lse_num_sched_clusters`, and `lrq->cluster` of a CPU is the
-- cluster in the list that has the CPU.
unfoldable pub add_cluster : Kernel → List ℕ → List SchedCluster → Outcome (List SchedCluster)
unfolding insert_cluster alloc_new_cluster
add_cluster k cpus head =
    if leb 4 (size head) then bug else done (insert_cluster k (alloc_new_cluster k cpus) head)

-- `list_swap` of the second and the third of four clusters
unfoldable pub align_clusters : Kernel → List SchedCluster → List SchedCluster
align_clusters k (a ∷ b ∷ c ∷ d ∷ []) =
    if ltb (capacity_of k b) (capacity_of k c) then a ∷ c ∷ b ∷ d ∷ [] else a ∷ b ∷ c ∷ d ∷ []
align_clusters k head = head

unfoldable pub assign_cluster_ids : Kernel → List SchedCluster → List SchedCluster
assign_cluster_ids k [] = []
assign_cluster_ids k (c ∷ cs) =
    record c { id = k.topology_cluster_id (cpumask_first c.cpus) } ∷ assign_cluster_ids k cs

-- the loop over the CPUs of `get_possible_siblings`; `cluster_id` is that of `cpu_topology`
unfoldable pub siblings : (ℕ → ℤ) → ℤ → List ℕ → List ℕ
siblings cluster_id own [] = []
siblings cluster_id own (cpu ∷ cpus) =
    let rest = siblings cluster_id own cpus in if own ==ℤ cluster_id cpu then cpu ∷ rest else rest

unfoldable pub get_possible_siblings : Kernel → (ℕ → ℤ) → ℕ → List ℕ
unfolding siblings
get_possible_siblings k cluster_id cpuid =
    if cluster_id cpuid ==ℤ negsuc 0
    then []
    else siblings cluster_id (cluster_id cpuid) k.possible_cpus

-- cpumask_andnot
unfoldable pub andnot : List ℕ → List ℕ → List ℕ
andnot [] gone = []
andnot (cpu ∷ cpus) gone =
    let rest = andnot cpus gone in if is_member cpu gone then rest else cpu ∷ rest

-- The loop over the CPUs that are left; `none` where a CPU has no siblings and the clusters made so
-- far are cleaned up.
unfoldable pub make_clusters :
    Kernel → (ℕ → ℤ) → List ℕ → List ℕ → List SchedCluster → Outcome (Option (List SchedCluster))
make_clusters k cluster_id [] cpus head = done (some head)
make_clusters k cluster_id (i ∷ is) cpus head =
    let cluster_cpus = get_possible_siblings k cluster_id i in
    if not (is_member i cpus)
    then make_clusters k cluster_id is cpus head
    else if is_empty cluster_cpus
    then done none
    else (add_cluster k cluster_cpus head
        >>= make_clusters k cluster_id is (andnot cpus cluster_cpus))

-- `old` is the list behind `lse_cluster_head` before the call.
unfoldable pub update_cluster_topology :
    Kernel → (ℕ → ℤ) → List SchedCluster → Outcome (List SchedCluster)
update_cluster_topology k cluster_id old =
    make_clusters k cluster_id k.possible_cpus k.possible_cpus [] >>= λ made.
    done (elim made [ none ↦ old | some head ↦ assign_cluster_ids k (align_clusters k head) ])
