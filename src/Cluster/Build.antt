-- ===== src/Cluster/Build.antt =====
-- The topology on the clusters as objects: `insert_cluster` to `lse_sched_cluster_init` of
-- lse_sched_cluster.c, with the pointers of the CPUs.
use lunarkernel_sched_extent.Base.{
  ℕ, ◌+◌, not, List, [], ◌∷◌, ltb, leb, Option, none, some, ◌==◌, is_empty, is_member,
  if◌then◌else◌,
}
use lunarkernel_sched_extent.Base.Int.{ℤ}
use lunarkernel_sched_extent.Base.Outcome.{Outcome, done, bug, ◌>>=◌}
use lunarkernel_sched_extent.Kernel.{Kernel}
use lunarkernel_sched_extent.Cluster.Topology.{
  SchedCluster, cpumask_first, capacity_of, alloc_new_cluster, get_possible_siblings, andnot,
}
use lunarkernel_sched_extent.Cluster.Objects.{Clusters, put, init_clusters, cleanup_clusters}

unfoldable pub insert_cluster_at : Kernel → (ℕ → SchedCluster) → ℕ → List ℕ → List ℕ
insert_cluster_at k heap a [] = a ∷ []
insert_cluster_at k heap a (tmp ∷ rest) =
    let behind = insert_cluster_at k heap a rest in
    if ltb (capacity_of k (heap a)) (capacity_of k (heap tmp)) then a ∷ tmp ∷ rest else tmp ∷ behind

-- for_each_cpu(i, cpus)
unfoldable pub attach_cpus : ℕ → List ℕ → (ℕ → ℕ) → ℕ → ℕ
attach_cpus a [] cluster = cluster
attach_cpus a (cpu ∷ cpus) cluster = attach_cpus a cpus (put cpu a cluster)

-- the cluster that was allocated at `a`
unfoldable pub attach_cluster : Kernel → ℕ → List ℕ → List ℕ → Clusters → List ℕ × Clusters
unfolding insert_cluster_at attach_cpus alloc_new_cluster
attach_cluster k a cpus head s =
    let heap = put a (alloc_new_cluster k cpus) s.heap in
    (
      insert_cluster_at k heap a head,
      record s {
        heap = heap;
        cluster = attach_cpus a cpus s.cluster;
        lse_num_sched_clusters = s.lse_num_sched_clusters + 1;
      },
    )

-- `kzalloc` gives the address of each allocation, counted from 0, or none; no cluster was freed
-- before.
unfoldable pub add_cluster_at :
    Kernel → (ℕ → Option ℕ) → List ℕ → List ℕ → Clusters → Outcome (List ℕ × Clusters)
unfolding attach_cluster
add_cluster_at k kzalloc cpus head s = elim (kzalloc s.lse_num_sched_clusters) [
  | none ↦ bug
  | some a ↦ if leb 4 s.lse_num_sched_clusters then bug else done (attach_cluster k a cpus head s)
]

-- the loop over the list, and the swap
unfoldable pub swap_middle : Kernel → (ℕ → SchedCluster) → List ℕ → List ℕ
swap_middle k heap [] = []
swap_middle k heap (a ∷ []) = a ∷ []
swap_middle k heap (a ∷ b ∷ []) = a ∷ b ∷ []
swap_middle k heap (a ∷ b ∷ c ∷ rest) =
    if ltb (capacity_of k (heap b)) (capacity_of k (heap c))
    then a ∷ c ∷ b ∷ rest
    else a ∷ b ∷ c ∷ rest

unfoldable pub align_clusters_at : Kernel → Clusters → List ℕ → List ℕ
unfolding swap_middle
align_clusters_at k s head =
    if not (s.lse_num_sched_clusters == 4) then head else swap_middle k s.heap head

unfoldable pub assign_cluster_ids_at : Kernel → List ℕ → (ℕ → SchedCluster) → ℕ → SchedCluster
assign_cluster_ids_at k [] heap = heap
assign_cluster_ids_at k (a ∷ head) heap =
    let id = k.topology_cluster_id (cpumask_first (heap a).cpus) in
    assign_cluster_ids_at k head (put a (record (heap a) { id = id }) heap)

-- The loop over the CPUs that are left, with the new list; `none` where a CPU has no siblings and
-- the clusters made so far were cleaned up.
unfoldable pub make_clusters_at :
    Kernel
    → (ℕ → Option ℕ)
    → (ℕ → ℤ)
    → List ℕ
    → List ℕ
    → List ℕ
    → Clusters
    → Outcome (Option (List ℕ) × Clusters)
unfolding add_cluster_at andnot get_possible_siblings
make_clusters_at k kzalloc cluster_id [] cpus head s = done (some head, s)
make_clusters_at k kzalloc cluster_id (i ∷ is) cpus head s =
    let cluster_cpus = get_possible_siblings k cluster_id i in
    if not (is_member i cpus)
    then make_clusters_at k kzalloc cluster_id is cpus head s
    else if is_empty cluster_cpus
    then done (none, cleanup_clusters head s)
    else (add_cluster_at k kzalloc cluster_cpus head s >>= λ added.
        make_clusters_at k kzalloc cluster_id is (andnot cpus cluster_cpus) added.0 added.1)

-- what follows the loop
unfoldable pub publish : Kernel → List ℕ → Clusters → Clusters
unfolding align_clusters_at assign_cluster_ids_at
publish k head s =
    let aligned = align_clusters_at k s head in
    record s { heap = assign_cluster_ids_at k aligned s.heap; lse_cluster_head = aligned }

unfoldable pub update_cluster_topology_at :
    Kernel → (ℕ → Option ℕ) → (ℕ → ℤ) → Clusters → Outcome Clusters
unfolding make_clusters_at publish
update_cluster_topology_at k kzalloc cluster_id s = do
  made ← make_clusters_at k kzalloc cluster_id k.possible_cpus k.possible_cpus [] s
  done (elim made.0 [ none ↦ made.1 | some head ↦ publish k head made.1 ])

-- without the registration of the notifiers
unfoldable pub lse_sched_cluster_init_at :
    Kernel → (ℕ → Option ℕ) → (ℕ → ℤ) → Clusters → Outcome Clusters
unfolding update_cluster_topology_at init_clusters
lse_sched_cluster_init_at k kzalloc cluster_id s =
    update_cluster_topology_at k kzalloc cluster_id (init_clusters k s)
