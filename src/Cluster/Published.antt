-- ===== src/Cluster/Published.antt =====
-- What the ids and the removal of clusters leave in place.

use lunarkernel_sched_extent.Base.{
  ℕ, ◌-◌, ◌≡◌, refl, ◌∙◌, List, [], ◌∷◌, ==_iff, is_member, if◌then◌else◌, arith,
}
use lunarkernel_sched_extent.Kernel.{Kernel}
use lunarkernel_sched_extent.Cluster.Topology.{SchedCluster, cpumask_first}
use lunarkernel_sched_extent.Cluster.Objects.{Clusters, put, detach_cpus, cleanup_clusters}
use lunarkernel_sched_extent.Cluster.Build.{assign_cluster_ids_at}

-- the cluster with the id that the kernel's topology has
abbrev with_id : Kernel → SchedCluster → SchedCluster
with_id k c = record c { id = k.topology_cluster_id (cpumask_first c.cpus) }

pub heap-assign_ids :
    (k : Kernel) (head : List ℕ) (heap : ℕ → SchedCluster) (x : ℕ)
    → assign_cluster_ids_at k head heap x
      ≡ (if is_member x head then with_id k (heap x) else heap x)
unfolding assign_cluster_ids_at
heap-assign_ids k [] heap x = refl
heap-assign_ids k (a ∷ head) heap x =
    ground (arith, heap-assign_ids k head (put a (with_id k (heap a)) heap) x, ==_iff a x)

detach-rest :
    (cpus : List ℕ) (s : Clusters)
    → ((detach_cpus cpus s).heap ≡ s.heap)
      × ((detach_cpus cpus s).lse_cluster_head ≡ s.lse_cluster_head)
unfolding detach_cpus
detach-rest [] s = (refl, refl)
detach-rest (cpu ∷ cpus) s = detach-rest cpus (record s { cluster = put cpu 0 s.cluster })

-- the removal of clusters leaves the objects and the list in place
pub cleanup-rest :
    (head : List ℕ) (s : Clusters)
    → ((cleanup_clusters head s).heap ≡ s.heap)
      × ((cleanup_clusters head s).lse_cluster_head ≡ s.lse_cluster_head)
unfolding cleanup_clusters
cleanup-rest [] s = (refl, refl)
cleanup-rest (a ∷ head) s =
    let t = detach_cpus (s.heap a).cpus s in
    let (heap, list) =
      cleanup-rest head (record t { lse_num_sched_clusters = t.lse_num_sched_clusters - 1 }) in
    let (heap', list') = detach-rest (s.heap a).cpus s in (heap ∙ heap', list ∙ list')
