-- ===== src/Cluster/Init.antt =====
-- Which cluster each CPU points to once the topology is known.
use mathlib.Core.Path.{subst}
use lunarkernel_sched_extent.Base.{
  ℕ, ◌≡◌, refl, ap, ◌∙◌, List, [], ◌∷◌, Option, none, some, ==_iff, is_member, if◌then◌else◌,
  if-keeps, inl, inr, ◌⊎◌, arith,
}
use lunarkernel_sched_extent.Base.Int.{ℤ}
use lunarkernel_sched_extent.Base.Outcome.{done, done-injective, >>=-eq-done}
use lunarkernel_sched_extent.Kernel.{Kernel}
use lunarkernel_sched_extent.Cluster.Topology.{SchedCluster, get_possible_siblings}
use lunarkernel_sched_extent.Cluster.Objects.{
  Clusters, put, initial_cluster, reset_cpus, init_clusters,
}
use lunarkernel_sched_extent.Cluster.Build.{
  align_clusters_at, make_clusters_at, publish, update_cluster_topology_at,
  lse_sched_cluster_init_at,
}
use lunarkernel_sched_extent.Cluster.Freqs.{Partitioned}
use lunarkernel_sched_extent.Cluster.Seen.{Allocates}
use lunarkernel_sched_extent.Cluster.Published.{heap-assign_ids}
use lunarkernel_sched_extent.Cluster.Parted.{member-sib}
use lunarkernel_sched_extent.Cluster.Divided.{AllStatic, Divided, FollowsIds, Unknown, make-Divided}

module _ (k : Kernel) (kzalloc : ℕ → Option ℕ) (address : ℕ → ℕ) (fresh : Allocates kzalloc address)
    (cluster_id : ℕ → ℤ) where
  publish-FollowsIds :
      (head : List ℕ) (s : Clusters)
      → FollowsIds k cluster_id s
      → FollowsIds k cluster_id (publish k head s)
  unfolding publish
  publish-FollowsIds head s (ids, named) =
      let aligned = align_clusters_at k s head in
      (
        ids,
        (λ j p.
            let (mask, known) = named j p in
            (
              rw (heap-assign_ids k aligned s.heap (s.cluster j)) (
                  if-keeps (λ (c : SchedCluster). c.cpus ≡ get_possible_siblings k cluster_id j)
                    (is_member (s.cluster j) aligned) (λ _. mask) (λ _. mask)),
              known,
            )),
      )

  reset-AllStatic :
      (cpus : List ℕ) (s : Clusters)
      → let t = reset_cpus cpus s in
        ((j : ℕ) → t.cluster j ≡ (if is_member j cpus then 0 else s.cluster j))
        × (t.heap ≡ s.heap)
        × (t.lse_num_sched_clusters ≡ s.lse_num_sched_clusters)
  unfolding reset_cpus
  reset-AllStatic [] s = ((λ j. refl), refl, refl)
  reset-AllStatic (cpu ∷ cpus) s =
      let next = record s {
        cluster = put cpu 0 s.cluster;
        freq_domain_cpumask = put cpu (cpu ∷ []) s.freq_domain_cpumask;
      } in
      let (at, heap, num) = reset-AllStatic cpus next in
      ((λ j. ground (arith, at j, ==_iff cpu j)), heap, num)

  init-AllStatic :
      (s : Clusters)
      → s.lse_num_sched_clusters ≡ 0
      → let t = init_clusters k s in (t.lse_num_sched_clusters ≡ 0) × AllStatic k cluster_id t
  unfolding init_clusters initial_cluster
  init-AllStatic s e =
      let start = record s {
        heap = put 0 (initial_cluster k.possible_cpus) s.heap;
        lse_cluster_head = 0 ∷ [];
      } in
      let (at, heap, num) = reset-AllStatic k.possible_cpus start in
      (num ∙ e, ((λ j p. at j ∙ rw p refl), ap (λ (f : ℕ → SchedCluster). (f 0).cpus) heap))

  followed-Partitioned : (s : Clusters) → FollowsIds k cluster_id s → Partitioned k.possible_cpus s
  followed-Partitioned s (ids, named) i j p q =
      let (mask, known) = named i p in
      ap (is_member j) mask ∙ member-sib k cluster_id i j known ∙ rw (q, ids i j p q) refl

  static-Partitioned : (s : Clusters) → AllStatic k cluster_id s → Partitioned k.possible_cpus s
  static-Partitioned s (all, static) i j p q = rw (all i p, all j q, static) q

  told-Partitioned :
      (made : Option (List ℕ) × Clusters) (t : Clusters)
      → Divided k kzalloc address fresh cluster_id made
      → elim made.0 [ none ↦ made.1 | some head ↦ publish k head made.1 ] ≡ t
      → Partitioned k.possible_cpus t
        × (FollowsIds k cluster_id t
            ⊎ (AllStatic k cluster_id t × (i : ℕ) × Unknown k cluster_id i))
  told-Partitioned (none, s) t (static, i, unknown) e =
      subst
        (λ (u : Clusters).
          Partitioned k.possible_cpus u
          × (FollowsIds k cluster_id u
              ⊎ (AllStatic k cluster_id u × (x : ℕ) × Unknown k cluster_id x)))
        e (static-Partitioned s static, inr (static, i, unknown))
  told-Partitioned (some head, s) t follows e =
      let f = publish-FollowsIds head s follows in
      subst
        (λ (u : Clusters).
          Partitioned k.possible_cpus u
          × (FollowsIds k cluster_id u
              ⊎ (AllStatic k cluster_id u × (x : ℕ) × Unknown k cluster_id x)))
        e (followed-Partitioned (publish k head s) f, inl f)

  -- If the topology is set up without a bug, from no counted cluster and with allocations at
  -- addresses of their own, each possible CPU points to a cluster that names, of the possible CPUs,
  -- those that point to it. Either the kernel knows the clusters of all of them, and they share a
  -- cluster where they have the same id and its mask is that of the CPUs of the id, or there is one
  -- that it does not know, and all point to the static cluster.
  pub init-Partitioned :
      (s t : Clusters)
      → s.lse_num_sched_clusters ≡ 0
      → lse_sched_cluster_init_at k kzalloc cluster_id s ≡ done t
      → Partitioned k.possible_cpus t
        × (FollowsIds k cluster_id t
            ⊎ (AllStatic k cluster_id t × (i : ℕ) × Unknown k cluster_id i))
  unfolding lse_sched_cluster_init_at update_cluster_topology_at
  init-Partitioned s t num e =
      let start = init_clusters k s in
      let (none_yet, static) = init-AllStatic s num in
      let told = λ (made : Option (List ℕ) × Clusters).
        done (elim made.0 [ none ↦ made.1 | some head ↦ publish k head made.1 ]) in
      let (made, from, rest) =
        >>=-eq-done (make_clusters_at k kzalloc cluster_id k.possible_cpus k.possible_cpus [] start)
          told e in
      told-Partitioned made t
        (make-Divided k kzalloc address fresh cluster_id start none_yet static made from)
        (done-injective (elim made.0 [ none ↦ made.1 | some head ↦ publish k head made.1 ]) t rest)
