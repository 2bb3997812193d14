-- ===== src/Cluster/Sorted.antt =====
-- The order of the clusters.
use lunarkernel_sched_extent.Base.{
  ℕ, ◌≤◌, ◌≡◌, ◌≢◌, suc, ◌⊎◌, Option-cases, refl, sym, ap, ◌∙◌, not, List, [], ◌∷◌, Option, some,
  is_empty, is_member, ltb, leb, inl, inr, if-keeps, arith,
}
use lunarkernel_sched_extent.Base.Int.{ℤ}
use lunarkernel_sched_extent.Base.Outcome.{Outcome, done, ◌>>=◌, >>=-eq-done, done-injective}
use lunarkernel_sched_extent.Kernel.{Kernel}
use lunarkernel_sched_extent.Cluster.Topology.{
  SchedCluster, capacity_of, insert_cluster, alloc_new_cluster, size, add_cluster, align_clusters,
  assign_cluster_ids, get_possible_siblings, andnot, make_clusters, update_cluster_topology,
}

-- The capacities rise from `lo` on.
abbrev pub Rising : Kernel → ℕ → List SchedCluster → Type 0
Rising k lo [] = Unit
Rising k lo (c ∷ cs) = (lo ≤ capacity_of k c) × Rising k (capacity_of k c) cs

insert_cluster-Rising :
    (k : Kernel) (lo : ℕ) (c : SchedCluster) (cs : List SchedCluster)
    → lo ≤ capacity_of k c
    → Rising k lo cs
    → Rising k lo (insert_cluster k c cs)
unfolding insert_cluster
insert_cluster-Rising k lo c [] b h = (b, tt)
insert_cluster-Rising k lo c (d ∷ ds) b (p, h) =
    if-keeps (Rising k lo) (ltb (capacity_of k c) (capacity_of k d)) (λ e. (b, (ground arith, h)))
      (λ e. (p, insert_cluster-Rising k (capacity_of k d) c ds (ground arith) h))

-- a property of the value of a call, if it returns
abbrev Returns : Kernel → Outcome (Option (List SchedCluster)) → Type 0
Returns k o = (head : List SchedCluster) → o ≡ done (some head) → Rising k 0 head

make_clusters-Rising :
    (k : Kernel) (cluster_id : ℕ → ℤ) (is cpus : List ℕ) (head : List SchedCluster)
    → Rising k 0 head
    → Returns k (make_clusters k cluster_id is cpus head)
unfolding make_clusters add_cluster
make_clusters-Rising k cluster_id [] cpus head h = λ r e. let same : head ≡ r = cc in rw same at h
make_clusters-Rising k cluster_id (i ∷ is) cpus head h =
    let sib = get_possible_siblings k cluster_id i in
    let added = insert_cluster k (alloc_new_cluster k sib) head in
    if-keeps (Returns k) (not (is_member i cpus))
      (λ q. make_clusters-Rising k cluster_id is cpus head h)
      (λ q.
        if-keeps (Returns k) (is_empty sib) (λ e r f. cc)
          (λ e.
            if-keeps
              (λ (o : Outcome (List SchedCluster)).
                Returns k (o >>= make_clusters k cluster_id is (andnot cpus sib)))
              (leb 4 (size head)) (λ full r f. cc)
              (λ room.
                make_clusters-Rising k cluster_id is (andnot cpus sib) added
                  (insert_cluster-Rising k 0 (alloc_new_cluster k sib) head (omega arith) h))))

assign_ids-Rising :
    (k : Kernel) (lo : ℕ) (cs : List SchedCluster)
    → Rising k lo cs
    → Rising k lo (assign_cluster_ids k cs)
unfolding assign_cluster_ids
assign_ids-Rising k lo [] h = h
assign_ids-Rising k lo (c ∷ cs) (b, h) = (b, assign_ids-Rising k (capacity_of k c) cs h)

size-assign_ids : (k : Kernel) (cs : List SchedCluster) → size (assign_cluster_ids k cs) ≡ size cs
unfolding assign_cluster_ids
size-assign_ids k [] = refl
size-assign_ids k (c ∷ cs) = ap suc (size-assign_ids k cs)

-- Alignment touches only four clusters, and leaves four.
align-cases :
    (k : Kernel) (cs : List SchedCluster)
    → (size (align_clusters k cs) ≡ 4) ⊎ (align_clusters k cs ≡ cs)
unfolding align_clusters
align-cases k [] = inr refl
align-cases k (a ∷ []) = inr refl
align-cases k (a ∷ b ∷ []) = inr refl
align-cases k (a ∷ b ∷ c ∷ []) = inr refl
align-cases k (a ∷ b ∷ c ∷ d ∷ []) = inl (
    if-keeps (λ (cs : List SchedCluster). size cs ≡ 4) (ltb (capacity_of k b) (capacity_of k c))
      (λ e. refl) (λ e. refl))
align-cases k (a ∷ b ∷ c ∷ d ∷ e ∷ rest) = inr refl

-- The clusters stand in the order of their capacities after `update_cluster_topology` has returned,
-- if there are not four of them and the list before it was in order: four are rearranged.
pub topology-Rising :
    (k : Kernel) (cluster_id : ℕ → ℤ) (old cs : List SchedCluster)
    → Rising k 0 old
    → update_cluster_topology k cluster_id old ≡ done cs
    → size cs ≢ 4
    → Rising k 0 cs
unfolding update_cluster_topology
topology-Rising k cluster_id old cs h e n =
    let (made, p, q) =
      >>=-eq-done (make_clusters k cluster_id k.possible_cpus k.possible_cpus []) _ e in
    elim (Option-cases made) [
      | inl none_made ↦ let same = done-injective old cs (rw none_made at q) in rw same at h
      | inr (head, some_made) ↦
          let result = assign_cluster_ids k (align_clusters k head) in
          let same = done-injective result cs (rw some_made at q) in
          let rising =
            make_clusters-Rising k cluster_id k.possible_cpus k.possible_cpus [] tt head
              (rw some_made at p) in
          elim (align-cases k head) [
            | inl four ↦
                absurd (n (ap size (sym same) ∙ size-assign_ids k (align_clusters k head) ∙ four))
            | inr kept ↦
                let there : assign_cluster_ids k head ≡ cs = rw kept at same in
                rw there at (assign_ids-Rising k 0 head rising)
          ]
    ]
