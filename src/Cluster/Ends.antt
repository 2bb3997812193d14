-- ===== src/Cluster/Ends.antt =====
-- How many clusters the set-up of the topology makes.
use lunarkernel_sched_extent.Base.{
  ℕ, ◌+◌, ◌<◌, ◌≤◌, ◌≡◌, refl, Bool, true, false, ◌||◌, List, [], ◌∷◌, length, leb, Option, none,
  some, is_empty, is_member, if◌then◌else◌, Bool-cases, inl, inr, arith,
}
use lunarkernel_sched_extent.Base.Int.{ℤ, negsuc, ◌==ℤ◌}
use lunarkernel_sched_extent.Base.Outcome.{done}
use lunarkernel_sched_extent.Kernel.{Kernel}
use lunarkernel_sched_extent.Cluster.Topology.{
  SchedCluster, insert_cluster, alloc_new_cluster, size, add_cluster, align_clusters,
  assign_cluster_ids, get_possible_siblings, andnot, make_clusters, update_cluster_topology,
}
use lunarkernel_sched_extent.Cluster.Freqs.{member-andnot}
use lunarkernel_sched_extent.Cluster.Parted.{==ℤ_iff, member-sib, known_of}

abbrev pub has_id : ℤ → List ℤ → Bool
has_id x [] = false
has_id x (id ∷ ids) = (id ==ℤ x) || has_id x ids

abbrev without_id : ℤ → List ℤ → List ℤ
without_id x [] = []
without_id x (id ∷ ids) = let rest = without_id x ids in if id ==ℤ x then rest else id ∷ rest

length-without_id : (x : ℤ) (ids : List ℤ) → length (without_id x ids) ≤ length ids
length-without_id x [] = omega arith
length-without_id x (id ∷ ids) = ground (arith, length-without_id x ids)

shorter : (x : ℤ) (ids : List ℤ) → has_id x ids ≡ true → length (without_id x ids) < length ids
shorter x [] h = cc
shorter x (id ∷ ids) h = ground (arith, shorter x ids, length-without_id x ids)

keeps_others :
    (x y : ℤ) (ids : List ℤ)
    → (x ==ℤ y) ≡ false
    → has_id y ids ≡ true
    → has_id y (without_id x ids) ≡ true
keeps_others x y [] n h = h
keeps_others x y (id ∷ ids) n h =
    ground (arith, keeps_others x y ids n, ==ℤ_iff id x, ==ℤ_iff id y, ==ℤ_iff x y)

size-insert :
    (k : Kernel) (c : SchedCluster) (head : List SchedCluster)
    → size (insert_cluster k c head) ≡ size head + 1
unfolding insert_cluster
size-insert k c [] = omega arith
size-insert k c (tmp ∷ rest) = ground (arith, size-insert k c rest)

-- The known ids of the given CPUs are in the list.
abbrev pub Listed : (ℕ → ℤ) → List ℕ → List ℤ → Type 0
Listed cluster_id cpus ids =
    (j : ℕ)
    → is_member j cpus ≡ true
    → (cluster_id j ==ℤ negsuc 0) ≡ false
    → has_id (cluster_id j) ids ≡ true

module _ (k : Kernel) (cluster_id : ℕ → ℤ) where
  abbrev fellows : ℕ → List ℕ
  fellows i = get_possible_siblings k cluster_id i

  left-Listed :
      (i : ℕ) (cpus : List ℕ) (ids : List ℤ)
      → (cluster_id i ==ℤ negsuc 0) ≡ false
      → ((j : ℕ) → is_member j cpus ≡ true → is_member j k.possible_cpus ≡ true)
      → Listed cluster_id cpus ids
      → Listed cluster_id (andnot cpus (fellows i)) (without_id (cluster_id i) ids)
  left-Listed i cpus ids known among h j m known_j = ground (
    arith,
    member-andnot j cpus (fellows i),
    member-sib k cluster_id i j known,
    among j,
    h j,
    keeps_others (cluster_id i) (cluster_id j) ids,
  )

  make-done :
      (is cpus : List ℕ) (head : List SchedCluster) (ids : List ℤ)
      → ((j : ℕ) → is_member j cpus ≡ true → is_member j k.possible_cpus ≡ true)
      → Listed cluster_id cpus ids
      → size head + length ids ≤ 4
      → (made : Option (List SchedCluster)) × (make_clusters k cluster_id is cpus head ≡ done made)
  unfolding make_clusters add_cluster
  make-done [] cpus head ids among h le = (some head, refl)
  make-done (i ∷ is) cpus head ids among h le = elim (Bool-cases (is_member i cpus)) [
    | inr gone ↦ rw gone (make-done is cpus head ids among h le)
    | inl here ↦ elim (Bool-cases (is_empty (fellows i))) [
      | inl alone ↦ rw (here, alone) (none, refl)
      | inr some_cpus ↦
          let known = known_of k cluster_id i some_cpus in
          let fewer = shorter (cluster_id i) ids (h i here known) in
          let room : leb 4 (size head) ≡ false = ground arith in
          let longer = size-insert k (alloc_new_cluster k (fellows i)) head in
          rw (here, some_cpus, room)
            (make-done is (andnot cpus (fellows i))
              (insert_cluster k (alloc_new_cluster k (fellows i)) head)
              (without_id (cluster_id i) ids)
              (λ j m. among j (ground (arith, member-andnot j cpus (fellows i))))
              (left-Listed i cpus ids known among h) (omega (arith, fewer, longer, le)))
    ]
  ]

  -- The topology is set up without a bug if the kernel tells at most four clusters apart among the
  -- possible CPUs, some of which it may not know.
  pub topology-done :
      (ids : List ℤ) (old : List SchedCluster)
      → length ids ≤ 4
      → Listed cluster_id k.possible_cpus ids
      → (cs : List SchedCluster) × (update_cluster_topology k cluster_id old ≡ done cs)
  unfolding update_cluster_topology
  topology-done ids old le h =
      let (made, e) =
        make-done k.possible_cpus k.possible_cpus [] ids (λ j m. m) h (omega (arith, le)) in
      (
        elim made [ none ↦ old | some head ↦ assign_cluster_ids k (align_clusters k head) ],
        rw e refl,
      )
