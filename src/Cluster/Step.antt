-- ===== src/Cluster/Step.antt =====
-- What a new cluster changes of the CPUs' pointers.
use lunarkernel_sched_extent.Base.{
  ℕ, ◌≡◌, ap, true, false, List, ◌∷◌, Option, ◌==◌, ==_iff, is_empty, is_member, Bool-cases, inl,
  inr, arith,
}
use lunarkernel_sched_extent.Base.Int.{ℤ, negsuc, ◌==ℤ◌}
use lunarkernel_sched_extent.Kernel.{Kernel}
use lunarkernel_sched_extent.Cluster.Topology.{get_possible_siblings, andnot}
use lunarkernel_sched_extent.Cluster.Objects.{Clusters}
use lunarkernel_sched_extent.Cluster.Build.{attach_cluster}
use lunarkernel_sched_extent.Cluster.Freqs.{member-andnot}
use lunarkernel_sched_extent.Cluster.Seen.{Allocates, length-attach, attach-Owned, absent}
use lunarkernel_sched_extent.Cluster.Parted.{
  ==ℤ_iff, Assigned, Built, attach-Assigned, attach-own, attach_cpus-eq, known_of, member-sib,
}

module _ (k : Kernel) (kzalloc : ℕ → Option ℕ) (address : ℕ → ℕ) (fresh : Allocates kzalloc address)
    (cluster_id : ℕ → ℤ) where
  abbrev sibs : ℕ → List ℕ
  sibs i = get_possible_siblings k cluster_id i

  -- the CPUs that a step of the loop takes
  taken :
      (i : ℕ) (is cpus head : List ℕ) (s : Clusters)
      → Built k cluster_id address (i ∷ is) cpus head s
      → is_member i cpus ≡ true
      → (cluster_id i ==ℤ negsuc 0) ≡ false
      → (j : ℕ) → is_member j (andnot cpus (sibs i)) ≡ true
      → is_member j is ≡ true
  taken i is cpus head s b here known j m = ground (
    arith,
    member-andnot j cpus (sibs i),
    member-sib k cluster_id i i known,
    ==ℤ_iff (cluster_id i) (cluster_id i),
    b.to_come j,
    b.to_come i here,
    b.among i,
    ==_iff i j,
  )

  step-Assigned :
      (i : ℕ) (is cpus head : List ℕ) (s : Clusters)
      → Built k cluster_id address (i ∷ is) cpus head s
      → (cluster_id i ==ℤ negsuc 0) ≡ false
      → (j : ℕ) → is_member j k.possible_cpus ≡ true
      → is_member j (andnot cpus (sibs i)) ≡ false
      → let r = attach_cluster k (address s.lse_num_sched_clusters) (sibs i) head s in
        Assigned k cluster_id r.0 r.1 j
  step-Assigned i is cpus head s b known j p out =
      let a = address s.lse_num_sched_clusters in
      elim (Bool-cases (is_member j (sibs i))) [
        | inl m ↦ attach-own k cluster_id a i head s j known m
        | inr m ↦
            attach-Assigned k cluster_id a (sibs i) head s j
              (absent k kzalloc address fresh s.lse_num_sched_clusters head (rw b.num b.own)) m
              (b.made j p (ground (arith, member-andnot j cpus (sibs i))))
      ]

  pub step-Built :
      (i : ℕ) (is cpus head : List ℕ) (s : Clusters)
      → is_member i cpus ≡ true
      → is_empty (sibs i) ≡ false
      → Built k cluster_id address (i ∷ is) cpus head s
      → let r = attach_cluster k (address s.lse_num_sched_clusters) (sibs i) head s in
        Built k cluster_id address is (andnot cpus (sibs i)) r.0 r.1
  unfolding attach_cluster
  step-Built i is cpus head s here some_cpus b =
      let a = address s.lse_num_sched_clusters in
      let known = known_of k cluster_id i some_cpus in
      let off : (a == 0) ≡ false = ground (arith, fresh.not_static s.lse_num_sched_clusters) in
      record {
        num = length-attach k kzalloc address fresh a (sibs i) head s b.num;
        own = attach-Owned k kzalloc address fresh (sibs i) head s b.num b.own;
        to_come = taken i is cpus head s b here known;
        among = λ j m. b.among j (ground arith);
        static = rw off b.static;
        left = λ j m.
            ground (
              arith,
              attach_cpus-eq a (sibs i) s.cluster j,
              member-andnot j cpus (sibs i),
              b.left j,
            );
        made = step-Assigned i is cpus head s b known;
        same = λ x y p q out e. ground (
          arith,
          attach_cpus-eq a (sibs i) s.cluster x,
          attach_cpus-eq a (sibs i) s.cluster y,
          member-andnot x cpus (sibs i),
          member-sib k cluster_id i x known,
          member-sib k cluster_id i y known,
          ap (λ (z : ℤ). cluster_id i ==ℤ z) e,
          b.same x y p q,
        );
        closed = λ x y p q e. ground (
          arith,
          member-andnot x cpus (sibs i),
          member-andnot y cpus (sibs i),
          member-sib k cluster_id i x known,
          member-sib k cluster_id i y known,
          ap (λ (z : ℤ). cluster_id i ==ℤ z) e,
          b.closed x y p q e,
        );
      }
