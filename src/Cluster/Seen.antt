-- ===== src/Cluster/Seen.antt =====
-- The clusters as objects, and the list of their addresses, while they are made.
use mathlib.Core.Path.{subst}
use lunarkernel_sched_extent.Base.{
  ℕ, ◌+◌, ◌<◌, ◌≡◌, ◌≢◌, refl, sym, ◌∙◌, true, false, not, ◌||◌, List, [], ◌∷◌, length, leb, Option,
  none, some, ◌==◌, ==_iff, is_empty, is_member, if◌then◌else◌, if-keeps, Bool-cases, inl, inr,
  arith,
}
use lunarkernel_sched_extent.Base.Int.{ℤ}
use lunarkernel_sched_extent.Base.Outcome.{Outcome, done, bug, ◌>>=◌, done-injective}
use lunarkernel_sched_extent.Kernel.{Kernel}
use lunarkernel_sched_extent.Cluster.Topology.{
  SchedCluster, alloc_new_cluster, get_possible_siblings, andnot,
}
use lunarkernel_sched_extent.Cluster.Objects.{Clusters, put, cleanup_clusters}
use lunarkernel_sched_extent.Cluster.Build.{
  insert_cluster_at, attach_cluster, add_cluster_at, make_clusters_at,
}

-- The kernel's allocations succeed, at addresses of their own.
pub record Allocates (kzalloc : ℕ → Option ℕ) (address : ℕ → ℕ) : Type 0 where
  pub given : (n : ℕ) → kzalloc n ≡ some (address n)
  pub apart : (m n : ℕ) → address m ≡ address n → m ≡ n
  pub not_static : (n : ℕ) → address n ≢ 0

-- The clusters of the list were allocated before the n-th allocation.
abbrev pub Owned : (ℕ → ℕ) → ℕ → List ℕ → Type 0
Owned address n head = (a : ℕ) → is_member a head ≡ true → (m : ℕ) × (m < n) × (address m ≡ a)

pub member-insert :
    (k : Kernel) (heap : ℕ → SchedCluster) (a : ℕ) (head : List ℕ) (x : ℕ)
    → is_member x (insert_cluster_at k heap a head) ≡ ((a == x) || is_member x head)
unfolding insert_cluster_at
member-insert k heap a [] x = refl
member-insert k heap a (b ∷ head) x = ground (arith, member-insert k heap a head x)

pub length-insert :
    (k : Kernel) (heap : ℕ → SchedCluster) (a : ℕ) (head : List ℕ)
    → length (insert_cluster_at k heap a head) ≡ length head + 1
unfolding insert_cluster_at
length-insert k heap a [] = omega arith
length-insert k heap a (b ∷ head) = ground (arith, length-insert k heap a head)

module _ (k : Kernel) (kzalloc : ℕ → Option ℕ) (address : ℕ → ℕ)
    (fresh : Allocates kzalloc address) where
  pub absent : (n : ℕ) (head : List ℕ) → Owned address n head → is_member (address n) head ≡ false
  absent n head h = elim (Bool-cases (is_member (address n) head)) [
    | inr out ↦ out
    | inl there ↦ let (m, lt, e) = h (address n) there in absurd (omega (arith, fresh.apart m n e))
  ]

  pub insert-Owned :
      (n : ℕ) (heap : ℕ → SchedCluster) (head : List ℕ)
      → Owned address n head
      → Owned address (n + 1) (insert_cluster_at k heap (address n) head)
  insert-Owned n heap head h a there = elim (Bool-cases (address n == a)) [
    | inl e ↦ (n, omega arith, (==_iff (address n) a).0 e)
    | inr other ↦
        let (m, lt, e) =
          h a (sym (member-insert k heap (address n) head a ∙ rw other refl) ∙ there) in
        (m, omega arith, e)
  ]

  add_at-eq :
      (cpus head : List ℕ) (s : Clusters)
      → add_cluster_at k kzalloc cpus head s ≡ (
          if leb 4 s.lse_num_sched_clusters
          then bug
          else done (attach_cluster k (address s.lse_num_sched_clusters) cpus head s))
  unfolding add_cluster_at
  add_at-eq cpus head s = rw (fresh.given s.lse_num_sched_clusters, add_cluster_at) refl

  pub length-attach :
      (a : ℕ) (cpus head : List ℕ) (s : Clusters)
      → s.lse_num_sched_clusters ≡ length head
      → let r = attach_cluster k a cpus head s in r.1.lse_num_sched_clusters ≡ length r.0
  unfolding attach_cluster
  length-attach a cpus head s num = omega (arith, num, length-insert k _ a head)

  pub attach-Owned :
      (cpus head : List ℕ) (s : Clusters)
      → s.lse_num_sched_clusters ≡ length head
      → Owned address (length head) head
      → let r = attach_cluster k (address s.lse_num_sched_clusters) cpus head s in
        Owned address (length r.0) r.0
  unfolding attach_cluster
  attach-Owned cpus head s num own =
      let a = address (length head) in
      let heap = put a (alloc_new_cluster k cpus) s.heap in
      rw (num, length-insert k heap a head) (insert-Owned (length head) heap head own)

  -- What the loop keeps, if it ends.
  pub make-keeps :
      (cluster_id : ℕ → ℤ) (P : List ℕ → List ℕ → List ℕ → Clusters → Type 0)
      (Q : Option (List ℕ) × Clusters → Type 0)
      → ((i : ℕ) (is cpus head : List ℕ) (s : Clusters)
          → is_member i cpus ≡ false
          → P (i ∷ is) cpus head s
          → P is cpus head s)
      → ((i : ℕ) (is cpus head : List ℕ) (s : Clusters)
          → is_member i cpus ≡ true
          → is_empty (get_possible_siblings k cluster_id i) ≡ false
          → P (i ∷ is) cpus head s
          → let sib = get_possible_siblings k cluster_id i in
            let r = attach_cluster k (address s.lse_num_sched_clusters) sib head s in
            P is (andnot cpus sib) r.0 r.1)
      → ((i : ℕ) (is cpus head : List ℕ) (s : Clusters)
          → is_member i cpus ≡ true
          → is_empty (get_possible_siblings k cluster_id i) ≡ true
          → P (i ∷ is) cpus head s
          → Q (none, cleanup_clusters head s))
      → ((cpus head : List ℕ) (s : Clusters) → P [] cpus head s → Q (some head, s))
      → (is cpus head : List ℕ) (s : Clusters) → P is cpus head s
      → (r : Option (List ℕ) × Clusters)
      → make_clusters_at k kzalloc cluster_id is cpus head s ≡ done r
      → Q r
  unfolding make_clusters_at
  make-keeps cluster_id P Q skip step fail finish [] cpus head s p =
      λ r e. subst Q (done-injective (some head, s) r e) (finish cpus head s p)
  make-keeps cluster_id P Q skip step fail finish (i ∷ is) cpus head s p =
      let sib = get_possible_siblings k cluster_id i in
      let rest = λ (added : List ℕ × Clusters).
        make_clusters_at k kzalloc cluster_id is (andnot cpus sib) added.0 added.1 in
      let Ends = λ (o : Outcome (Option (List ℕ) × Clusters)).
        (r : Option (List ℕ) × Clusters) → o ≡ done r → Q r in
      if-keeps Ends (not (is_member i cpus))
        (λ gone.
          make-keeps cluster_id P Q skip step fail finish is cpus head s
            (skip i is cpus head s (ground arith) p))
        (λ here.
          if-keeps Ends (is_empty sib)
            (λ alone r e.
              subst Q (done-injective (none, cleanup_clusters head s) r e)
                (fail i is cpus head s (ground arith) alone p))
            (λ some_cpus. rw (add_at-eq sib head s) (
              if-keeps (λ (o : Outcome (List ℕ × Clusters)). Ends (o >>= rest))
                (leb 4 s.lse_num_sched_clusters) (λ _ r e. cc)
                (λ _.
                  let added = attach_cluster k (address s.lse_num_sched_clusters) sib head s in
                  make-keeps cluster_id P Q skip step fail finish is (andnot cpus sib) added.0
                    added.1 (step i is cpus head s (ground arith) some_cpus p)))))
