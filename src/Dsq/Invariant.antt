-- ===== src/Dsq/Invariant.antt =====
-- The invariant of the dispatch queues of lse_dsq.c, and the lemmas on queues and lists that its
-- proofs share.
use lunarkernel_sched_extent.Base.{
  ℕ, ◌+◌, ◌≡◌, ap, Bool, true, false, List, [], ◌∷◌, Option, none, some, ◌==◌, ==_iff, ==_refl,
  arith, count, length, if◌then◌else◌,
}
use lunarkernel_sched_extent.State.{Lts}
use lunarkernel_sched_extent.Dsq.Queue.{QueueId, global, pcp, eq_id, Dsq, unlink}

pub eq_id_refl : (q : QueueId) → eq_id q q ≡ true
unfolding eq_id
eq_id_refl (global i) = ==_refl i
eq_id_refl (pcp i) = ==_refl i

pub eq_id_eq : (q r : QueueId) → eq_id q r ≡ true → q ≡ r
unfolding eq_id
eq_id_eq (global i) (global j) h = ap global ((==_iff i j).0 h)
eq_id_eq (global i) (pcp j) h = cc
eq_id_eq (pcp i) (global j) h = cc
eq_id_eq (pcp i) (pcp j) h = ap pcp ((==_iff i j).0 h)

pub count-unlink :
    (a b : ℕ) (xs : List ℕ) → count b (unlink a xs) ≡ (if a == b then 0 else count b xs)
unfolding unlink
count-unlink a b [] = ground arith
count-unlink a b (x ∷ xs) = ground (arith, count-unlink a b xs)

pub length-unlink : (a : ℕ) (xs : List ℕ) → length (unlink a xs) + count a xs ≡ length xs
unfolding unlink
length-unlink a [] = omega arith
length-unlink a (x ∷ xs) = ground (arith, length-unlink a xs)

-- How often a task stands in the list of `q`, if `home` is the queue that it waits in.
abbrev pub at_home : Option QueueId → QueueId → ℕ
at_home none q = 0
at_home (some r) q = if eq_id r q then 1 else 0

abbrev pub is_some : Option QueueId → Bool
is_some none = false
is_some (some q) = true

-- `on_dsq` of a task that may have no extension
abbrev pub on_dsq_of : Option Lts → Bool
on_dsq_of none = false
on_dsq_of (some lts) = lts.on_dsq

-- `home` says of each task in which queue it waits, if in any: every task stands once in the list
-- of its home and in no other, `on_dsq` is set of exactly the tasks that wait, and the counter of
-- each queue is the length of its list.
pub record Placed (home : ℕ → Option QueueId) (s : Dsq) : Type 0 where
  pub counted : (q : QueueId) → (s.queues q).nr ≡ length (s.queues q).fifo
  pub located : (q : QueueId) (a : ℕ) → count a (s.queues q).fifo ≡ at_home (home a) q
  pub flagged : (a : ℕ) → on_dsq_of (s.ext a) ≡ is_some (home a)

abbrev pub IsWellFormed : Dsq → Type 0
IsWellFormed s = (home : ℕ → Option QueueId) × Placed home s
