-- ===== src/Gov/Taken.antt =====
-- What the initialisation of the governor holds before it has tunables, and what releasing it leaves.

use lunarkernel_sched_extent.Base.{
  ℕ, ◌≡◌, refl, Bool, true, false, ◌&&◌, Option, none, some, ◌==◌, ==_iff, if◌then◌else◌, if-keeps,
  arith,
}
use lunarkernel_sched_extent.Base.Int.{ℤ, pos, ◌==ℤ◌}
use lunarkernel_sched_extent.Gov.Attach.{
  Held, ThreadResult, create_failed, sched_failed, runs, AttrSet, lse_gov_policy_alloc,
  lse_gov_policy_free, enable_fast_switch, disable_fast_switch, put_thread, lse_gov_kthread_create,
  lse_gov_kthread_stop, lse_gov_tunables_alloc, lse_gov_tunables_free, attach, set_values,
  default_tunables, fail_stopped,
}

abbrev pub Idle : ℕ → Held → Type 0
Idle id s =
    (s.governor_data id ≡ none)
    × (s.fast_switch_enabled id ≡ false)
    × (s.policy_records id ≡ false)
    × (s.threads id ≡ false)

-- The address that the allocator returns is new.
abbrev pub IsNew : Option ℕ → Held → Type 0
IsNew none s = Unit
IsNew (some t) s = s.tunables t ≡ none

-- Both states hold the same.
abbrev pub SameHeld : Held → Held → Type 0
SameHeld s t =
    ((i : ℕ) → t.governor_data i ≡ s.governor_data i)
    × ((i : ℕ) → t.fast_switch_enabled i ≡ s.fast_switch_enabled i)
    × ((i : ℕ) → t.policy_records i ≡ s.policy_records i)
    × ((i : ℕ) → t.threads i ≡ s.threads i)
    × (t.global_tunables ≡ s.global_tunables)
    × ((x : ℕ) → t.tunables x ≡ s.tunables x)

-- The second state holds for the policy, besides what the first does, at most a fast switch, a
-- record and, without a fast switch, a thread.
pub record Taken (id : ℕ) (s t : Held) : Type 0 where
  pub same_data : (i : ℕ) → t.governor_data i ≡ s.governor_data i
  pub fast :
      (i : ℕ)
      → t.fast_switch_enabled i
        ≡ (if id == i then t.fast_switch_enabled id else s.fast_switch_enabled i)
  pub records :
      (i : ℕ) → t.policy_records i ≡ (if id == i then t.policy_records id else s.policy_records i)
  pub thread : (i : ℕ) → t.threads i ≡ (if id == i then t.threads id else s.threads i)
  pub slow_thread : (t.fast_switch_enabled id && t.threads id) ≡ false
  pub same_global : t.global_tunables ≡ s.global_tunables
  pub same_tunables : (x : ℕ) → t.tunables x ≡ s.tunables x

pub fail_stopped-SameHeld :
    (id : ℕ) (ret : ℤ) (s t : Held)
    → Idle id s
    → Taken id s t
    → SameHeld s (fail_stopped id ret t).1
unfolding fail_stopped lse_gov_policy_free lse_gov_kthread_stop
fail_stopped-SameHeld id ret s t idle v = (
  (λ i. ground (arith, v.same_data i)),
  (λ i. ground (arith, v.fast i, ==_iff id i)),
  (λ i. ground (arith, v.records i, ==_iff id i)),
  (λ i. ground (arith, v.thread i, ==_iff id i)),
  ground (arith, v.same_global),
  (λ x. ground (arith, v.same_tunables x)),
)

pub alloc-Taken :
    (can : Bool) (id : ℕ) (s : Held)
    → Idle id s
    → Taken id s (lse_gov_policy_alloc id (enable_fast_switch can id s))
unfolding lse_gov_policy_alloc
alloc-Taken can id s idle = record {
  same_data = λ i. refl;
  fast = λ i. ground (arith, ==_iff id i);
  records = λ i. ground (arith, ==_iff id i);
  thread = λ i. ground (arith, ==_iff id i);
  slow_thread = ground arith;
  same_global = refl;
  same_tunables = λ x. refl;
}

pub put_thread-Taken :
    (up : Bool) (id : ℕ) (s t : Held)
    → t.fast_switch_enabled id ≡ false
    → Taken id s t
    → Taken id s (put_thread id up t)
put_thread-Taken up id s t slow v = record {
  same_data = v.same_data;
  fast = v.fast;
  records = v.records;
  thread = λ i. ground (arith, v.thread i, ==_iff id i);
  slow_thread = ground arith;
  same_global = v.same_global;
  same_tunables = v.same_tunables;
}

pub kthread_create-Taken :
    (r : ThreadResult) (id : ℕ) (s t : Held)
    → Taken id s t
    → Taken id s (lse_gov_kthread_create r id t).1
unfolding lse_gov_kthread_create
kthread_create-Taken (create_failed errno) id s t v =
    if-keeps (λ (p : ℤ × Held). Taken id s p.1) (t.fast_switch_enabled id) (λ _. v) (λ _. v)
kthread_create-Taken (sched_failed errno) id s t v =
    if-keeps (λ (p : ℤ × Held). Taken id s p.1) (t.fast_switch_enabled id) (λ _. v)
      (λ slow.
        put_thread-Taken false id s (put_thread id true t) slow
          (put_thread-Taken true id s t slow v))
kthread_create-Taken runs id s t v =
    if-keeps (λ (p : ℤ × Held). Taken id s p.1) (t.fast_switch_enabled id) (λ _. v)
      (λ slow. put_thread-Taken true id s t slow v)

-- A thread that does not come up is not there.
pub kthread_create-failed :
    (r : ThreadResult) (id : ℕ) (t : Held)
    → t.threads id ≡ false
    → ((lse_gov_kthread_create r id t).0 ==ℤ pos 0) ≡ false
    → (lse_gov_kthread_create r id t).1.threads id ≡ false
unfolding lse_gov_kthread_create
kthread_create-failed (create_failed errno) id t n e = ground arith
kthread_create-failed (sched_failed errno) id t n e = ground (arith, ==_iff id id)
kthread_create-failed runs id t n e = ground arith

pub free-SameHeld :
    (id : ℕ) (s t : Held)
    → Idle id s
    → t.threads id ≡ false
    → Taken id s t
    → SameHeld s (disable_fast_switch id (lse_gov_policy_free id t))
unfolding lse_gov_policy_free
free-SameHeld id s t idle n v = (
  v.same_data,
  (λ i. ground (arith, v.fast i, ==_iff id i)),
  (λ i. ground (arith, v.records i, ==_iff id i)),
  (λ i. ground (arith, v.thread i, ==_iff id i)),
  v.same_global,
  v.same_tunables,
)

-- New tunables that are released again leave nothing.
pub released-Taken :
    (attr : AttrSet) (per_policy : Bool) (id t : ℕ) (s u : Held)
    → Idle id s
    → IsNew (some t) s
    → s.global_tunables ≡ none
    → Taken id s u
    → Taken id s (
        lse_gov_tunables_free per_policy t (
          attach id none (
            attach id
              (some t)
              (set_values t default_tunables (lse_gov_tunables_alloc attr per_policy t u)))))
unfolding lse_gov_tunables_free lse_gov_tunables_alloc
released-Taken attr per_policy id t s u idle new g v = record {
  same_data = λ i. ground (arith, v.same_data i, ==_iff id i);
  fast = v.fast;
  records = v.records;
  thread = v.thread;
  slow_thread = v.slow_thread;
  same_global = ground (arith, v.same_global);
  same_tunables = λ x. ground (arith, v.same_tunables x, ==_iff t x);
}
