-- ===== src/Gov/Undo.antt =====
-- The initialisation of the governor where it fails.
use mathlib.Core.Path.{subst}
use lunarkernel_sched_extent.Base.{
  ℕ, ◌≡◌, ◌≢◌, refl, sym, ◌∙◌, false, not, Option, none, ==_iff, if-keeps, Option-cases, inl, inr,
  arith,
}
use lunarkernel_sched_extent.Base.Int.{ℤ, pos, ◌==ℤ◌}
use lunarkernel_sched_extent.Gov.Attach.{
  Held, Answers, AttrSet, err, lse_gov_policy_alloc, enable_fast_switch, lse_gov_kthread_create,
  fail_stopped, init_own, init_tunables, init_allocated, lse_gov_init,
}
use lunarkernel_sched_extent.Gov.Taken.{
  Idle, IsNew, SameHeld, Taken, alloc-Taken, fail_stopped-SameHeld, free-SameHeld,
  kthread_create-Taken, kthread_create-failed, released-Taken,
}

-- The policy has no governor and holds nothing.
init_own-SameHeld :
    (attr : AttrSet) (a : Answers) (id : ℕ) (s u : Held)
    → Idle id s
    → IsNew a.tunables_at s
    → s.global_tunables ≡ none
    → Taken id s u
    → (init_own attr a id u).0 ≢ pos 0
    → SameHeld s (init_own attr a id u).1
unfolding init_own fail_stopped
init_own-SameHeld attr a id s u idle new g v = elim (Option-cases a.tunables_at) [
  | inl e ↦ rw (e, init_own) (λ n. fail_stopped-SameHeld id (err 12) s u idle v)
  | inr (t, e) ↦ elim (Option-cases a.kobject_error) [
    | inl k ↦ rw (e, init_own, k) (λ n. absurd (n refl))
    | inr (errno, k) ↦
        rw (e, init_own, k)
          (λ n. fail_stopped-SameHeld id (err errno) s _ idle (
            released-Taken attr a.per_policy id t s u idle
              (subst (λ (o : Option ℕ). IsNew o s) e new) g v))
  ]
]

init_tunables-SameHeld :
    (attr : AttrSet) (a : Answers) (id : ℕ) (s u : Held)
    → Idle id s
    → IsNew a.tunables_at s
    → Taken id s u
    → (init_tunables attr a id u).0 ≢ pos 0
    → SameHeld s (init_tunables attr a id u).1
unfolding init_tunables fail_stopped
init_tunables-SameHeld attr a id s u idle new v = elim (Option-cases u.global_tunables) [
  | inl e ↦
      rw (e, init_tunables) (init_own-SameHeld attr a id s u idle new (sym v.same_global ∙ e) v)
  | inr (t, e) ↦
      rw (e, init_tunables)
        (if-keeps (λ (r : ℤ × Held). r.0 ≢ pos 0 → SameHeld s r.1) a.per_policy
          (λ _ n. fail_stopped-SameHeld id (err 22) s u idle v) (λ _ n. absurd (n refl)))
]

init_allocated-SameHeld :
    (attr : AttrSet) (a : Answers) (id : ℕ) (s u : Held)
    → Idle id s
    → IsNew a.tunables_at s
    → u.threads id ≡ false
    → Taken id s u
    → (init_allocated attr a id u).0 ≢ pos 0
    → SameHeld s (init_allocated attr a id u).1
unfolding init_allocated
init_allocated-SameHeld attr a id s u idle new n v =
    let created = lse_gov_kthread_create a.thread id u in
    let w = kthread_create-Taken a.thread id s u v in
    if-keeps (λ (r : ℤ × Held). r.0 ≢ pos 0 → SameHeld s r.1) (not (created.0 ==ℤ pos 0))
      (λ f _.
        free-SameHeld id s created.1 idle (kthread_create-failed a.thread id u n (ground arith)) w)
      (λ _. init_tunables-SameHeld attr a id s created.1 idle new w)

-- An initialisation of the governor on a policy that fails, at whichever step, gives back all that it
-- took: the record, the thread, the fast switch and the tunables are as they were, if the policy had
-- no governor, held nothing before, and the tunables allocated are new.
pub init-SameHeld :
    (attr : AttrSet) (a : Answers) (id : ℕ) (s : Held)
    → Idle id s
    → IsNew a.tunables_at s
    → (lse_gov_init attr a id s).0 ≢ pos 0
    → SameHeld s (lse_gov_init attr a id s).1
unfolding lse_gov_init lse_gov_policy_alloc
init-SameHeld attr a id s idle new =
    let fast = enable_fast_switch a.can_fast_switch id s in
    let none_yet = idle.0 in
    rw (none_yet, lse_gov_init)
      (if-keeps (λ (r : ℤ × Held). r.0 ≢ pos 0 → SameHeld s r.1) (not a.policy_allocated)
        (λ _ n. (
          (λ i. refl),
          (λ i. ground (arith, ==_iff id i)),
          (λ i. refl),
          (λ i. refl),
          refl,
          (λ x. refl),
        ))
        (λ _.
          init_allocated-SameHeld attr a id s (lse_gov_policy_alloc id fast) idle new idle.3
            (alloc-Taken a.can_fast_switch id s idle)))
