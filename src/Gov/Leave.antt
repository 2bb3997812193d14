-- ===== src/Gov/Leave.antt =====
-- An exit of the governor gives back all that the initialisation took.
use mathlib.Core.Path.{subst}
use lunarkernel_sched_extent.Base.{
  ℕ, ◌<◌, ◌≡◌, refl, sym, ◌∙◌, Bool, true, false, not, Option, none, some, ◌==◌, ==_iff, if-keeps,
  Option-cases, inl, inr, arith,
}
use lunarkernel_sched_extent.Base.Int.{ℤ, pos, ◌==ℤ◌}
use lunarkernel_sched_extent.Base.Outcome.{done}
use lunarkernel_sched_extent.Gov.Attach.{
  TunablesSet, Held, Answers, AttrSet, attach, set_values, set_count, default_tunables,
  lse_gov_policy_alloc, lse_gov_policy_free, enable_fast_switch, lse_gov_kthread_create,
  lse_gov_kthread_stop, lse_gov_tunables_alloc, lse_gov_tunables_free, lse_gov_tunables_save,
  cache_cpus, lse_gov_cpu_reset, fail_stopped, init_own, init_tunables, init_allocated,
  lse_gov_init,
}
use lunarkernel_sched_extent.Gov.Detach.{Left, count_of, release_tunables, tear_down, lse_gov_exit}
use lunarkernel_sched_extent.Gov.Taken.{
  Idle, IsNew, SameHeld, Taken, alloc-Taken, kthread_create-Taken,
}

-- What the kernel's functions do to the usage count: it starts at 1 user, and the put undoes the get.
abbrev pub Counts : AttrSet → Type 0
Counts attr = (attr.set_put attr.set_init ≡ 0) × ((n : ℕ) → attr.set_put (attr.set_get n) ≡ n)

-- Global tunables exist and are in use.
abbrev pub GlobalOk : Option ℕ → Held → Type 0
GlobalOk none s = Unit
GlobalOk (some t) s = (set : TunablesSet) × (s.tunables t ≡ some set) × (0 < set.usage_count)

tear_down-SameHeld :
    (p : Left) (s t : Held) → Idle p.id s → Taken p.id s t → SameHeld s (tear_down p t)
unfolding tear_down lse_gov_policy_free lse_gov_cpu_reset lse_gov_kthread_stop
tear_down-SameHeld p s t idle v = (
  (λ i. ground (arith, v.same_data i)),
  (λ i. ground (arith, v.fast i, ==_iff p.id i)),
  (λ i. ground (arith, v.records i, ==_iff p.id i)),
  (λ i. ground (arith, v.thread i, ==_iff p.id i)),
  ground (arith, v.same_global),
  (λ x. ground (arith, v.same_tunables x)),
)

-- new tunables, in use by the policy alone
abbrev own_set : AttrSet → Bool → ℕ → ℕ → Held → Held
own_set attr per_policy id t u =
    attach id (some t) (set_values t default_tunables (lse_gov_tunables_alloc attr per_policy t u))

own_count :
    (attr : AttrSet) (per_policy : Bool) (id t : ℕ) (u : Held)
    → Counts attr
    → (count_of t (attach id none (set_count t attr.set_put (own_set attr per_policy id t u))) == 0)
      ≡ true
unfolding lse_gov_tunables_alloc
own_count attr per_policy id t u counts = ground (arith, ==_iff t t)

own_free-Taken :
    (attr : AttrSet) (per_policy : Bool) (id t : ℕ) (s u : Held) (cached dvfs : ℕ → Bool)
    → Idle id s
    → IsNew (some t) s
    → s.global_tunables ≡ none
    → Taken id s u
    → Taken id s (
        lse_gov_tunables_free per_policy t
          (record (attach id none (set_count t attr.set_put (own_set attr per_policy id t u))) {
            cached_tunables = cached;
            dvfs_possible_from_any_cpu = dvfs;
          }))
unfolding lse_gov_tunables_free lse_gov_tunables_alloc
own_free-Taken attr per_policy id t s u cached dvfs idle new g v = record {
  same_data = λ i. ground (arith, v.same_data i, ==_iff id i);
  fast = v.fast;
  records = v.records;
  thread = v.thread;
  slow_thread = v.slow_thread;
  same_global = ground (arith, v.same_global);
  same_tunables = λ x. ground (arith, v.same_tunables x, ==_iff t x);
}

own_release-Taken :
    (attr : AttrSet) (per_policy ok : Bool) (p : Left) (t : ℕ) (s u : Held) (dvfs : ℕ → Bool)
    → Counts attr
    → Idle p.id s
    → IsNew (some t) s
    → s.global_tunables ≡ none
    → Taken p.id s u
    → Taken p.id s (
        release_tunables attr per_policy ok p t
          (record (own_set attr per_policy p.id t u) { dvfs_possible_from_any_cpu = dvfs }))
unfolding release_tunables lse_gov_tunables_save lse_gov_tunables_alloc
own_release-Taken attr per_policy ok p t s u dvfs counts idle new g v =
    let free =
      λ (cached : ℕ → Bool). own_free-Taken attr per_policy p.id t s u cached dvfs idle new g v in
    rw (own_count attr per_policy p.id t u counts) (
      if-keeps (λ (h : Held). Taken p.id s (lse_gov_tunables_free per_policy t h))
        (u.cached_tunables p.cpu) (λ _. free u.cached_tunables)
        (λ _.
          if-keeps (λ (h : Held). Taken p.id s (lse_gov_tunables_free per_policy t h)) (not ok)
            (λ _. free u.cached_tunables)
            (λ _. free (cache_cpus p.related_cpus u.cached_tunables))))

-- one more user of the global tunables, who leaves again
shared_release-Taken :
    (attr : AttrSet) (per_policy ok : Bool) (p : Left) (t : ℕ) (s u : Held)
    → Counts attr
    → Idle p.id s
    → GlobalOk (some t) s
    → Taken p.id s u
    → Taken p.id s (
        release_tunables attr per_policy ok p t (set_count t attr.set_get (attach p.id (some t) u)))
unfolding release_tunables
shared_release-Taken attr per_policy ok p t s u counts idle (set, there, used) v =
    let own : u.tunables t ≡ some set = v.same_tunables t ∙ there in
    let back = counts.1 set.usage_count in
    let left =
      attach p.id none
        (set_count t attr.set_put (set_count t attr.set_get (attach p.id (some t) u))) in
    let count : (count_of t left == 0) ≡ false = ground (arith, ==_iff t t) in
    rw count (record {
      same_data = λ i. ground (arith, v.same_data i, ==_iff p.id i);
      fast = v.fast;
      records = v.records;
      thread = v.thread;
      slow_thread = v.slow_thread;
      same_global = v.same_global;
      same_tunables = λ x. ground (arith, v.same_tunables x, ==_iff t x);
    })

failed-nonzero : (ret : ℤ) → not (ret ==ℤ pos 0) ≡ true → ret ≡ pos 0 → ⊥
failed-nonzero ret f e = let zero_is : (ret ==ℤ pos 0) ≡ true = rw e refl in cc (f, zero_is)

module _ (attr : AttrSet) (a : Answers) (ok : Bool) (p : Left) (s : Held) where
  -- after which the exit gives back what was taken
  abbrev Returns : Held → Type 0
  Returns u = (s' : Held) × (lse_gov_exit attr a.per_policy ok p u ≡ done s') × SameHeld s s'

  exit-Returns :
      (t : ℕ) (u : Held)
      → u.governor_data p.id ≡ some t
      → Idle p.id s
      → Taken p.id s (release_tunables attr a.per_policy ok p t u)
      → Returns u
  unfolding lse_gov_exit
  exit-Returns t u e idle v =
      rw (e, lse_gov_exit)
        (
          tear_down p (release_tunables attr a.per_policy ok p t u),
          refl,
          tear_down-SameHeld p s (release_tunables attr a.per_policy ok p t u) idle v,
        )

  init_own-Returns :
      (u : Held)
      → Counts attr
      → Idle p.id s
      → IsNew a.tunables_at s
      → s.global_tunables ≡ none
      → Taken p.id s u
      → (init_own attr a p.id u).0 ≡ pos 0
      → Returns (init_own attr a p.id u).1
  unfolding init_own fail_stopped
  init_own-Returns u counts idle new g v = elim (Option-cases a.tunables_at) [
    | inl e ↦ rw (e, init_own) (λ q. cc)
    | inr (t, e) ↦ elim (Option-cases a.kobject_error) [
      | inl k ↦
          rw (e, init_own, k)
            (λ q. exit-Returns t _ (ground (arith, ==_iff p.id p.id)) idle (
              own_release-Taken attr a.per_policy ok p t s u _ counts idle
                (subst (λ (o : Option ℕ). IsNew o s) e new) g v))
      | inr (errno, k) ↦ rw (e, init_own, k) (λ q. cc)
    ]
  ]

  init_tunables-Returns :
      (u : Held)
      → Counts attr
      → Idle p.id s
      → IsNew a.tunables_at s
      → GlobalOk s.global_tunables s
      → Taken p.id s u
      → (init_tunables attr a p.id u).0 ≡ pos 0
      → Returns (init_tunables attr a p.id u).1
  unfolding init_tunables fail_stopped
  init_tunables-Returns u counts idle new global v = elim (Option-cases u.global_tunables) [
    | inl e ↦ rw (e, init_tunables) (init_own-Returns u counts idle new (sym v.same_global ∙ e) v)
    | inr (t, e) ↦
        rw (e, init_tunables)
          (if-keeps (λ (r : ℤ × Held). r.0 ≡ pos 0 → Returns r.1) a.per_policy (λ _ q. cc)
            (λ _ q. exit-Returns t _ (ground (arith, ==_iff p.id p.id)) idle (
              shared_release-Taken attr a.per_policy ok p t s u counts idle
                (subst (λ (o : Option ℕ). GlobalOk o s) (sym v.same_global ∙ e) global) v)))
  ]

  -- An exit of the governor after an initialisation that succeeded ends without a fault and gives
  -- back all that was taken: the record, the thread, the fast switch, and the tunables, which are
  -- freed where the policy was their last user and keep their count where they are shared. The
  -- policy had no governor and held nothing before, tunables allocated are new, global tunables
  -- exist and are in use, a usage count starts at one user, and a put undoes a get.
  pub exit-init :
      Counts attr
      → Idle p.id s
      → IsNew a.tunables_at s
      → GlobalOk s.global_tunables s
      → (lse_gov_init attr a p.id s).0 ≡ pos 0
      → Returns (lse_gov_init attr a p.id s).1
  unfolding lse_gov_init init_allocated
  exit-init counts idle new global =
      let fast = enable_fast_switch a.can_fast_switch p.id s in
      let u = lse_gov_policy_alloc p.id fast in
      let created = lse_gov_kthread_create a.thread p.id u in
      let v = kthread_create-Taken a.thread p.id s u (alloc-Taken a.can_fast_switch p.id s idle) in
      let none_yet = idle.0 in
      rw (none_yet, lse_gov_init)
        (if-keeps (λ (r : ℤ × Held). r.0 ≡ pos 0 → Returns r.1) (not a.policy_allocated) (λ _ q. cc)
          (λ _.
            if-keeps (λ (r : ℤ × Held). r.0 ≡ pos 0 → Returns r.1) (not (created.0 ==ℤ pos 0))
              (λ f q. absurd (failed-nonzero created.0 f q))
              (λ _. init_tunables-Returns created.1 counts idle new global v)))
