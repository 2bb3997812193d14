-- ===== src/Gov/Cache.antt =====
-- The cached utilisation of a cluster, over the ticks of a CPU.
use lunarkernel_sched_extent.Base.{
  ℕ, ◌+◌, ◌*◌, ◌^◌, ◌≤◌, ◌<◌, ◌≡◌, refl, ap, ◌∙◌, true, false, List, [], ◌∷◌, ltb, arith,
}
use lunarkernel_sched_extent.Base.Word.{sub64}
use lunarkernel_sched_extent.Kernel.{Kernel}
use lunarkernel_sched_extent.State.{Lrq}
use lunarkernel_sched_extent.Gov.Policy.{Switches, FreqPolicy, Tunables, GovRq}
use lunarkernel_sched_extent.Gov.Util.{abs_diff, is_cache_usable, lse_gov_cluster_util}
use lunarkernel_sched_extent.Gov.Tick.{Ticked, lse_gov_tick_update}

-- A tick of the CPU: the run queues at that time, the boost and the two readings of the clock.
pub record TickInput : Type 0 where
  pub lrqs : ℕ → Lrq
  pub dsq_boost : ℕ
  pub now_ns : ℕ
  pub now : ℕ

module _ (k : Kernel) (s : Switches) (policy : FreqPolicy) (t : Tunables) (cpu : ℕ) where
  abbrev pub tick : TickInput → Ticked → Ticked
  tick i w = lse_gov_tick_update k s policy t i.lrqs cpu i.dsq_boost i.now_ns i.now w.lg w.grq

  abbrev pub ticks : List TickInput → Ticked → Ticked
  ticks [] w = w
  ticks (i ∷ is) w = ticks is (tick i w)

  -- Each tick comes 400 us or more after the one before, as late as it may be, its two readings are
  -- less than 16 ms apart, and the CPU's sum differs by less than a twentieth from the one before.
  abbrev pub Drifts : ℕ → ℕ → List TickInput → Type 0
  Drifts last sum [] = Unit
  Drifts last sum (i ∷ is) =
      (last + 400000 ≤ i.now_ns)
      × (i.now_ns ≤ i.now)
      × (i.now < i.now_ns + 16000000)
      × (i.now < 2 ^ 64)
      × (abs_diff (i.lrqs cpu).prev_runnable_sum sum * 20 < sum)
      × (sum < 2 ^ 59)
      × Drifts i.now_ns (i.lrqs cpu).prev_runnable_sum is

  cache-usable :
      (sum sum' now now_ns : ℕ) (grq : GovRq)
      → 0 < grq.cached_agg_util
      → grq.cached_this_sum ≡ sum
      → now_ns ≤ now
      → now < now_ns + 16000000
      → now < 2 ^ 64
      → abs_diff sum' sum * 20 < sum
      → sum < 2 ^ 59
      → is_cache_usable sum' now (record grq { last_tick_ns = now_ns }) ≡ true
  unfolding is_cache_usable
  cache-usable sum sum' now now_ns grq c e le lt o d b = ground arith

  cluster_util-cached :
      (lrqs : ℕ → Lrq) (now : ℕ) (grq : GovRq)
      → is_cache_usable (lrqs cpu).prev_runnable_sum now grq ≡ true
      → lse_gov_cluster_util s policy lrqs cpu now grq
        ≡ (record grq { cached_this_sum = (lrqs cpu).prev_runnable_sum }, grq.cached_agg_util)
  unfolding lse_gov_cluster_util
  cluster_util-cached lrqs now grq h = rw h refl

  tick-grq :
      (i : TickInput) (w : Ticked)
      → ltb (sub64 i.now_ns w.grq.last_tick_ns) 400000 ≡ false
      → let r =
          lse_gov_cluster_util s policy i.lrqs cpu i.now
            (record w.grq { last_tick_ns = i.now_ns }) in
        (tick i w).grq ≡ record r.0 { curr_util = r.1 }
  unfolding lse_gov_tick_update
  tick-grq i w h = rw h refl

  -- what a tick leaves, if the cache is usable
  tick-cached :
      (i : TickInput) (w : Ticked)
      → 0 < w.grq.cached_agg_util
      → w.grq.last_tick_ns + 400000 ≤ i.now_ns
      → i.now_ns ≤ i.now
      → i.now < i.now_ns + 16000000
      → i.now < 2 ^ 64
      → abs_diff (i.lrqs cpu).prev_runnable_sum w.grq.cached_this_sum * 20 < w.grq.cached_this_sum
      → w.grq.cached_this_sum < 2 ^ 59
      → (tick i w).grq ≡ record {
        last_tick_ns = i.now_ns;
        curr_util = w.grq.cached_agg_util;
        cached_this_sum = (i.lrqs cpu).prev_runnable_sum;
        cached_agg_util = w.grq.cached_agg_util;
      }
  tick-cached i w c r le lt o d b =
      let usable =
        cache-usable w.grq.cached_this_sum (i.lrqs cpu).prev_runnable_sum i.now i.now_ns w.grq c
          refl le lt o d b in
      tick-grq i w (ground arith)
      ∙ ap (λ (r : GovRq × ℕ). record r.0 { curr_util = r.1 })
          (cluster_util-cached i.lrqs i.now (record w.grq { last_tick_ns = i.now_ns }) usable)

  -- The cache of the cluster's utilisation has no age: once it holds one that is not 0, it stays,
  -- however late the ticks come, as long as each comes 400 us or more after the one before, its
  -- two readings of the clock are less than 16 ms apart, and it finds the CPU's sum, below 2 ^ 59,
  -- less than a twentieth away from the one before.
  pub ticks-cached :
      (is : List TickInput) (w : Ticked)
      → 0 < w.grq.cached_agg_util
      → Drifts w.grq.last_tick_ns w.grq.cached_this_sum is
      → (ticks is w).grq.cached_agg_util ≡ w.grq.cached_agg_util
  ticks-cached [] w c h = refl
  ticks-cached (i ∷ is) w c (r, le, lt, o, d, b, h) =
      let e = tick-cached i w c r le lt o d b in
      ticks-cached is (tick i w) (rw e c) (rw e h) ∙ ap (λ (g : GovRq). g.cached_agg_util) e
