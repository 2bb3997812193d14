-- ===== src/Gov/Top2.antt =====
-- The average of the two greatest sums of a cluster.
use lunarkernel_sched_extent.Base.{
  ℕ, ◌/◌, ◌^◌, max, ◌≤◌, ◌<◌, ◌≡◌, refl, sym, ap, ◌∙◌, false, List, [], ◌∷◌, ◌==◌, arith,
}
use mathlib.Core.List.{Perm, Permᴰ}
use mathlib.Core.Logic.{∥∥₁_elim}
use lunarkernel_sched_extent.Base.Int.{pos}
use lunarkernel_sched_extent.Base.Word.{add64}
use lunarkernel_sched_extent.State.{Lrq}
use lunarkernel_sched_extent.Gov.Policy.{Switches, FreqPolicy}
use lunarkernel_sched_extent.Gov.Util.{
  push_top2, top2_sums, max_sum, traverse, util_of, lse_top2_avg_util, top2_utils,
}

-- the two pushes commute
push_top2_comm :
    (a b : ℕ) (tops : ℕ × ℕ)
    → tops.1 ≤ tops.0
    → push_top2 a (push_top2 b tops) ≡ push_top2 b (push_top2 a tops)
unfolding push_top2
push_top2_comm a b (top1, top2) h = ground arith

push_top2-sorted :
    (a : ℕ) (tops : ℕ × ℕ) → tops.1 ≤ tops.0 → (push_top2 a tops).1 ≤ (push_top2 a tops).0
unfolding push_top2
push_top2-sorted a (top1, top2) h = ground arith

top2_sums-sorted :
    (lrqs : ℕ → Lrq) (cpus : List ℕ) (tops : ℕ × ℕ)
    → tops.1 ≤ tops.0
    → (top2_sums lrqs cpus tops).1 ≤ (top2_sums lrqs cpus tops).0
unfolding top2_sums
top2_sums-sorted lrqs [] tops h = h
top2_sums-sorted lrqs (cpu ∷ cpus) tops h =
    top2_sums-sorted lrqs cpus _ (push_top2-sorted (lrqs cpu).prev_runnable_sum tops h)

top2_sums-perm_d :
    (lrqs : ℕ → Lrq) (cs ds : List ℕ) (tops : ℕ × ℕ)
    → tops.1 ≤ tops.0
    → Permᴰ cs ds
    → top2_sums lrqs cs tops ≡ top2_sums lrqs ds tops
unfolding top2_sums
top2_sums-perm_d lrqs _ _ tops h Permᴰ.nil = refl
top2_sums-perm_d lrqs _ _ tops h (Permᴰ.cons {a = a} {b = b} {l₁ = xs} {l₂ = ys} e p) = rw (sym e) (
    top2_sums-perm_d lrqs xs ys (push_top2 (lrqs a).prev_runnable_sum tops)
      (push_top2-sorted (lrqs a).prev_runnable_sum tops h) p)
top2_sums-perm_d lrqs _ _ tops h (Permᴰ.swap {a = a} {b = b} {l = l} e f) =
    rw (sym e, sym f)
      (ap (top2_sums lrqs l)
        (push_top2_comm (lrqs b).prev_runnable_sum (lrqs a).prev_runnable_sum tops h))
top2_sums-perm_d lrqs cs ds tops h (Permᴰ.trans {l₂ = es} p q) =
    top2_sums-perm_d lrqs cs es tops h p ∙ top2_sums-perm_d lrqs es ds tops h q

max_sum-perm_d :
    (lrqs : ℕ → Lrq) (cs ds : List ℕ) (m : ℕ) → Permᴰ cs ds → max_sum lrqs cs m ≡ max_sum lrqs ds m
unfolding max_sum
max_sum-perm_d lrqs _ _ m Permᴰ.nil = refl
max_sum-perm_d lrqs _ _ m (Permᴰ.cons {a = a} {b = b} {l₁ = xs} {l₂ = ys} e p) =
    rw (sym e) (max_sum-perm_d lrqs xs ys _ p)
max_sum-perm_d lrqs _ _ m (Permᴰ.swap {a = a} {b = b} {l = l} e f) =
    rw (sym e, sym f) (ap (max_sum lrqs l) (ground arith))
max_sum-perm_d lrqs cs ds m (Permᴰ.trans {l₂ = es} p q) =
    max_sum-perm_d lrqs cs es m p ∙ max_sum-perm_d lrqs es ds m q

-- The utilisation of a cluster does not depend on the order in which its CPUs are visited, in
-- either mode of aggregation.
pub traverse-perm :
    (s : Switches) (policy : FreqPolicy) (cpus : List ℕ) (lrqs : ℕ → Lrq)
    → Perm policy.cpus cpus
    → traverse s policy lrqs ≡ traverse s (record policy { cpus = cpus }) lrqs
unfolding traverse
traverse-perm s policy cpus lrqs h = ∥∥₁_elim h (hlevel) λ d.
    rw
      (
        top2_sums-perm_d lrqs policy.cpus cpus (0, 0) (omega arith) d,
        max_sum-perm_d lrqs policy.cpus cpus 0 d,
      )
      refl

push_top2-zero : (a : ℕ) → push_top2 a (0, 0) ≡ (a, 0)
unfolding push_top2
push_top2-zero a = ground arith

-- On a cluster of one CPU the average of the two greatest sums, as the tick takes it, is half
-- of the CPU's sum, while the utilisation at the end of a window is that of the whole sum.
pub traverse-single :
    (s : Switches) (policy : FreqPolicy) (lrqs : ℕ → Lrq) (cpu : ℕ)
    → s.cluster_agg_mode ≡ pos 1
    → policy.cpus ≡ (cpu ∷ [])
    → 0 < s.lse_sched_ravg_window
    → (lrqs cpu).prev_window_size ≡ s.lse_sched_ravg_window
    → (lrqs cpu).prev_runnable_sum < 2 ^ 64
    → (traverse s policy lrqs ≡ util_of ((lrqs cpu).prev_runnable_sum / 2) s.lse_sched_ravg_window)
      × (lse_top2_avg_util s lrqs policy.cpus
          ≡ util_of (lrqs cpu).prev_runnable_sum s.lse_sched_ravg_window)
unfolding traverse top2_sums lse_top2_avg_util top2_utils push_top2
traverse-single s policy lrqs cpu m e w p o =
    let first = push_top2-zero (lrqs cpu).prev_runnable_sum in
    let window : max s.lse_sched_ravg_window 1 ≡ s.lse_sched_ravg_window = omega arith in
    let whole : (add64 (lrqs cpu).prev_runnable_sum 0) ≡ (lrqs cpu).prev_runnable_sum =
      omega arith in
    let nonzero : (s.lse_sched_ravg_window == 0) ≡ false = ground arith in
    (
      rw (m, e, first, window, whole) refl,
      rw
          (
            e,
            p,
            nonzero,
            nonzero,
            push_top2-zero (util_of (lrqs cpu).prev_runnable_sum s.lse_sched_ravg_window),
          )
          refl,
    )
