-- ===== src/Track/Refine.antt =====
-- `update_history` of lse_util_track.c refines the list of the last five samples.
use lunarkernel_sched_extent.Base.{
  ℕ, ◌+◌, ◌/◌, ◌^◌, ◌<◌, ◌≡◌, ◌≢◌, ◌/◌, Bool, true, false, refl, ap, ◌∙◌, ◌*◌, ◌≤◌, max, Bool, ◌||◌,
  List, [], ◌∷◌, length, ltb, ◌==◌, All, if◌then◌else◌, Bool-cases, inl, inr, arith,
}
use lunarkernel_sched_extent.Base.Int.{ℤ, pos_part}
use lunarkernel_sched_extent.Base.Word.{u32, add64}
use lunarkernel_sched_extent.Base.Word.{u16}
use lunarkernel_sched_extent.Base.Outcome.{done}
use lunarkernel_sched_extent.Kernel.{Task}
use lunarkernel_sched_extent.State.{Lts}
use lunarkernel_sched_extent.Track.Accounted.{recorded, record-Checked, Checked-done}
use lunarkernel_sched_extent.Track.Globals.{Globals}
use lunarkernel_sched_extent.Track.History.{
  push_samples, scan_history, demand_by_policy, record_history, update_history, is_zero_int,
}
use lunarkernel_sched_extent.Track.Recent.{
  RingOk, recent, remember, total, greatest, demand_of, total-ages, greatest-ages, push-RingOk,
  recent-push_samples,
}

total-bound : (l : List ℕ) → All (λ (h : ℕ). h < 2 ^ 32) l → total l + length l ≤ length l * 2 ^ 32
total-bound [] h = omega arith
total-bound (x ∷ l) (b, h) = omega (arith, total-bound l h)

scan_history-eq :
    (l : List ℕ) (sum top : ℕ)
    → sum + total l < 2 ^ 64
    → scan_history l sum top ≡ (sum + total l, max top (greatest l))
unfolding scan_history
scan_history-eq [] sum top b = ground arith
scan_history-eq (x ∷ l) sum top b =
    let wraps : add64 sum x ≡ sum + x = omega arith in
    ground (arith, scan_history-eq l (sum + x) (if ltb top x then x else top) (omega arith))

scan_all : (l : List ℕ) → total l < 2 ^ 64 → scan_history l 0 0 ≡ (total l, greatest l)
scan_all l b = ground (arith, scan_history-eq l 0 0)

-- What a window without activity, an idle task or a count of 0 leaves alone.
abbrev pub is_skipped : Task → ℕ → ℤ → Bool
is_skipped p runtime samples = runtime == 0 || p.is_idle_task || is_zero_int samples

demand_by_policy-eq :
    (policy : ℤ) (runtime : ℕ) (l : List ℕ)
    → total l < 5 * 2 ^ 32
    → demand_by_policy policy runtime (greatest l) (u32 (total l / 5)) ≡ demand_of policy runtime l
unfolding demand_by_policy
demand_by_policy-eq policy runtime l b =
    let avg : u32 (total l / 5) ≡ total l / 5 = omega arith in rw avg (ground arith)

record_history-refines :
    (g : Globals) (lts : Lts) (runtime : ℕ) (samples : ℤ)
    → runtime < 2 ^ 32
    → RingOk lts
    → let r = recorded g lts runtime samples in
      (recent r ≡ remember (pos_part samples) runtime (recent lts))
      × (r.demand ≡ demand_of g.sched_window_stats_policy runtime (recent r))
unfolding recorded
record_history-refines g lts runtime samples b ok =
    let pushed = push_samples (pos_part samples) runtime lts in
    let (l, c, bounds) = push-RingOk (pos_part samples) runtime lts b ok in
    let small = total-bound pushed.sum_history bounds in
    let average = total-ages pushed.sum_history pushed.cidx l c in
    let top = greatest-ages pushed.sum_history pushed.cidx l c in
    let scanned : scan_history pushed.sum_history 0 0
        ≡ (total (recent pushed), greatest (recent pushed)) =
      rw (average, top) (scan_all pushed.sum_history (omega (arith, l))) in
    (
      recent-push_samples (pos_part samples) runtime lts b ok,
      ap
            (λ (st : ℕ × ℕ).
              demand_by_policy g.sched_window_stats_policy runtime st.1 (u32 (st.0 / 5)))
            scanned
          ∙ demand_by_policy-eq g.sched_window_stats_policy runtime (recent pushed)
              (omega (arith, l, average)),
    )

-- What an update leaves of the task: all of it where it is skipped; else the list of the samples and
-- the demand are the new ones, the sum starts anew, and the demand is scaled.
abbrev pub After : Globals → Lts → ℕ → ℤ → Lts → Bool → Type 0
After g lts runtime samples r true = r ≡ lts
After g lts runtime samples r false =
    let after = remember (pos_part samples) runtime (recent lts) in
    (recent r ≡ after)
    × (r.demand ≡ demand_of g.sched_window_stats_policy runtime after)
    × (r.sum ≡ 0)
    × (r.demand_scaled ≡ u16 (r.demand / g.lse_scale_demand_divisor))

-- The ring of the history refines the list of the last five samples, and the update of it ends:
-- where the window had activity, the task is not idle and the count is not 0, the runtime is put
-- in front of the list as often as the count says, the oldest samples are forgotten, the demand is
-- that of the list by the policy, the scaled demand is that of the demand, and the running sum is
-- 0; otherwise the task does not change. The ring is full, its index is in it, samples and runtime
-- are words of 32 bits, and the divisor of the demand is not 0.
pub update_history-refines :
    (g : Globals) (lts : Lts) (p : Task) (runtime : ℕ) (samples : ℤ)
    → g.lse_scale_demand_divisor ≢ 0
    → runtime < 2 ^ 32
    → RingOk lts
    → (r : Lts) × (update_history g lts p runtime samples ≡ done r)
      × After g lts runtime samples r (is_skipped p runtime samples)
unfolding update_history
update_history-refines g lts p runtime samples n b ok =
    let (list, demand) = record_history-refines g lts runtime samples b ok in
    elim (Bool-cases (is_skipped p runtime samples)) [
      | inl skipped ↦ rw skipped (lts, refl, refl)
      | inr ran ↦ rw ran (
        recorded g lts runtime samples,
        Checked-done g (record_history g lts runtime samples) (recorded g lts runtime samples) n
            (record-Checked g lts runtime samples),
        (
          list,
          demand ∙ ap (demand_of g.sched_window_stats_policy runtime) list,
          unfold recorded in refl,
          unfold recorded in refl,
        ),
      )
    ]
