-- ===== src/Track/Aligned.antt =====
-- The window of a CPU after `update_window_start`.
use lunarkernel_sched_extent.Base.{
  inl, inr, Bool-cases, ltb→lt, ℕ, zero, suc, ◌+◌, ◌-◌, ◌*◌, ◌/◌, ◌%◌, ◌^◌, ◌≤◌, ◌<◌, ◌≡◌, refl, ap,
  ◌∙◌, false, ltb, ◌==◌, arith,
}
use lunarkernel_sched_extent.Base.Div.{quotient, mul_comm, div-lt, le-div}
use lunarkernel_sched_extent.Base.Int.{pos}
use lunarkernel_sched_extent.Base.Word.{add64, mul64, to_int}
use lunarkernel_sched_extent.Base.Outcome.{Outcome, done, ◌>>=◌}
use lunarkernel_sched_extent.State.{Lrq}
use lunarkernel_sched_extent.Track.Globals.{Globals}
use lunarkernel_sched_extent.Track.Window.{
  rollover_cpu_window, check_latest_clock, check_window_start, advance_window, roll_window,
  update_window_start,
}

-- The clock does not run backwards and stays below 2 ^ 63 ns, the window is not empty, and fewer
-- than 2 ^ 31 windows have passed.
abbrev pub ClockOk : Globals → Lrq → ℕ → Type 0
ClockOk g lrq wallclock =
    (0 < g.lse_sched_ravg_window)
    × (g.lse_sched_ravg_window < 2 ^ 32)
    × (lrq.latest_clock ≤ wallclock)
    × (lrq.window_start ≤ wallclock)
    × (wallclock < 2 ^ 63)
    × (wallclock < lrq.window_start + 2 ^ 31 * g.lse_sched_ravg_window)

-- The sums of the previous and the present window, `n` windows later.
abbrev pub sums_after : ℕ → Lrq → ℕ × ℕ
sums_after zero lrq = (lrq.prev_runnable_sum, lrq.curr_runnable_sum)
sums_after (suc zero) lrq = (lrq.curr_runnable_sum, 0)
sums_after (suc (suc n)) lrq = (0, 0)

-- The CPU's window contains the clock, `n` windows after the old one.
abbrev pub Rolled : Globals → Lrq → ℕ → Lrq → Type 0
Rolled g lrq wallclock lrq' =
    let w = g.lse_sched_ravg_window in
    (lrq'.latest_clock ≡ wallclock)
    × (lrq'.window_start ≤ wallclock)
    × (wallclock < lrq'.window_start + w)
    × (n : ℕ) × (lrq'.window_start ≡ lrq.window_start + w * n)
    × ((lrq'.prev_runnable_sum, lrq'.curr_runnable_sum) ≡ sums_after n lrq)

roll_zero :
    (g : Globals) (lrq : Lrq) (delta wallclock : ℕ)
    → delta < g.lse_sched_ravg_window
    → roll_window g lrq delta wallclock ≡ done (record lrq { latest_clock = wallclock })
unfolding roll_window
roll_zero g lrq delta wallclock h = ground arith

checks-pass :
    (g : Globals) (lrq : Lrq) (wallclock : ℕ)
    → ClockOk g lrq wallclock
    → update_window_start g lrq wallclock ≡ (
        roll_window g lrq (wallclock - lrq.window_start) wallclock >>= λ r.
        done (r, lrq.window_start))
unfolding update_window_start check_latest_clock check_window_start
checks-pass g lrq wallclock h = ground arith

-- the conversion of the number of windows to `int` and back
pub nr_windows-exact : (q : ℕ) → q < 2 ^ 31 → to_int q ≡ pos q
nr_windows-exact q h = ground arith

roll-advance :
    (g : Globals) (lrq : Lrq) (wallclock : ℕ)
    → ClockOk g lrq wallclock
    → g.lse_sched_ravg_window ≤ wallclock - lrq.window_start
    → let q = (wallclock - lrq.window_start) / g.lse_sched_ravg_window in
      roll_window g lrq (wallclock - lrq.window_start) wallclock
      ≡ done (
          rollover_cpu_window
            (record lrq {
              latest_clock = wallclock;
              window_start = lrq.window_start + g.lse_sched_ravg_window * q;
              prev_window_size = g.lse_sched_ravg_window;
            })
            (ltb 1 q))
unfolding roll_window advance_window
roll-advance g lrq wallclock (w, b, l, s, c, n) h =
    let delta = wallclock - lrq.window_start in
    let q = delta / g.lse_sched_ravg_window in
    let small = div-lt delta (2 ^ 31) g.lse_sched_ravg_window w (omega arith) in
    let (r, e, f) = quotient delta g.lse_sched_ravg_window w in
    let exact = nr_windows-exact q small in
    let later : ltb delta g.lse_sched_ravg_window ≡ false = ground arith in
    let nonzero : (g.lse_sched_ravg_window == 0) ≡ false = ground arith in
    let fits : q % 2 ^ 64 ≡ q = omega arith in
    let start : add64 lrq.window_start (mul64 (q % 2 ^ 64) g.lse_sched_ravg_window)
        ≡ lrq.window_start + g.lse_sched_ravg_window * q =
      rw fits (omega (arith, mul_comm q g.lse_sched_ravg_window)) in
    let flag : ltb (1 + 0) (q + 0) ≡ ltb 1 q = ground arith in
    rw (later, nonzero, exact, start, flag) refl

rollover-sums :
    (q : ℕ) (lrq : Lrq)
    → 1 ≤ q
    → let r = rollover_cpu_window lrq (ltb 1 q) in
      (r.prev_runnable_sum, r.curr_runnable_sum) ≡ sums_after q lrq
unfolding rollover_cpu_window
rollover-sums zero lrq h = ground arith
rollover-sums (suc zero) lrq h = refl
rollover-sums (suc (suc n)) lrq h = ground arith

-- With a clock that does not run backwards, `update_window_start` ends without a bug in a window
-- that contains the clock: it starts a whole number of windows after the old one, returned with
-- it, and the sums are kept, moved by one window or dropped accordingly. The clock is below 2 ^ 63
-- ns and fewer than 2 ^ 31 windows after the old start, and the window is from 1 to 2 ^ 32 - 1 ns.
pub update_window_start-Rolled :
    (g : Globals) (lrq : Lrq) (wallclock : ℕ)
    → ClockOk g lrq wallclock
    → (lrq' : Lrq) × (update_window_start g lrq wallclock ≡ done (lrq', lrq.window_start))
      × Rolled g lrq wallclock lrq'
unfolding rollover_cpu_window
update_window_start-Rolled g lrq wallclock h =
    let delta = wallclock - lrq.window_start in
    let w = g.lse_sched_ravg_window in
    let q = delta / w in
    let (r, e, f) = quotient delta w h.0 in
    elim (Bool-cases (ltb delta w)) [
      | inl b ↦ (
        record lrq { latest_clock = wallclock },
        checks-pass g lrq wallclock h
            ∙ ap (λ (o : Outcome Lrq). o >>= λ r. done (r, lrq.window_start))
                (roll_zero g lrq delta wallclock (ltb→lt delta w b)),
        (refl, h.3, ground arith, 0, omega arith, refl),
      )
      | inr b ↦
          let le : w ≤ delta = ground arith in
          let positive = le-div 1 delta w h.0 (omega arith) in
          let lrq1 = record lrq {
            latest_clock = wallclock;
            window_start = lrq.window_start + w * q;
            prev_window_size = w;
          } in
          (
            rollover_cpu_window lrq1 (ltb 1 q),
            checks-pass g lrq wallclock h
                ∙ ap (λ (o : Outcome Lrq). o >>= λ r. done (r, lrq.window_start))
                    (roll-advance g lrq wallclock h le),
            (refl, omega arith, omega arith, q, refl, rollover-sums q lrq positive),
          )
    ]
