-- ===== src/Sysctl/Total.antt =====
-- How an access to a file of the table ends, and the window that a frame rate gives.
use lunarkernel_sched_extent.Base.{
  ℕ, zero, suc, ◌/◌, ◌^◌, ◌≤◌, ◌<◌, ◌≡◌, ◌↔◌, refl, sym, ap, inl, inr, Bool, true, false, ◌&&◌,
  Bool-cases, List, arith,
}
use lunarkernel_sched_extent.Base.Div.{div-lt, le-div}
use lunarkernel_sched_extent.Base.Word.{u32}
use lunarkernel_sched_extent.Track.Globals.{Globals}
use lunarkernel_sched_extent.Base.Int.{ℤ, pos, negsuc, ◌==ℤ◌}
use lunarkernel_sched_extent.Base.Outcome.{Outcome, done, div_zero, ◌>>=◌, done-injective}
use lunarkernel_sched_extent.Track.Update.{sched_ravg_window_change}
use lunarkernel_sched_extent.Sysctl.Table.{
  CtlTable, ProcHandler, frame_per_sec, proc_dobool, proc_dointvec, proc_dointvec_minmax,
  lse_proc_shadow_tick_update, lse_proc_sched_ravg_window_update, lse_proc_monitor_toggle_update,
  lse_proc_dsq_toggle_update, lse_proc_dsq_dump, lse_proc_dsq_urgency,
}
use lunarkernel_sched_extent.Sysctl.Handlers.{
  Handled, answer, is_change, change_window, sched_ravg_window_update, handle,
}
use lunarkernel_sched_extent.Sysctl.Memory.{ProcResult, Call, Memory, load, store}

-- A write to the file of the frame rate that the kernel's function takes as 0, where it was not.
abbrev pub is_zero_rate : Call → CtlTable → Bool → List ℕ → Memory → Bool
is_zero_rate c e write buffer m = elim e.proc_handler [
  | lse_proc_sched_ravg_window_update ↦
      let old = load frame_per_sec m in
      let r = c.fns.do_intvec write old buffer in is_change write old r && (r.value ==ℤ pos 0)
  | other ↦ false
]

-- The call divides by zero or ends, by whether the rate is 0.
abbrev pub EndsBy : Bool → Outcome Handled → Type 0
EndsBy true o = o ≡ div_zero
EndsBy false o = (r : Handled) × (o ≡ done r)

change-EndsBy :
    (p : ProcResult) (v : ℤ) (m : Memory)
    → EndsBy (v ==ℤ pos 0) (change_window v m >>= λ m'. done (answer p m'))
unfolding change_window sched_ravg_window_change
change-EndsBy p (pos zero) m = refl
change-EndsBy p (pos (suc n)) m =
    let e : (pos (suc n) ==ℤ pos 0) ≡ false = ground arith in rw e (_, refl)
change-EndsBy p (negsuc n) m = (_, refl)

window-EndsBy :
    (c : Call) (write : Bool) (buffer : List ℕ) (m : Memory)
    → let old = load frame_per_sec m in
      let r = c.fns.do_intvec write old buffer in
      EndsBy
        (is_change write old r && (r.value ==ℤ pos 0))
        (sched_ravg_window_update c write buffer m)
unfolding sched_ravg_window_update
window-EndsBy c write buffer m =
    let old = load frame_per_sec m in
    let p = c.fns.do_intvec write old buffer in
    elim (Bool-cases (is_change write old p)) [
      | inl yes_change ↦ rw yes_change (change-EndsBy p p.value (store frame_per_sec p.value m))
      | inr unchanged ↦ rw unchanged (answer p m, refl)
    ]

row-EndsBy :
    (c : Call) (e : CtlTable) (handler : ProcHandler) (write : Bool) (buffer : List ℕ) (m : Memory)
    → let row = record e { proc_handler = handler } in
      EndsBy (is_zero_rate c row write buffer m) (handle c row write buffer m)
unfolding handle
row-EndsBy c e proc_dobool write buffer m = (_, refl)
row-EndsBy c e proc_dointvec write buffer m = (_, refl)
row-EndsBy c e proc_dointvec_minmax write buffer m = (_, refl)
row-EndsBy c e lse_proc_shadow_tick_update write buffer m = (_, refl)
row-EndsBy c e lse_proc_sched_ravg_window_update write buffer m = window-EndsBy c write buffer m
row-EndsBy c e lse_proc_monitor_toggle_update write buffer m = (_, refl)
row-EndsBy c e lse_proc_dsq_toggle_update write buffer m = (_, refl)
row-EndsBy c e lse_proc_dsq_dump write buffer m = (_, refl)
row-EndsBy c e lse_proc_dsq_urgency write buffer m = (_, refl)

-- An access to a file of the table divides by zero exactly when it writes a frame rate of 0 where
-- the rate was another; every other access ends.
pub access-EndsBy :
    (c : Call) (e : CtlTable) (write : Bool) (buffer : List ℕ) (m : Memory)
    → EndsBy (is_zero_rate c e write buffer m) (handle c e write buffer m)
access-EndsBy c e write buffer m = row-EndsBy c e e.proc_handler write buffer m

rate-window : (n : ℕ) → (0 < u32 (1000000000 / suc n)) ↔ (suc n ≤ 1000000000)
rate-window n = (
  λ h. grind arith,
  λ h. omega (
    arith,
    le-div 1 1000000000 (suc n) (omega arith) (omega arith),
    div-lt 1000000000 (2 ^ 32) (suc n) (omega arith) (omega arith),
  ),
)

-- A frame rate of at least 1 gives a window of at most 1 s, which is 0 exactly when the rate is above
-- 1000000000.
rate_window-bounds :
    (g g' : Globals) (n : ℕ)
    → sched_ravg_window_change g (pos (suc n)) ≡ done g'
    → (g'.new_lse_sched_ravg_window ≤ 1000000000)
      × ((0 < g'.new_lse_sched_ravg_window) ↔ (suc n ≤ 1000000000))
unfolding sched_ravg_window_change
rate_window-bounds g g' n e =
    let same : u32 (1000000000 / suc n) ≡ g'.new_lse_sched_ravg_window =
      ap (λ (x : Globals). x.new_lse_sched_ravg_window) (done-injective _ g' e) in
    rw (sym same) (
      omega (arith, div-lt 1000000000 1000000001 (suc n) (omega arith) (omega arith)),
      rate-window n,
    )
