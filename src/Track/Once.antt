-- ===== src/Track/Once.antt =====
-- The claim of the end of a window among the CPUs: `lse_window_rollover_run_once` in any order.
use lunarkernel_sched_extent.Base.{
  ℕ, ◌+◌, ◌<◌, ◌≡◌, refl, Bool, false, ◌&&◌, ◌||◌, List, [], ◌∷◌, ◌==◌, if◌then◌else◌, All,
  Bool-cases, inl, inr, arith,
}
use lunarkernel_sched_extent.Track.Globals.{Globals}
use lunarkernel_sched_extent.Track.Rollover.{Shared, lse_window_rollover_run_once, queue_rollover}

-- An attempt of a CPU: the old and the new start of its window.
abbrev pub Attempt : Type 0
Attempt = ℕ × ℕ

module _ (g : Globals) where
  abbrev pub attempt : Attempt → Shared → Shared
  attempt (old, new) s = lse_window_rollover_run_once g old new s

  -- whether an attempt queues the irq work
  abbrev pub claims : Attempt → Shared → Bool
  claims a s = (attempt a (record s { irq_work_queued = false })).irq_work_queued

  -- how many of the attempts at the end of the window that starts at `old` queue the irq work
  unfoldable pub wins : ℕ → List Attempt → Shared → ℕ
  wins old [] s = 0
  wins old (a ∷ attempts) s =
      (if (a.0 == old) && claims a s then 1 else 0) + wins old attempts (attempt a s)

  abbrev pub has : ℕ → List Attempt → Bool
  has old [] = false
  has old (a ∷ attempts) = (a.0 == old) || has old attempts

  abbrev pub Forwards : Attempt → Type 0
  Forwards a = a.0 < a.1

  wins-past :
      (old : ℕ) (attempts : List Attempt) (s : Shared)
      → All Forwards attempts
      → old < s.lse_run_rollover_lastq_ws
      → wins old attempts s ≡ 0
  unfolding wins lse_window_rollover_run_once queue_rollover
  wins-past old [] s h lt = refl
  wins-past old (a ∷ attempts) s (f, h) lt =
      ground (arith, wins-past old attempts (attempt a s) h (ground arith))

  -- Of the CPUs that notice the end of the window that was claimed last, exactly one queues the irq
  -- work, whatever the order, if every CPU's window moves forwards.
  pub wins-eq :
      (old : ℕ) (attempts : List Attempt) (s : Shared)
      → All Forwards attempts
      → s.lse_run_rollover_lastq_ws ≡ old
      → wins old attempts s ≡ (if has old attempts then 1 else 0)
  unfolding wins lse_window_rollover_run_once queue_rollover
  wins-eq old [] s h e = refl
  wins-eq old ((from, to) ∷ attempts) s (f, h) e = elim (Bool-cases (from == old)) [
    | inl c ↦ ground (arith, wins-past old attempts (attempt (from, to) s) h (ground arith))
    | inr c ↦ ground (arith, wins-eq old attempts (attempt (from, to) s) h (ground arith))
  ]
