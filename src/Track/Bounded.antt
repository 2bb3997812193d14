-- ===== src/Track/Bounded.antt =====
-- The history of a task stays within the window.
use lunarkernel_sched_extent.Base.{ℕ, ◌≤◌, ◌<◌, ◌≡◌, length, All}
use lunarkernel_sched_extent.State.{Lts}
use lunarkernel_sched_extent.Track.Globals.{Globals}

-- Five samples, an index into them, and no value above the window.
abbrev pub HistoryOk : ℕ → Lts → Type 0
HistoryOk w lts =
    (length lts.sum_history ≡ 5)
    × (lts.cidx < 5)
    × All (λ (h : ℕ). h ≤ w) lts.sum_history
    × (lts.sum ≤ w)
    × (lts.demand ≤ w)
