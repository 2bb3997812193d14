-- ===== src/Track/Recent.antt =====
-- The ring of a task's history as the list of its last five samples: `update_history` of
-- lse_util_track.c against that view.
use lunarkernel_sched_extent.Base.{
  ℕ, zero, suc, ◌+◌, ◌-◌, ◌/◌, ◌%◌, ◌^◌, ◌<◌, ◌≡◌, refl, ap, ◌∙◌, max, List, [], ◌∷◌, none, some,
  length, length-set, All-set, get_elem?, set, All, if◌then◌else◌, arith,
}
use lunarkernel_sched_extent.Base.Int.{ℤ, pos, ◌==ℤ◌}
use lunarkernel_sched_extent.State.{Lts}
use lunarkernel_sched_extent.Track.History.{push_samples}

-- The ring is full, its index is in it, and its samples are words of 32 bits.
abbrev pub RingOk : Lts → Type 0
RingOk lts =
    (length lts.sum_history ≡ 5) × (lts.cidx < 5) × All (λ (h : ℕ). h < 2 ^ 32) lts.sum_history

-- the sample that was written `age` + 1 writes ago
abbrev pub sample : List ℕ → ℕ → ℕ → ℕ
sample hist idx age = elim (get_elem? hist ((idx + 4 - age) % 5)) [ none ↦ 0 | some h ↦ h ]

abbrev pub ages : List ℕ → ℕ → List ℕ
ages hist idx =
    sample hist idx 0
    ∷ sample hist idx 1
    ∷ sample hist idx 2
    ∷ sample hist idx 3
    ∷ sample hist idx 4
    ∷ []

-- the abstract view: the last five samples, from the newest
abbrev pub recent : Lts → List ℕ
recent lts = ages lts.sum_history lts.cidx

abbrev pub take : ℕ → List ℕ → List ℕ
take zero l = []
take (suc n) [] = []
take (suc n) (x ∷ l) = x ∷ take n l

-- The specification: a sample is put in front, and the oldest is forgotten.
abbrev pub remember : ℕ → ℕ → List ℕ → List ℕ
remember zero runtime l = l
remember (suc n) runtime l = remember n runtime (take 5 (runtime ∷ l))

abbrev pub total : List ℕ → ℕ
total [] = 0
total (x ∷ l) = x + total l

abbrev pub greatest : List ℕ → ℕ
greatest [] = 0
greatest (x ∷ l) = max x (greatest l)

-- The demand by the policy: the last sample, the greatest, the average, or the greater of the last
-- and the average.
abbrev pub demand_of : ℤ → ℕ → List ℕ → ℕ
demand_of policy runtime l =
    let avg = total l / 5 in
    if policy ==ℤ pos 0
    then runtime
    else if policy ==ℤ pos 1
    then greatest l
    else if policy ==ℤ pos 3
    then avg
    else max avg runtime

-- A full ring by its elements.
five :
    (l : List ℕ)
    → length l ≡ 5
    → (a : ℕ) × (b : ℕ) × (c : ℕ) × (d : ℕ) × (e : ℕ) × (l ≡ (a ∷ b ∷ c ∷ d ∷ e ∷ []))
five (a ∷ b ∷ c ∷ d ∷ e ∷ []) h = (a, b, c, d, e, refl)
five [] h = absurd (omega (arith, h))
five (a ∷ []) h = absurd (omega (arith, h))
five (a ∷ b ∷ []) h = absurd (omega (arith, h))
five (a ∷ b ∷ c ∷ []) h = absurd (omega (arith, h))
five (a ∷ b ∷ c ∷ d ∷ []) h = absurd (omega (arith, h))
five (a ∷ b ∷ c ∷ d ∷ e ∷ f ∷ l) h = absurd (omega (arith, h))

-- What holds of the indices of a ring holds of each index.
by_index : (P : ℕ → Type 0) → P 0 → P 1 → P 2 → P 3 → P 4 → (n : ℕ) → n < 5 → P n
by_index P p0 p1 p2 p3 p4 zero h = p0
by_index P p0 p1 p2 p3 p4 (suc zero) h = p1
by_index P p0 p1 p2 p3 p4 (suc (suc zero)) h = p2
by_index P p0 p1 p2 p3 p4 (suc (suc (suc zero))) h = p3
by_index P p0 p1 p2 p3 p4 (suc (suc (suc (suc zero)))) h = p4
by_index P p0 p1 p2 p3 p4 (suc (suc (suc (suc (suc n))))) h = absurd (omega arith)

ages-set :
    (hist : List ℕ) (idx runtime : ℕ)
    → length hist ≡ 5
    → idx < 5
    → ages (set hist idx runtime) ((idx + 1) % 5) ≡ take 5 (runtime ∷ ages hist idx)
ages-set hist idx runtime l c =
    let (a, b, x, d, e, same) = five hist l in
    by_index (λ (n : ℕ). ages (set hist n runtime) ((n + 1) % 5) ≡ take 5 (runtime ∷ ages hist n))
      (rw same refl) (rw same refl) (rw same refl) (rw same refl) (rw same refl) idx c

pub total-ages :
    (hist : List ℕ) (idx : ℕ) → length hist ≡ 5 → idx < 5 → total (ages hist idx) ≡ total hist
total-ages hist idx l c =
    let (a, b, x, d, e, same) = five hist l in
    by_index (λ (n : ℕ). total (ages hist n) ≡ total hist) (rw same (omega arith))
      (rw same (omega arith)) (rw same (omega arith)) (rw same (omega arith))
      (rw same (omega arith)) idx c

pub greatest-ages :
    (hist : List ℕ) (idx : ℕ) → length hist ≡ 5 → idx < 5 → greatest (ages hist idx) ≡ greatest hist
greatest-ages hist idx l c =
    let (a, b, x, d, e, same) = five hist l in
    by_index (λ (n : ℕ). greatest (ages hist n) ≡ greatest hist) (rw same (omega arith))
      (rw same (omega arith)) (rw same (omega arith)) (rw same (omega arith))
      (rw same (omega arith)) idx c

pub push-RingOk :
    (samples runtime : ℕ) (lts : Lts)
    → runtime < 2 ^ 32
    → RingOk lts
    → RingOk (push_samples samples runtime lts)
unfolding push_samples
push-RingOk zero runtime lts r h = h
push-RingOk (suc samples) runtime lts r (l, c, b) = push-RingOk samples runtime _ r (
  length-set lts.sum_history lts.cidx runtime ∙ l,
  omega arith,
  All-set (λ (h : ℕ). h < 2 ^ 32) lts.sum_history lts.cidx runtime b r,
)

pub recent-push_samples :
    (samples runtime : ℕ) (lts : Lts)
    → runtime < 2 ^ 32
    → RingOk lts
    → recent (push_samples samples runtime lts) ≡ remember samples runtime (recent lts)
unfolding push_samples
recent-push_samples zero runtime lts r h = refl
recent-push_samples (suc samples) runtime lts r (l, c, b) =
    let pushed = record lts {
      sum_history = set lts.sum_history lts.cidx runtime;
      cidx = (lts.cidx + 1) % 5;
    } in
    let ok : RingOk pushed = push-RingOk 1 runtime lts r (l, c, b) in
    recent-push_samples samples runtime pushed r ok
    ∙ ap (remember samples runtime) (ages-set lts.sum_history lts.cidx runtime l c)
