-- ===== src/Timer/Rescheduling.antt =====
-- `reschedule_fixed` of src/timer.c: the next deadline of a periodic timer.
use native.Mathlib.Nat.{
  div-le_self, le-div_iff_mul-le, div-lt_iff_lt-mul, div-mul-le_self, lt-div-mul-add,
}
use i3sd.Common.{
  ℕ, ◌+◌, ◌-◌, ◌*◌, ◌/◌, ◌%◌, ◌≤◌, ◌<◌, ◌≡◌, ◌⊎◌, inl, inr, refl, Bool, true, false, ◌||◌, ltb,
  ltb→lt, leb, ◌==◌, Bool-cases, u64_mod, u64_max, arith,
}
use i3sd.Timer.{TimerHeap, add, periods, reschedule_fixed}
use i3sd.Timer.Invariant.{Valid}
use i3sd.Timer.Pushing.{Added}
use i3sd.Timer.Adding.{Exhausted, add-AddOutcome}

module _ (previous interval now : ℕ) (pos : 0 < interval) (early : now < u64_max) where
  periods-late : previous ≤ now → periods previous interval now ≡ (now - previous) / interval + 1
  unfolding periods
  periods-late late =
      let small = div-le_self (now - previous) interval in
      let fits : ((now - previous) / interval + 1) % u64_mod ≡ (now - previous) / interval + 1 =
        omega arith in
      ground arith

  periods-early : now < previous → periods previous interval now ≡ 1
  unfolding periods
  periods-early ahead = ground arith

  -- The periods lead past `now`.
  pub periods-past : now < previous + periods previous interval now * interval
  periods-past = elim (Bool-cases (leb previous now)) [
    | inl late ↦
        let passes = lt-div-mul-add {a = now - previous} pos in
        rw (periods-late (ground arith)) (ground arith)
    | inr ahead ↦ rw (periods-early (ground arith)) (ground arith)
  ]

  -- One period less does not, unless it would be none.
  pub periods_least :
      (periods previous interval now ≡ 1)
      ⊎ (previous + (periods previous interval now - 1) * interval ≤ now)
  periods_least = elim (Bool-cases (leb previous now)) [
    | inl late ↦
        let within = div-mul-le_self (now - previous) interval in
        inr (rw (periods-late (ground arith)) (ground arith))
    | inr ahead ↦ inl (periods-early (ground arith))
  ]

  pub periods_positive : 0 < periods previous interval now
  periods_positive = elim (Bool-cases (leb previous now)) [
    | inl late ↦ rw (periods-late (ground arith)) (omega arith)
    | inr ahead ↦ rw (periods-early (ground arith)) (omega arith)
  ]

-- The test of the code is whether the deadline stays within 64 bits.
fits_of_quotient :
    (count previous interval : ℕ)
    → 0 < interval
    → previous ≤ u64_max
    → ltb ((u64_max - previous) / interval) count ≡ false
    → previous + count * interval ≤ u64_max
fits_of_quotient count previous interval pos small e =
    let under : count ≤ (u64_max - previous) / interval = ground arith in
    let product = (le-div_iff_mul-le pos).0 under in omega arith

passes_of_quotient :
    (count previous interval : ℕ)
    → 0 < interval
    → ltb ((u64_max - previous) / interval) count ≡ true
    → u64_max < previous + count * interval
passes_of_quotient count previous interval pos e =
    let over = (div-lt_iff_lt-mul pos).0 (ltb→lt ((u64_max - previous) / interval) count e) in
    omega arith

-- `count` intervals are the fewest, but at least one, that lead from `previous` past `now`.
abbrev pub Fewest : ℕ → ℕ → ℕ → ℕ → Type 0
Fewest previous interval now count =
    (0 < count)
    × (now < previous + count * interval)
    × ((count ≡ 1) ⊎ (previous + (count - 1) * interval ≤ now))

-- Why a timer is not rescheduled.
pub data Refused (realloc : ℕ → Bool) (h : TimerHeap) (t now : ℕ) : Type 0 where
  running : (h.timers t).active ≡ true → Refused realloc h t now
  one_shot : (h.timers t).interval_ns ≡ 0 → Refused realloc h t now
  too_late :
      (count : ℕ)
      → Fewest (h.timers t).deadline_ns (h.timers t).interval_ns now count
      → u64_max < (h.timers t).deadline_ns + count * (h.timers t).interval_ns
      → Refused realloc h t now
  no_room : h.len ≡ h.cap → Exhausted realloc h.cap → Refused realloc h t now

-- What `reschedule_fixed` may return.
abbrev pub Rescheduled : (ℕ → Bool) → TimerHeap → ℕ → ℕ → Bool × TimerHeap → Type 0
Rescheduled realloc h t now (r, h') =
    let previous = (h.timers t).deadline_ns in
    let interval = (h.timers t).interval_ns in
    ((r ≡ true)
      × ((n : ℕ) × Fewest previous interval now n
          × (previous + n * interval ≤ u64_max)
          × Added h t (previous + n * interval) interval (h.timers t).userdata h'))
    ⊎ ((r ≡ false) × (h' ≡ h) × Refused realloc h t now)

module _ (realloc : ℕ → Bool) (h : TimerHeap) (t now : ℕ) (v : Valid h)
    (fresh : h.next_sequence + 1 < u64_mod) (early : now < u64_max)
    (sized : (h.timers t).deadline_ns ≤ u64_max) where
  abbrev previous : ℕ
  previous = (h.timers t).deadline_ns

  abbrev interval : ℕ
  interval = (h.timers t).interval_ns

  abbrev count : ℕ
  count = periods previous interval now

  count-Fewest : 0 < interval → Fewest previous interval now count
  count-Fewest pos = (
    periods_positive previous interval now pos early,
    periods-past previous interval now pos early,
    periods_least previous interval now pos early,
  )

  reschedule-guards :
      ((h.timers t).active || (interval == 0)) ≡ true
      → reschedule_fixed realloc h t now ≡ (false, h)
  unfolding reschedule_fixed
  reschedule-guards e = rw e refl

  reschedule-far :
      ((h.timers t).active || (interval == 0)) ≡ false
      → ltb ((u64_max - previous) / interval) count ≡ true
      → reschedule_fixed realloc h t now ≡ (false, h)
  unfolding reschedule_fixed
  reschedule-far e f = rw (e, f) refl

  reschedule-add :
      ((h.timers t).active || (interval == 0)) ≡ false
      → ltb ((u64_max - previous) / interval) count ≡ false
      → reschedule_fixed realloc h t now
        ≡ add realloc h t (previous + count * interval) interval (h.timers t).userdata
  unfolding reschedule_fixed
  reschedule-add e f = rw (e, f) refl

  -- A valid heap whose sequence numbers are not used up, and a current time below the largest: either
  -- the timer is added again, with its interval, at its last deadline plus the fewest intervals, at
  -- least one, that lead past the current time; or nothing is changed, and then the timer is active,
  -- has no interval, would be due past the largest 64-bit time, or there is no room for it.
  pub reschedule_fixed-Rescheduled : Rescheduled realloc h t now (reschedule_fixed realloc h t now)
  reschedule_fixed-Rescheduled = elim (Bool-cases ((h.timers t).active || (interval == 0))) [
    | inl e ↦ rw (reschedule-guards e) (
        inr (
          refl,
          refl,
          elim (Bool-cases (h.timers t).active) [
            | inl a ↦ running a
            | inr a ↦ one_shot (ground arith)
          ],
        ))
    | inr e ↦
        let pos : 0 < interval = ground arith in
        elim (Bool-cases (ltb ((u64_max - previous) / interval) count)) [
          | inl far ↦ rw (reschedule-far e far) (
              inr (
                refl,
                refl,
                too_late count (count-Fewest pos)
                    (passes_of_quotient count previous interval pos far),
              ))
          | inr near ↦
              rw (reschedule-add e near)
                (elim (add-AddOutcome realloc h t (previous + count * interval) interval
                  (h.timers t).userdata v fresh) [
                    | inl (r, idle, added) ↦ inl (
                      r,
                      (
                        count,
                        count-Fewest pos,
                        fits_of_quotient count previous interval pos sized near,
                        added,
                      ),
                    )
                    | inr (r, same, why) ↦
                        inr
                          (r, same, elim why [ inl a ↦ running a | inr (full, x) ↦ no_room full x ])
                  ])
        ]
  ]
