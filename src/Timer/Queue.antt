-- ===== src/Timer/Queue.antt =====
-- `pop_due` of src/timer.c: the earliest due timer, first come first served among equal deadlines.
use i3sd.Common.{
  ℕ, ◌≤◌, ◌<◌, ◌≡◌, ◌≢◌, ◌⊎◌, inl, inr, refl, ap, sym, true, Option, none, some, ltb, ◌==◌,
  Bool-cases, u64_mod, arith,
}
use i3sd.Timer.{Timer, TimerHeap, peek, pop_due, cancel}
use i3sd.Timer.Order.{root-least}
use i3sd.Timer.Links.{rank, rank_at}
use i3sd.Timer.Invariant.{Valid}
use i3sd.Timer.Cancelling.{Cancelled, cancel-Cancelled}

-- An earlier deadline, or the same and added earlier.
abbrev pub Before : Timer → Timer → Type 0
Before a b =
    (a.deadline_ns < b.deadline_ns) ⊎ ((a.deadline_ns ≡ b.deadline_ns) × (a.sequence < b.sequence))

-- What `pop_due` may return: no timer, and then none is due; or the earliest of all, which is due, and
-- leaves the heap.
abbrev pub Popped : TimerHeap → ℕ → Option ℕ × TimerHeap → Type 0
Popped h now (none, h') =
    (h' ≡ h) × ((u : ℕ) → (h.timers u).active ≡ true → now < (h.timers u).deadline_ns)
Popped h now (some t, h') =
    ((h.timers t).active ≡ true)
    × ((h.timers t).deadline_ns ≤ now)
    × ((u : ℕ) → (h.timers u).active ≡ true → u ≢ t → Before (h.timers t) (h.timers u))
    × Cancelled h t h'

ranks-Before :
    (a b : Timer)
    → a.sequence < u64_mod
    → b.sequence < u64_mod
    → a.sequence ≢ b.sequence
    → rank a ≤ rank b
    → Before a b
ranks-Before a b p q d h = elim (Bool-cases (ltb a.deadline_ns b.deadline_ns)) [
  | inl sooner ↦ inl (ground arith)
  | inr other ↦ inr (ground arith, ground arith)
]

module _ (h : TimerHeap) (now : ℕ) where
  pop_due_empty : h.len ≡ 0 → pop_due h now ≡ (none, h)
  unfolding pop_due peek
  pop_due_empty e = rw e refl

  pop_due_early : 0 < h.len → now < (h.timers (h.items 0)).deadline_ns → pop_due h now ≡ (none, h)
  unfolding pop_due peek
  pop_due_early p e = ground arith

  pop_due_due :
      0 < h.len
      → (h.timers (h.items 0)).deadline_ns ≤ now
      → pop_due h now ≡ (some (h.items 0), cancel h (h.items 0))
  unfolding pop_due peek
  pop_due_due p e = ground arith

module _ (h : TimerHeap) (v : Valid h) where
  root-rank : (u : ℕ) → (h.timers u).active ≡ true → rank (h.timers (h.items 0)) ≤ rank (h.timers u)
  root-rank u a =
      let place = (h.timers u).heap_index in
      let least =
        root-least (rank_at h) h.len v.ordered (h.timers u).heap_index (h.timers u).heap_index
          (omega arith) (v.linked.found u a) in
      omega (arith, least, ap (λ k. rank (h.timers k)) (v.linked.named u a))

  root_active : (u : ℕ) → (h.timers u).active ≡ true → (h.timers (h.items 0)).active ≡ true
  root_active u a = v.linked.held 0 (omega (arith, v.linked.found u a))

  root-Before :
      (u : ℕ)
      → (h.timers (h.items 0)).active ≡ true
      → (h.timers u).active ≡ true
      → u ≢ h.items 0
      → Before (h.timers (h.items 0)) (h.timers u)
  root-Before u r a d =
      let c = v.counted in
      ranks-Before (h.timers (h.items 0)) (h.timers u)
        (omega (arith, c.issued (h.items 0) r, c.counter)) (omega (arith, c.issued u a, c.counter))
        (λ e. d (c.distinct u (h.items 0) a r (sym e))) (root-rank u a)

  -- From a valid heap `pop_due` returns no timer only where no active timer is due, and changes nothing
  -- then; else it returns a due timer that stands before every other active one, by its deadline or, with
  -- the same deadline, by its number, and takes it out of the heap as `cancel` does.
  pub pop_due-Popped : (now : ℕ) → Popped h now (pop_due h now)
  pop_due-Popped now = elim (Bool-cases (h.len == 0)) [
    | inl empty ↦
        rw (pop_due_empty h now (ground arith))
          (refl, λ u a. absurd (ground (arith, v.linked.found u a)))
    | inr held ↦ elim (Bool-cases (ltb now (h.timers (h.items 0)).deadline_ns)) [
      | inl early ↦
          rw (pop_due_early h now (ground arith) (ground arith))
            (refl, λ u a. ground (arith, root-rank u a, v.counted.issued u a, v.counted.counter))
      | inr due ↦
          let on = v.linked.held 0 (ground arith) in
          rw (pop_due_due h now (ground arith) (ground arith))
            (on, ground arith, λ u a d. root-Before u on a d, cancel-Cancelled h (h.items 0) v on)
    ]
  ]
