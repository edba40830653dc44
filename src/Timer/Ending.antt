-- ===== src/Timer/Ending.antt =====
-- The sift loops of src/timer.c end by their own tests: more rounds of fuel change nothing.
use i3sd.Common.{ℕ, zero, suc, ◌+◌, ◌≤◌, ◌<◌, ◌≡◌, ◌≢◌, inl, inr, refl, sym, ◌∙◌, Bool-cases, arith}
use i3sd.Timer.{
  TimerHeap, timer_at, timer_before, timer_swap, earlier, sift_up, sift_down, timer_sift_up,
  timer_sift_down,
}
use i3sd.Timer.Order.{parent, ℕ-split}
use i3sd.Timer.Links.{timer_swap-Rearranged}
use i3sd.Timer.Up.{sift_up-stop, sift_up-go}
use i3sd.Timer.Down.{next_place, sift_down-stop, sift_down-go}

sift_up-root : (fuel : ℕ) (h : TimerHeap) → sift_up fuel h 0 ≡ h
unfolding sift_up
sift_up-root zero h = refl
sift_up-root (suc fuel) h = refl

sift_up-more :
    (fuel extra : ℕ) (h : TimerHeap) (k : ℕ)
    → k ≤ fuel
    → sift_up (extra + fuel) h k ≡ sift_up fuel h k
sift_up-more fuel extra h zero short = sift_up-root (extra + fuel) h ∙ sym (sift_up-root fuel h)
sift_up-more zero extra h (suc k) short = absurd (omega arith)
sift_up-more (suc fuel) extra h (suc k) short =
    let next : extra + suc fuel ≡ suc (extra + fuel) = omega arith in
    elim (Bool-cases (timer_before (timer_at h (suc k)) (timer_at h (parent (suc k))))) [
      | inl go ↦
          rw
            (
              next,
              sift_up-go (extra + fuel) h (suc k) (omega arith) go,
              sift_up-go fuel h (suc k) (omega arith) go,
            )
            (sift_up-more fuel extra (timer_swap h (suc k) (parent (suc k))) (parent (suc k))
              (omega arith))
      | inr stop ↦
          rw (next, sift_up-stop (extra + fuel) h (suc k) stop, sift_up-stop fuel h (suc k) stop)
            refl
    ]

-- A place that is not in the heap has no earlier child.
next_place-last : (h : TimerHeap) (k : ℕ) → h.len ≤ k → next_place h k ≡ k
unfolding earlier
next_place-last h k p = ground arith

next_place-grows : (h : TimerHeap) (k : ℕ) → next_place h k ≢ k → k < next_place h k
unfolding earlier
next_place-grows h k d = ground arith

sift_down-last : (fuel : ℕ) (h : TimerHeap) (k : ℕ) → h.len ≤ k → sift_down fuel h k ≡ h
unfolding sift_down
sift_down-last zero h k p = refl
sift_down-last (suc fuel) h k p = sift_down-stop fuel h k (next_place-last h k p)

sift_down-more :
    (fuel extra : ℕ) (h : TimerHeap) (k : ℕ)
    → h.len ≤ k + fuel
    → sift_down (extra + fuel) h k ≡ sift_down fuel h k
sift_down-more zero extra h k short =
    sift_down-last (extra + 0) h k (omega arith) ∙ sym (sift_down-last 0 h k (omega arith))
sift_down-more (suc fuel) extra h k short =
    let next : extra + suc fuel ≡ suc (extra + fuel) = omega arith in
    elim (ℕ-split (next_place h k) k) [
      | inl stop ↦
          rw (next, sift_down-stop (extra + fuel) h k stop, sift_down-stop fuel h k stop) refl
      | inr go ↦
          let swapped = timer_swap-Rearranged h k (next_place h k) in
          let grows = next_place-grows h k go in
          rw (next, sift_down-go (extra + fuel) h k go, sift_down-go fuel h k go)
            (sift_down-more fuel extra (timer_swap h k (next_place h k)) (next_place h k)
              (omega (arith, swapped.len_same)))
    ]

-- Both sift loops have ended when their fuel, the index going up and the length going down, is used
-- up: with any more fuel they return the same heap.
pub timer_sift_ends :
    (extra : ℕ) (h : TimerHeap) (k : ℕ)
    → (sift_up (extra + k) h k ≡ timer_sift_up h k)
      × (sift_down (extra + h.len) h k ≡ timer_sift_down h k)
unfolding timer_sift_up timer_sift_down
timer_sift_ends extra h k =
    (sift_up-more k extra h k (omega arith), sift_down-more h.len extra h k (omega arith))
