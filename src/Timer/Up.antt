-- ===== src/Timer/Up.antt =====
-- The upward sift loop of src/timer.c puts a heap in order that is out of order at one place.
use mathlib.Core.Path.{fun_ext, subst}
use i3sd.Common.{ℕ, zero, suc, ◌≤◌, ◌<◌, ◌≡◌, refl, sym, true, false, Bool-cases, inl, inr, arith}
use i3sd.Timer.{TimerHeap, timer_at, timer_before, timer_swap, sift_up}
use i3sd.Timer.Order.{exchange, parent, Rising, Rising-Ordered, Rising-swap}
use i3sd.Timer.Links.{rank_at, Linked, timer_swap-Rearranged, timer_swap-Linked, rank-swap}
use i3sd.Timer.Sifting.{
  Numbered, Rearranged-Numbered, Sifted, before_at, Sifted-after, Ordered-Sifted,
}

-- The round of sift_up that ends, and the one that goes on.
module _ (fuel : ℕ) (h : TimerHeap) (k : ℕ) where
  pub sift_up-stop :
      timer_before (timer_at h k) (timer_at h (parent k)) ≡ false → sift_up (suc fuel) h k ≡ h
  unfolding sift_up
  sift_up-stop e = ground arith

  pub sift_up-go :
      0 < k
      → timer_before (timer_at h k) (timer_at h (parent k)) ≡ true
      → sift_up (suc fuel) h k ≡ sift_up fuel (timer_swap h k (parent k)) (parent k)
  unfolding sift_up
  sift_up-go p e = ground arith

swap-Rising :
    (h : TimerHeap) (k : ℕ)
    → Rising (exchange (rank_at h) k (parent k)) h.len (parent k)
    → Rising (rank_at (timer_swap h k (parent k))) (timer_swap h k (parent k)).len (parent k)
swap-Rising h k r =
    rw ((timer_swap-Rearranged h k (parent k)).len_same)
      (subst (λ f. Rising f h.len (parent k)) (sym (fun_ext (rank-swap h k (parent k)))) r)

pub sift_up-none : (h : TimerHeap) (k : ℕ) → sift_up zero h k ≡ h
unfolding sift_up
sift_up-none h k = refl

positive : (f : ℕ → ℕ) (k : ℕ) → f k < f (parent k) → 0 < k
positive f zero less = absurd (omega arith)
positive f (suc k) less = omega arith

pub sift_up-Sifted :
    (fuel : ℕ) (h : TimerHeap) (k : ℕ)
    → Linked h
    → Numbered h
    → k < h.len
    → k ≤ fuel
    → Rising (rank_at h) h.len k
    → Sifted h (sift_up fuel h k)
sift_up-Sifted zero h k l n small short r =
    rw (sift_up-none h k)
      (Ordered-Sifted h l (Rising-Ordered (rank_at h) h.len k r (λ pos. absurd (omega arith))))
sift_up-Sifted (suc fuel) h k l n small short r =
    let before = before_at h k (parent k) l n small (omega arith) in
    elim (Bool-cases (timer_before (timer_at h k) (timer_at h (parent k)))) [
      | inr stop ↦
          let top : rank_at h (parent k) ≤ rank_at h k = ground arith in
          rw (sift_up-stop fuel h k stop)
            (Ordered-Sifted h l (Rising-Ordered (rank_at h) h.len k r (λ pos. top)))
      | inl go ↦
          let less : rank_at h k < rank_at h (parent k) = ground arith in
          let pos : 0 < k = positive (rank_at h) k less in
          let swapped = timer_swap-Rearranged h k (parent k) in
          let rest =
            sift_up-Sifted fuel (timer_swap h k (parent k)) (parent k)
              (timer_swap-Linked h k (parent k) l small (omega arith))
              (Rearranged-Numbered swapped n) (omega (arith, swapped.len_same)) (omega arith)
              (swap-Rising h k (Rising-swap (rank_at h) h.len k r pos small less)) in
          rw (sift_up-go fuel h k pos go) (Sifted-after swapped rest)
    ]
