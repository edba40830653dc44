-- ===== src/Timer/Down.antt =====
-- The downward sift loop of src/timer.c puts a heap in order that is out of order at one place.
use mathlib.Core.Path.{fun_ext, subst}
use i3sd.Common.{
  ℕ, zero, suc, ◌+◌, ◌*◌, ◌≤◌, ◌<◌, ◌≡◌, ◌≢◌, ◌⊎◌, refl, sym, ◌∙◌, ltb, Bool-cases, inl, inr, arith,
}
use i3sd.Timer.{TimerHeap, timer_at, timer_before, timer_swap, sift_down, earlier}
use i3sd.Timer.Order.{exchange, parent, ℕ-split, Sinking, Sinking-Ordered, Sinking-swap}
use i3sd.Timer.Links.{rank_at, Linked, timer_swap-Rearranged, timer_swap-Linked, rank-swap}
use i3sd.Timer.Sifting.{
  Numbered, Rearranged-Numbered, Sifted, before_at, Sifted-after, Ordered-Sifted,
}

-- `x` is the earlier of `candidate`, if that is in the heap, and `e`.
record Earlier (h : TimerHeap) (candidate e x : ℕ) : Type 0 where
  inside : x < h.len
  either : (x ≡ e) ⊎ (x ≡ candidate)
  first : rank_at h x ≤ rank_at h e
  second : candidate < h.len → rank_at h x ≤ rank_at h candidate
  strict : x ≢ e → rank_at h x < rank_at h e

earlier-Earlier :
    (h : TimerHeap) (candidate e : ℕ)
    → Linked h
    → Numbered h
    → e < h.len
    → Earlier h candidate e (earlier h candidate e)
unfolding earlier
earlier-Earlier h candidate e l n small = elim (Bool-cases (ltb candidate h.len)) [
  | inr out ↦ rw out (record {
    inside = small;
    either = inl refl;
    first = omega arith;
    second = λ c. absurd (ground arith);
    strict = λ d. absurd (d refl);
  })
  | inl within ↦
      let c : candidate < h.len = ground arith in
      let before = before_at h candidate e l n c small in
      elim (Bool-cases (timer_before (timer_at h candidate) (timer_at h e))) [
        | inr later ↦
            rw (within, later)
              (record {
                inside = small;
                either = inl refl;
                first = omega arith;
                second = λ _. ground arith;
                strict = λ d. absurd (d refl);
              })
        | inl sooner ↦
            let less : rank_at h candidate < rank_at h e = ground arith in
            rw (within, sooner)
              (record {
                inside = c;
                either = inr refl;
                first = omega arith;
                second = λ _. omega arith;
                strict = λ _. less;
              })
      ]
]

chosen :
    (f : ℕ → ℕ) (k e x : ℕ)
    → (e ≡ k) ⊎ (e ≡ k * 2 + 1)
    → (x ≡ e) ⊎ (x ≡ k * 2 + 2)
    → (e ≢ k → f e < f k)
    → (x ≢ e → f x < f e)
    → f e ≤ f k
    → x ≢ k
    → (parent x ≡ k) × (0 < x) × (f x < f k)
chosen f k e x (inl a) (inl b) le lx down moved = absurd (moved (b ∙ a))
chosen f k e x (inr a) (inl b) le lx down moved =
    let apart : e ≢ k = omega arith in
    let less : f x < f k = rw b (le apart) in (omega arith, omega arith, less)
chosen f k e x a (inr b) le lx down moved =
    let apart : x ≢ e = elim a [ inl c ↦ omega arith | inr c ↦ omega arith ] in
    (omega arith, omega arith, omega (arith, lx apart))

-- The place that a round of sift_down goes on with.
abbrev pub next_place : TimerHeap → ℕ → ℕ
next_place h k = earlier h (k * 2 + 2) (earlier h (k * 2 + 1) k)

module _ (h : TimerHeap) (k : ℕ) (l : Linked h) (n : Numbered h) (small : k < h.len) where
  abbrev left : Earlier h (k * 2 + 1) k (earlier h (k * 2 + 1) k)
  left = earlier-Earlier h (k * 2 + 1) k l n small

  abbrev both : Earlier h (k * 2 + 2) (earlier h (k * 2 + 1) k) (next_place h k)
  both = earlier-Earlier h (k * 2 + 2) (earlier h (k * 2 + 1) k) l n left.inside

  next_place-inside : next_place h k < h.len
  next_place-inside = both.inside

  next_place-left : k * 2 + 1 < h.len → rank_at h (next_place h k) ≤ rank_at h (k * 2 + 1)
  next_place-left c = omega (arith, both.first, left.second c)

  next_place-right : k * 2 + 2 < h.len → rank_at h (next_place h k) ≤ rank_at h (k * 2 + 2)
  next_place-right c = both.second c

  next_place-least :
      (i : ℕ) → 0 < i → i < h.len → parent i ≡ k → rank_at h (next_place h k) ≤ rank_at h i
  next_place-least i p q e = elim (ℕ-split i (k * 2 + 1)) [
    | inl a ↦ rw a (next_place-left (omega arith))
    | inr b ↦ let c : i ≡ k * 2 + 2 = omega arith in rw c (next_place-right (omega arith))
  ]

  next_place-less :
      next_place h k ≢ k
      → (parent (next_place h k) ≡ k)
        × (0 < next_place h k)
        × (rank_at h (next_place h k) < rank_at h k)
  next_place-less moved =
      chosen (rank_at h) k (earlier h (k * 2 + 1) k) (next_place h k) left.either both.either
        left.strict both.strict left.first moved

swap-Sinking :
    (h : TimerHeap) (k c : ℕ)
    → Sinking (exchange (rank_at h) k c) h.len c
    → Sinking (rank_at (timer_swap h k c)) (timer_swap h k c).len c
swap-Sinking h k c s =
    rw ((timer_swap-Rearranged h k c).len_same)
      (subst (λ f. Sinking f h.len c) (sym (fun_ext (rank-swap h k c))) s)

pub sift_down-stop :
    (fuel : ℕ) (h : TimerHeap) (k : ℕ) → next_place h k ≡ k → sift_down (suc fuel) h k ≡ h
unfolding sift_down
sift_down-stop fuel h k e = ground arith

pub sift_down-go :
    (fuel : ℕ) (h : TimerHeap) (k : ℕ)
    → next_place h k ≢ k
    → sift_down (suc fuel) h k ≡ sift_down fuel (timer_swap h k (next_place h k)) (next_place h k)
unfolding sift_down
sift_down-go fuel h k e = ground arith

pub sift_down-Sifted :
    (fuel : ℕ) (h : TimerHeap) (k : ℕ)
    → Linked h
    → Numbered h
    → k < h.len
    → h.len ≤ k + fuel
    → Sinking (rank_at h) h.len k
    → Sifted h (sift_down fuel h k)
sift_down-Sifted zero h k l n small short s = absurd (omega arith)
sift_down-Sifted (suc fuel) h k l n small short s = elim (ℕ-split (next_place h k) k) [
  | inl here ↦ rw (sift_down-stop fuel h k here) (
      Ordered-Sifted h l (
        Sinking-Ordered (rank_at h) h.len k s (λ c. rw here at (next_place-left h k l n small c))
          (λ c. rw here at (next_place-right h k l n small c))))
  | inr moved ↦
      let (child, pos, less) = next_place-less h k l n small moved in
      let inside = next_place-inside h k l n small in
      let swapped = timer_swap-Rearranged h k (next_place h k) in
      let rest =
        sift_down-Sifted fuel (timer_swap h k (next_place h k)) (next_place h k)
          (timer_swap-Linked h k (next_place h k) l small inside) (Rearranged-Numbered swapped n)
          (omega (arith, swapped.len_same)) (omega (arith, swapped.len_same))
          (swap-Sinking h k (next_place h k) (
            Sinking-swap (rank_at h) h.len k (next_place h k) s child pos inside less
              (next_place-least h k l n small))) in
      rw (sift_down-go fuel h k moved) (Sifted-after swapped rest)
]
