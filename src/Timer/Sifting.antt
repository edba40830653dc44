-- ===== src/Timer/Sifting.antt =====
-- A heap of src/timer.c sifted into order: the same timers in a heap order.
use i3sd.Common.{ℕ, ◌<◌, ◌≡◌, ap, sym, ◌∙◌, true, ltb, u64_mod, arith}
use i3sd.Timer.{Timer, TimerHeap, timer_at, timer_before}
use i3sd.Timer.Order.{Ordered}
use i3sd.Timer.Links.{
  rank_at, timer_before-rank, Linked, Rearranged, Rearranged-refl, Rearranged-trans,
}

-- The sequence numbers of the timers in the heap have 64 bits.
abbrev pub Numbered : TimerHeap → Type 0
Numbered h = (t : ℕ) → (h.timers t).active ≡ true → (h.timers t).sequence < u64_mod

pub Rearranged-Numbered : {h h' : TimerHeap} → Rearranged h h' → Numbered h → Numbered h'
Rearranged-Numbered r n t a =
    let active = ap (λ (u : Timer). u.active) (r.kept t) in
    let sequence = ap (λ (u : Timer). u.sequence) (r.kept t) in
    omega (arith, sequence, n t (sym active ∙ a))

-- The heap in order, with the same timers.
pub record Sifted (h h' : TimerHeap) : Type 0 where
  pub rearranged : Rearranged h h'
  pub linked : Linked h'
  pub ordered : Ordered (rank_at h') h'.len

pub before_at :
    (h : TimerHeap) (i j : ℕ)
    → Linked h
    → Numbered h
    → i < h.len
    → j < h.len
    → timer_before (timer_at h i) (timer_at h j) ≡ ltb (rank_at h i) (rank_at h j)
before_at h i j k n p q =
    timer_before-rank (timer_at h i) (timer_at h j) (n (h.items i) (k.held i p))
      (n (h.items j) (k.held j q))

pub Sifted-after : {a b c : TimerHeap} → Rearranged a b → Sifted b c → Sifted a c
Sifted-after r s = record {
  rearranged = Rearranged-trans r s.rearranged;
  linked = s.linked;
  ordered = s.ordered;
}

pub Ordered-Sifted : (h : TimerHeap) → Linked h → Ordered (rank_at h) h.len → Sifted h h
Ordered-Sifted h k o = record { rearranged = Rearranged-refl h; linked = k; ordered = o }
