-- ===== src/Timer/Pushing.antt =====
-- A timer put into a heap of src/timer.c that has room for it.
use i3sd.Common.{
  ℕ, ◌+◌, ◌%◌, ◌≤◌, ◌<◌, ◌≡◌, ◌≢◌, ◌⊎◌, inl, inr, refl, ap, sym, ◌∙◌, true, false, ◌==◌, write,
  u64_mod, arith,
}
use i3sd.Timer.{Timer, TimerHeap, timer_at, timer_sift_up, push}
use i3sd.Timer.Order.{parent, Rising, ℕ-split}
use i3sd.Timer.Links.{rank, rank_at, forget, Linked}
use i3sd.Timer.Sifting.{Sifted}
use i3sd.Timer.Up.{sift_up-Sifted}
use i3sd.Timer.Invariant.{Counted, Valid, Counted-Numbered, Sifted-Valid}

-- `h'` is `h` with the timer `t` added: valid, `t` as given and with the next sequence number, and every
-- other timer unchanged but for its place.
pub record Added (h : TimerHeap) (t deadline interval userdata : ℕ) (h' : TimerHeap) : Type 0 where
  pub own : forget (h'.timers t) ≡ record {
    deadline_ns = deadline;
    interval_ns = interval;
    sequence = h.next_sequence + 1;
    heap_index = 0;
    userdata = userdata;
    active = true;
  }
  pub others : (u : ℕ) → u ≢ t → forget (h'.timers u) ≡ forget (h.timers u)
  pub longer : h'.len ≡ h.len + 1
  pub valid : Valid h'

module _ (h : TimerHeap) (t deadline interval userdata : ℕ) (v : Valid h)
    (idle : (h.timers t).active ≡ false) (room : h.len < h.cap)
    (fresh : h.next_sequence + 1 < u64_mod) where
  abbrev new_timer : Timer
  new_timer = record {
    deadline_ns = deadline;
    interval_ns = interval;
    sequence = h.next_sequence + 1;
    heap_index = h.len;
    userdata = userdata;
    active = true;
  }

  abbrev placed : TimerHeap
  placed = record h {
    next_sequence = h.next_sequence + 1;
    timers = write h.timers t new_timer;
    items = write h.items h.len t;
    len = h.len + 1;
  }

  push-placed : push h t deadline interval userdata ≡ (true, timer_sift_up placed h.len)
  unfolding push
  push-placed =
      let fits : (h.next_sequence + 1) % u64_mod ≡ h.next_sequence + 1 = omega arith in
      let wraps : (h.next_sequence + 1 == 0) ≡ false = ground arith in
      let same : (t == t) ≡ true = ground arith in rw (fits, wraps, same) refl

  timers-old : (u : ℕ) → u ≢ t → placed.timers u ≡ h.timers u
  timers-old u d = ground arith

  timers-new : placed.timers t ≡ new_timer
  timers-new = ground arith

  items-old : (i : ℕ) → i < h.len → placed.items i ≡ h.items i
  items-old i p = ground arith

  items-new : placed.items h.len ≡ t
  items-new = ground arith

  -- A timer in the heap is not the idle one.
  apart : (u : ℕ) → (h.timers u).active ≡ true → u ≢ t
  apart u a e = let same : (h.timers u).active ≡ false = rw e idle in cc

  timer_at-old : (i : ℕ) → i < h.len → timer_at placed i ≡ timer_at h i
  timer_at-old i p =
      rw (items-old i p) (timers-old (h.items i) (apart (h.items i) (v.linked.held i p)))

  timer_at-new : timer_at placed h.len ≡ new_timer
  timer_at-new = rw items-new timers-new

  held_placed : (i : ℕ) → i < h.len + 1 → (timer_at placed i).active ≡ true
  held_placed i p = elim (ℕ-split i h.len) [
    | inl e ↦ rw e (ap (λ (u : Timer). u.active) timer_at-new)
    | inr e ↦
        ap (λ (u : Timer). u.active) (timer_at-old i (omega arith)) ∙ v.linked.held i (omega arith)
  ]

  indexed_placed : (i : ℕ) → i < h.len + 1 → (timer_at placed i).heap_index ≡ i
  indexed_placed i p = elim (ℕ-split i h.len) [
    | inl e ↦ rw e (ap (λ (u : Timer). u.heap_index) timer_at-new)
    | inr e ↦
        ap (λ (u : Timer). u.heap_index) (timer_at-old i (omega arith))
        ∙ v.linked.indexed i (omega arith)
  ]

  -- A timer of the larger heap is the new one or an old one.
  whose :
      (u : ℕ) → (placed.timers u).active ≡ true → (u ≡ t) ⊎ ((u ≢ t) × ((h.timers u).active ≡ true))
  whose u a = elim (ℕ-split u t) [
    | inl e ↦ inl e
    | inr e ↦ inr (e, ap (λ (x : Timer). x.active) (sym (timers-old u e)) ∙ a)
  ]

  found_placed :
      (u : ℕ) → (placed.timers u).active ≡ true → (placed.timers u).heap_index < h.len + 1
  found_placed u a = elim (whose u a) [
    | inl e ↦ let last = ap (λ (x : Timer). x.heap_index) timers-new in rw e (omega (arith, last))
    | inr (e, b) ↦
        let old = ap (λ (x : Timer). x.heap_index) (timers-old u e) in
        omega (arith, old, v.linked.found u b)
  ]

  named_placed :
      (u : ℕ) → (placed.timers u).active ≡ true → placed.items (placed.timers u).heap_index ≡ u
  named_placed u a = elim (whose u a) [
    | inl e ↦
        rw e (ap (λ k. placed.items k) (ap (λ (x : Timer). x.heap_index) timers-new) ∙ items-new)
    | inr (e, b) ↦
        ap (λ k. placed.items k) (ap (λ (x : Timer). x.heap_index) (timers-old u e))
        ∙ items-old (h.timers u).heap_index (v.linked.found u b)
        ∙ v.linked.named u b
  ]

  placed-Linked : Linked placed
  placed-Linked = record {
    held = held_placed;
    indexed = indexed_placed;
    found = found_placed;
    named = named_placed;
  }

  rank-old : (i : ℕ) → i < h.len → rank_at placed i ≡ rank_at h i
  rank-old i p = ap rank (timer_at-old i p)

  placed-Rising : Rising (rank_at placed) (h.len + 1) h.len
  placed-Rising = record {
    below = λ i e p q. omega (
      arith,
      rank-old i (omega arith),
      rank-old (parent i) (omega arith),
      v.ordered.below i p (omega arith),
    );
    across = λ i p q e pos. absurd (omega arith);
  }

  sequence-old : (u : ℕ) → u ≢ t → (placed.timers u).sequence ≡ (h.timers u).sequence
  sequence-old u e = ap (λ (x : Timer). x.sequence) (timers-old u e)

  sequence-new : (u : ℕ) → u ≡ t → (placed.timers u).sequence ≡ h.next_sequence + 1
  sequence-new u e = rw e (ap (λ (x : Timer). x.sequence) timers-new)

  issued_placed :
      (u : ℕ) → (placed.timers u).active ≡ true → (placed.timers u).sequence ≤ h.next_sequence + 1
  issued_placed u a = elim (whose u a) [
    | inl e ↦ omega (arith, sequence-new u e)
    | inr (e, b) ↦ omega (arith, sequence-old u e, v.counted.issued u b)
  ]

  distinct_placed :
      (u w : ℕ)
      → (placed.timers u).active ≡ true
      → (placed.timers w).active ≡ true
      → (placed.timers u).sequence ≡ (placed.timers w).sequence
      → u ≡ w
  distinct_placed u w a b e = elim (whose u a) [
    | inl p ↦ elim (whose w b) [
      | inl q ↦ p ∙ sym q
      | inr (d, q) ↦
          absurd (omega (arith, e, sequence-new u p, sequence-old w d, v.counted.issued w q))
    ]
    | inr (c, p) ↦ elim (whose w b) [
      | inl q ↦ absurd (omega (arith, e, sequence-new w q, sequence-old u c, v.counted.issued u p))
      | inr (d, q) ↦ v.counted.distinct u w p q (sym (sequence-old u c) ∙ e ∙ sequence-old w d)
    ]
  ]

  placed-Counted : Counted placed
  placed-Counted = record {
    bounded = omega arith;
    counter = fresh;
    issued = issued_placed;
    distinct = distinct_placed;
  }

  placed-Sifted : Sifted placed (timer_sift_up placed h.len)
  unfolding timer_sift_up
  placed-Sifted =
      sift_up-Sifted h.len placed h.len placed-Linked (Counted-Numbered placed-Counted)
        (omega arith) (omega arith) placed-Rising

  pub push-Added :
      ((push h t deadline interval userdata).0 ≡ true)
      × Added h t deadline interval userdata (push h t deadline interval userdata).1
  push-Added =
      let kept = placed-Sifted.rearranged.kept in
      rw push-placed (
        refl,
        record {
          own = kept t ∙ ap forget timers-new;
          others = λ u e. kept u ∙ ap forget (timers-old u e);
          longer = placed-Sifted.rearranged.len_same;
          valid = Sifted-Valid placed-Sifted placed-Counted;
        },
      )
