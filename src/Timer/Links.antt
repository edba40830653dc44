-- ===== src/Timer/Links.antt =====
-- The array of src/timer.c and the place that each timer keeps agree, and a swap keeps them so.
use i3sd.Common.{
  ℕ, ◌+◌, ◌*◌, ◌<◌, ◌≡◌, refl, ap, sym, ◌∙◌, true, ltb, ◌==◌, if◌then◌else◌, write, Bool-cases, inl,
  inr, u64_mod, arith,
}
use i3sd.Timer.{Timer, TimerHeap, timer_at, timer_before, timer_swap, set_index}
use i3sd.Timer.Order.{exchange}

-- A number that is smaller exactly for an earlier timer, as a sequence number has 64 bits.
abbrev pub rank : Timer → ℕ
rank t = t.deadline_ns * u64_mod + t.sequence

abbrev pub rank_at : TimerHeap → ℕ → ℕ
rank_at h i = rank (timer_at h i)

pub timer_before-rank :
    (l r : Timer)
    → l.sequence < u64_mod
    → r.sequence < u64_mod
    → timer_before l r ≡ ltb (rank l) (rank r)
unfolding timer_before
timer_before-rank l r p q = ground arith

-- All of a timer but its place.
abbrev pub forget : Timer → Timer
forget t = record t { heap_index = 0 }

pub record Linked (h : TimerHeap) : Type 0 where
  pub held : (i : ℕ) → i < h.len → (timer_at h i).active ≡ true
  pub indexed : (i : ℕ) → i < h.len → (timer_at h i).heap_index ≡ i
  pub found : (t : ℕ) → (h.timers t).active ≡ true → (h.timers t).heap_index < h.len
  pub named : (t : ℕ) → (h.timers t).active ≡ true → h.items (h.timers t).heap_index ≡ t

-- `h'` holds the timers of `h`, in another order at most.
pub record Rearranged (h h' : TimerHeap) : Type 0 where
  pub len_same : h'.len ≡ h.len
  pub cap_same : h'.cap ≡ h.cap
  pub sequence_same : h'.next_sequence ≡ h.next_sequence
  pub kept : (t : ℕ) → forget (h'.timers t) ≡ forget (h.timers t)

pub Rearranged-refl : (h : TimerHeap) → Rearranged h h
Rearranged-refl h = record {
  len_same = refl;
  cap_same = refl;
  sequence_same = refl;
  kept = λ t. refl;
}

pub Rearranged-trans : {a b c : TimerHeap} → Rearranged a b → Rearranged b c → Rearranged a c
Rearranged-trans p q = record {
  len_same = q.len_same ∙ p.len_same;
  cap_same = q.cap_same ∙ p.cap_same;
  sequence_same = q.sequence_same ∙ p.sequence_same;
  kept = λ t. q.kept t ∙ p.kept t;
}

pub forget-set_index :
    (timers : ℕ → Timer) (u k t : ℕ) → forget (set_index timers u k t) ≡ forget (timers t)
forget-set_index timers u k t = elim (Bool-cases (u == t)) [
  | inl e ↦ let same : u ≡ t = ground arith in rw (e, same) refl
  | inr e ↦ rw e refl
]

pub rank-forget : (a b : Timer) → forget a ≡ forget b → rank a ≡ rank b
rank-forget a b e = ap rank e

module _ (h : TimerHeap) (l r : ℕ) where
  pub timer_swap-Rearranged : Rearranged h (timer_swap h l r)
  unfolding timer_swap
  timer_swap-Rearranged = record {
    len_same = refl;
    cap_same = refl;
    sequence_same = refl;
    kept = λ t.
        forget-set_index
          (set_index h.timers (write (write h.items l (h.items r)) r (h.items l) l) l)
          (write (write h.items l (h.items r)) r (h.items l) r) r t
        ∙ forget-set_index h.timers (write (write h.items l (h.items r)) r (h.items l) l) l t;
  }

  swapped_item :
      (i : ℕ)
      → (timer_swap h l r).items i
        ≡ (if i == l then h.items r else if i == r then h.items l else h.items i)
  unfolding timer_swap
  swapped_item i = ground arith

  pub rank-swap : (i : ℕ) → rank_at (timer_swap h l r) i ≡ exchange (rank_at h) l r i
  rank-swap i =
      rank-forget ((timer_swap h l r).timers ((timer_swap h l r).items i))
        (h.timers ((timer_swap h l r).items i))
        (timer_swap-Rearranged.kept ((timer_swap h l r).items i))
      ∙ rw (swapped_item i) (moved i)
    where
      moved :
          (i : ℕ)
          → rank (h.timers (if i == l then h.items r else if i == r then h.items l else h.items i))
            ≡ exchange (rank_at h) l r i
      moved i = elim (Bool-cases (i == l)) [
        | inl e ↦ rw e refl
        | inr e ↦ elim (Bool-cases (i == r)) [ inl g ↦ rw (e, g) refl | inr g ↦ rw (e, g) refl ]
      ]

  swapped_index :
      (t : ℕ)
      → ((timer_swap h l r).timers t).heap_index
        ≡ (if h.items l == t then r else if h.items r == t then l else (h.timers t).heap_index)
  unfolding timer_swap
  swapped_index t = ground arith

  swapped_active : (t : ℕ) → ((timer_swap h l r).timers t).active ≡ (h.timers t).active
  swapped_active t = ap (λ (u : Timer). u.active) (timer_swap-Rearranged.kept t)

  module _ (k : Linked h) (p : l < h.len) (q : r < h.len) where
    index_item :
        (i : ℕ)
        → i < h.len
        → ((timer_swap h l r).timers ((timer_swap h l r).items i)).heap_index ≡ i
    index_item i s = rw (swapped_item i) (elim (Bool-cases (i == l)) [
      | inl e ↦ rw e (swapped_index (h.items r) ∙ ground (arith, k.indexed l, k.indexed r))
      | inr e ↦ elim (Bool-cases (i == r)) [
        | inl g ↦ rw (e, g) (swapped_index (h.items l) ∙ ground (arith, k.indexed l))
        | inr g ↦
            rw (e, g)
              (swapped_index (h.items i) ∙ ground (arith, k.indexed i, k.indexed l, k.indexed r))
      ]
    ])

    active_item : (i : ℕ) → i < h.len → (h.timers ((timer_swap h l r).items i)).active ≡ true
    active_item i s = rw (swapped_item i) (elim (Bool-cases (i == l)) [
      | inl e ↦ rw e (k.held r q)
      | inr e ↦ elim (Bool-cases (i == r)) [
        | inl g ↦ rw (e, g) (k.held l p)
        | inr g ↦ rw (e, g) (k.held i s)
      ]
    ])

    item_index :
        (t : ℕ)
        → (h.timers t).active ≡ true
        → (timer_swap h l r).items ((timer_swap h l r).timers t).heap_index ≡ t
    item_index t a = rw (swapped_index t) (elim (Bool-cases (h.items l == t)) [
      | inl e ↦ rw e (swapped_item r ∙ ground (arith, k.named t))
      | inr e ↦ elim (Bool-cases (h.items r == t)) [
        | inl g ↦ rw (e, g) (swapped_item l ∙ ground (arith, k.named t))
        | inr g ↦ rw (e, g) (swapped_item (h.timers t).heap_index ∙ ground (arith, k.named t))
      ]
    ])

    pub timer_swap-Linked : Linked (timer_swap h l r)
    timer_swap-Linked =
        let lengths = timer_swap-Rearranged.len_same in
        record {
          held = λ i s.
              swapped_active ((timer_swap h l r).items i) ∙ active_item i (omega (arith, lengths));
          indexed = λ i s. index_item i (omega (arith, lengths));
          found = λ t a.
              ground (arith, lengths, swapped_index t, k.found t (sym (swapped_active t) ∙ a));
          named = λ t a. item_index t (sym (swapped_active t) ∙ a);
        }
