-- ===== src/Timer/Invariant.antt =====
-- What always holds of the heap of src/timer.c between its operations.
use i3sd.Common.{ℕ, ◌≤◌, ◌<◌, ◌≡◌, ap, sym, ◌∙◌, true, u64_mod, arith}
use i3sd.Timer.{Timer, TimerHeap}
use i3sd.Timer.Order.{Ordered}
use i3sd.Timer.Links.{rank_at, Linked, Rearranged}
use i3sd.Timer.Sifting.{Numbered, Sifted}

-- The part that does not depend on the order in the array: sequence numbers were handed out, and tell
-- the timers apart.
pub record Counted (h : TimerHeap) : Type 0 where
  pub bounded : h.len ≤ h.cap
  pub counter : h.next_sequence < u64_mod
  pub issued : (t : ℕ) → (h.timers t).active ≡ true → (h.timers t).sequence ≤ h.next_sequence
  pub distinct :
      (t u : ℕ)
      → (h.timers t).active ≡ true
      → (h.timers u).active ≡ true
      → (h.timers t).sequence ≡ (h.timers u).sequence
      → t ≡ u

pub record Valid (h : TimerHeap) : Type 0 where
  pub linked : Linked h
  pub ordered : Ordered (rank_at h) h.len
  pub counted : Counted h

pub Counted-Numbered : {h : TimerHeap} → Counted h → Numbered h
Counted-Numbered c t a = omega (arith, c.counter, c.issued t a)

module _ {h h' : TimerHeap} (r : Rearranged h h') where
  pub active_same : (t : ℕ) → (h'.timers t).active ≡ (h.timers t).active
  active_same t = ap (λ (u : Timer). u.active) (r.kept t)

  pub sequence_kept : (t : ℕ) → (h'.timers t).sequence ≡ (h.timers t).sequence
  sequence_kept t = ap (λ (u : Timer). u.sequence) (r.kept t)

  pub Rearranged-Counted : Counted h → Counted h'
  Rearranged-Counted c = record {
    bounded = omega (arith, c.bounded, r.len_same, r.cap_same);
    counter = omega (arith, c.counter, r.sequence_same);
    issued = λ t a.
        omega (arith, c.issued t (sym (active_same t) ∙ a), sequence_kept t, r.sequence_same);
    distinct = λ t u a b e.
        c.distinct t u (sym (active_same t) ∙ a) (sym (active_same u) ∙ b)
          (sym (sequence_kept t) ∙ e ∙ sequence_kept u);
  }

-- A heap that was sifted into order is valid.
pub Sifted-Valid : {h h' : TimerHeap} → Sifted h h' → Counted h → Valid h'
Sifted-Valid s c = record {
  linked = s.linked;
  ordered = s.ordered;
  counted = Rearranged-Counted s.rearranged c;
}
