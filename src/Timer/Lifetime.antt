-- ===== src/Timer/Lifetime.antt =====
-- `destroy` of src/timer.c, and the heaps that a caller of its functions can reach.
use i3sd.Common.{
  ℕ, zero, suc, ◌+◌, ◌≤◌, ◌<◌, ◌≡◌, inl, inr, refl, Bool, true, false, Option, none, some, ◌==◌,
  Bool-cases, u64_mod, u64_max, arith,
}
use i3sd.Timer.{Timer, TimerHeap, add, cancel, pop_due, reschedule_fixed, deactivate, destroy}
use i3sd.Timer.Invariant.{Valid}
use i3sd.Timer.Adding.{add-AddOutcome}
use i3sd.Timer.Cancelling.{cancel-Cancelled}
use i3sd.Timer.Queue.{Popped, pop_due-Popped}
use i3sd.Timer.Rescheduling.{reschedule_fixed-Rescheduled}

deactivate-idle :
    (n : ℕ) (items : ℕ → ℕ) (timers : ℕ → Timer) (t : ℕ)
    → (timers t).active ≡ false
    → (deactivate n items timers t).active ≡ false
unfolding deactivate
deactivate-idle zero items timers t e = e
deactivate-idle (suc n) items timers t e = ground (arith, deactivate-idle n items timers t e)

deactivate-held :
    (n : ℕ) (items : ℕ → ℕ) (timers : ℕ → Timer) (i : ℕ)
    → i < n
    → (deactivate n items timers (items i)).active ≡ false
unfolding deactivate
deactivate-held zero items timers i p = elim p [ ]
deactivate-held (suc n) items timers i p = elim (Bool-cases (i == n)) [
  | inl e ↦ let last : i ≡ n = ground arith in rw last (ground arith)
  | inr e ↦ ground (arith, deactivate-held n items timers i (ground arith))
]

-- A heap without timers, all of which are idle.
pub idle-Valid :
    (h : TimerHeap)
    → h.len ≡ 0
    → h.next_sequence < u64_mod
    → ((t : ℕ) → (h.timers t).active ≡ false)
    → Valid h
idle-Valid h e c off = record {
  linked = record {
    held = λ i p. absurd (omega arith);
    indexed = λ i p. absurd (omega arith);
    found = λ t a. absurd (busy t a);
    named = λ t a. absurd (busy t a);
  };
  ordered = record { below = λ i p q. absurd (omega arith) };
  counted = record {
    bounded = omega arith;
    counter = c;
    issued = λ t a. absurd (busy t a);
    distinct = λ t u a b s. absurd (busy t a);
  };
}
  where
    busy : (t : ℕ) → (h.timers t).active ≡ true → ⊥
    busy t a = let b = off t in cc

destroy_idle : (h : TimerHeap) → Valid h → (t : ℕ) → ((destroy h).timers t).active ≡ false
unfolding destroy
destroy_idle h v t = elim (Bool-cases (h.timers t).active) [
  | inr off ↦ deactivate-idle h.len h.items h.timers t off
  | inl on ↦
      rw (← v.linked.named t on)
        (deactivate-held h.len h.items h.timers (h.timers t).heap_index (v.linked.found t on))
]

-- Destroying a valid heap makes every timer idle, and the heap is empty and valid again.
destroy-Valid : (h : TimerHeap) → Valid h → Valid (destroy h)
unfolding destroy
destroy-Valid h v = idle-Valid (destroy h) refl (omega arith) (destroy_idle h v)

-- One call of a function on a heap. Sequence numbers last for 2 ^ 64 - 1 calls of `add`, a deadline has
-- 64 bits, and the clock is below its largest value.
pub data Step (h : TimerHeap) : TimerHeap → Type 0 where
  adds :
      (realloc : ℕ → Bool) (t deadline interval userdata : ℕ)
      → h.next_sequence + 1 < u64_mod
      → Step h (add realloc h t deadline interval userdata).1
  cancels : (t : ℕ) → Step h (cancel h t)
  pops : (now : ℕ) → Step h (pop_due h now).1
  reschedules :
      (realloc : ℕ → Bool) (t now : ℕ)
      → h.next_sequence + 1 < u64_mod
      → now < u64_max
      → (h.timers t).deadline_ns ≤ u64_max
      → Step h (reschedule_fixed realloc h t now).1
  destroys : Step h (destroy h)

pub data Reach (h : TimerHeap) : TimerHeap → Type 0 where
  here : Reach h h
  then_step : {i j : TimerHeap} → Reach h i → Step i j → Reach h j

cancel_idle : (h : TimerHeap) (t : ℕ) → (h.timers t).active ≡ false → cancel h t ≡ h
unfolding cancel
cancel_idle h t e = rw e refl

pop_due-Valid :
    (h : TimerHeap) (r : Option ℕ × TimerHeap) (now : ℕ) → Valid h → Popped h now r → Valid r.1
pop_due-Valid h (none, h') now v (same, later) = rw same v
pop_due-Valid h (some t, h') now v (on, due, least, gone) = gone.valid

-- `r` holds a valid heap.
abbrev Sound : Bool × TimerHeap → Type 0
Sound (r, h) = Valid h

Step-Valid : {h h' : TimerHeap} → Step h h' → Valid h → Valid h'
Step-Valid {h} (adds realloc t deadline interval userdata fresh) v =
    elim (add-AddOutcome realloc h t deadline interval userdata v fresh) [
      | inl (r, off, added) ↦ added.valid
      | inr (r, same, why) ↦ rw same v
    ]
Step-Valid {h} (cancels t) v = elim (Bool-cases (h.timers t).active) [
  | inl on ↦ (cancel-Cancelled h t v on).valid
  | inr off ↦ rw (cancel_idle h t off) v
]
Step-Valid {h} (pops now) v = pop_due-Valid h (pop_due h now) now v (pop_due-Popped h v now)
Step-Valid {h} (reschedules realloc t now fresh early sized) v =
    elim (reschedule_fixed-Rescheduled realloc h t now v fresh early sized) [
      | inl (r, (n, fewest, fits, added)) ↦ added.valid
      | inr (r, same, why) ↦ rw same v
    ]
Step-Valid {h} destroys v = destroy-Valid h v

-- Whatever calls are made on a heap that starts empty, with all timers idle, the array and the timers'
-- own indices agree, exactly the active timers are in the array, no timer is before its parent, and the
-- sequence numbers of active timers differ.
pub Reach-Valid :
    {h h' : TimerHeap}
    → h.len ≡ 0
    → h.next_sequence < u64_mod
    → ((t : ℕ) → (h.timers t).active ≡ false)
    → Reach h h'
    → Valid h'
Reach-Valid {h} e c off here = idle-Valid h e c off
Reach-Valid {h} e c off (then_step r s) = Step-Valid s (Reach-Valid e c off r)
