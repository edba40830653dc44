-- ===== src/Timer/Adding.antt =====
-- `add` of src/timer.c on each of its branches.
use i3sd.Common.{
  ℕ, ◌+◌, ◌*◌, ◌/◌, ◌≤◌, ◌<◌, ◌≡◌, ◌⊎◌, inl, inr, refl, Bool, true, false, none, some, ltb, ◌==◌,
  if◌then◌else◌, Bool-cases, Option-cases, u64_mod, u64_max, arith,
}
use i3sd.Timer.{TimerHeap, make_room, push, add, pointer_bytes}
use i3sd.Timer.Invariant.{Valid}
use i3sd.Timer.Pushing.{Added, push-Added}

abbrev pub doubled : ℕ → ℕ
doubled cap = if cap == 0 then 16 else cap * 2

-- A larger array would pass the address space, or there is no memory for it.
abbrev pub Exhausted : (ℕ → Bool) → ℕ → Type 0
Exhausted realloc cap =
    (u64_max / pointer_bytes < doubled cap) ⊎ (realloc (doubled cap * pointer_bytes) ≡ false)

make_room-none :
    (realloc : ℕ → Bool) (h : TimerHeap)
    → make_room realloc h ≡ none
    → (h.len ≡ h.cap) × Exhausted realloc h.cap
unfolding make_room
make_room-none realloc h e = (
  ground arith,
  elim (Bool-cases (ltb (u64_max / pointer_bytes) (doubled h.cap))) [
    | inl big ↦ inl (ground arith)
    | inr small ↦ inr (ground arith)
  ],
)

make_room-some :
    (realloc : ℕ → Bool) (h r : TimerHeap)
    → h.len ≤ h.cap
    → make_room realloc h ≡ some r
    → (cap : ℕ) × (r ≡ record h { cap = cap }) × (h.len < cap)
unfolding make_room
make_room-some realloc h r b e = (r.cap, ground arith, ground arith)

-- The array's capacity matters to nothing but its own bound.
room-Valid : (h : TimerHeap) (cap : ℕ) → Valid h → h.len < cap → Valid (record h { cap = cap })
room-Valid h cap v b = record {
  linked = record {
    held = v.linked.held;
    indexed = v.linked.indexed;
    found = v.linked.found;
    named = v.linked.named;
  };
  ordered = v.ordered;
  counted = record {
    bounded = omega arith;
    counter = v.counted.counter;
    issued = v.counted.issued;
    distinct = v.counted.distinct;
  };
}

-- What `add` may return: the timer was idle and is added, or nothing is changed, as it was active or
-- as the array was full and could not grow.
abbrev pub AddOutcome : (ℕ → Bool) → TimerHeap → ℕ → ℕ → ℕ → ℕ → Bool × TimerHeap → Type 0
AddOutcome realloc h t deadline interval userdata (r, h') =
    ((r ≡ true) × ((h.timers t).active ≡ false) × Added h t deadline interval userdata h')
    ⊎ ((r ≡ false)
        × (h' ≡ h)
        × (((h.timers t).active ≡ true) ⊎ ((h.len ≡ h.cap) × Exhausted realloc h.cap)))

module _ (realloc : ℕ → Bool) (h : TimerHeap) (t deadline interval userdata : ℕ) (v : Valid h)
    (fresh : h.next_sequence + 1 < u64_mod) where
  add-refused : (h.timers t).active ≡ true → add realloc h t deadline interval userdata ≡ (false, h)
  unfolding add
  add-refused a = rw a refl

  add-exhausted :
      make_room realloc h ≡ none → add realloc h t deadline interval userdata ≡ (false, h)
  unfolding add
  add-exhausted e = ground arith

  add-push :
      (room : TimerHeap)
      → (h.timers t).active ≡ false
      → make_room realloc h ≡ some room
      → add realloc h t deadline interval userdata ≡ push room t deadline interval userdata
  unfolding add
  add-push room a e = ground arith

  roomy :
      (cap : ℕ) (room : TimerHeap)
      → (h.timers t).active ≡ false
      → room ≡ record h { cap = cap }
      → h.len < cap
      → AddOutcome realloc h t deadline interval userdata (push room t deadline interval userdata)
  roomy cap room a e b =
      let larger : TimerHeap = record h { cap = cap } in
      let (returns, added) =
        push-Added larger t deadline interval userdata (room-Valid h cap v b) a b fresh in
      rw e (
        inl (
          returns,
          a,
          record {
            own = added.own;
            others = added.others;
            longer = added.longer;
            valid = added.valid;
          },
        ))

  -- From a valid heap whose sequence numbers are not used up, `add` either returns true, for an idle
  -- timer: the heap is valid, holds it with the given fields and the next sequence number, and every
  -- other timer is as it was but for its place; or it returns false and changes nothing, and then the
  -- timer was active already, or the array was full and its double passes the address space or is
  -- refused by `realloc`.
  pub add-AddOutcome :
      AddOutcome realloc h t deadline interval userdata (add realloc h t deadline interval userdata)
  add-AddOutcome = elim (Bool-cases (h.timers t).active) [
    | inl a ↦ rw (add-refused a) (inr (refl, refl, inl a))
    | inr a ↦ elim (Option-cases (make_room realloc h)) [
      | inl e ↦ rw (add-exhausted e) (inr (refl, refl, inr (make_room-none realloc h e)))
      | inr (room, e) ↦
          let (cap, same, larger) = make_room-some realloc h room v.counted.bounded e in
          rw (add-push room a e) (roomy cap room a same larger)
    ]
  ]
