-- ===== src/Timer/Cancelling.antt =====
-- `cancel` of src/timer.c: the timer leaves the heap, and the last one takes its place.
use mathlib.Core.Path.{fun_ext, subst}
use i3sd.Common.{
  ℕ, suc, ◌+◌, ◌-◌, ◌≤◌, ◌<◌, ◌≡◌, ◌≢◌, inl, inr, refl, ap, sym, ◌∙◌, Bool, true, false, ◌&&◌, ltb,
  ltb→lt, ◌==◌, if◌then◌else◌, write, Bool-cases, arith,
}
use i3sd.Timer.{
  Timer, TimerHeap, timer_at, timer_before, set_index, set_idle, timer_sift_up, timer_sift_down,
  refill, cancel,
}
use i3sd.Timer.Order.{parent, Ordered, Rising, Sinking, ℕ-split, replaced-Rising, replaced-Sinking}
use i3sd.Timer.Links.{rank, rank_at, forget, forget-set_index, Linked, Rearranged}
use i3sd.Timer.Sifting.{Sifted, before_at, Numbered}
use i3sd.Timer.Up.{sift_up-Sifted}
use i3sd.Timer.Down.{sift_down-Sifted}
use i3sd.Timer.Invariant.{Counted, Valid, Counted-Numbered, Sifted-Valid, Rearranged-Counted}

-- `h'` is `h` without the timer `t`: valid, `t` only made idle, and every other timer unchanged but for
-- its place.
pub record Cancelled (h : TimerHeap) (t : ℕ) (h' : TimerHeap) : Type 0 where
  pub own : forget (h'.timers t) ≡ record (forget (h.timers t)) { active = false }
  pub others : (u : ℕ) → u ≢ t → forget (h'.timers u) ≡ forget (h.timers u)
  pub shorter : h'.len + 1 ≡ h.len
  pub valid : Valid h'

-- The last timer at the place `k`.
abbrev refilled : TimerHeap → ℕ → TimerHeap
refilled h k = record h {
  items = write h.items k (h.items h.len);
  timers = set_index h.timers (h.items h.len) k;
}

abbrev goes_up : TimerHeap → ℕ → Bool
goes_up h k =
    ltb 0 k && timer_before (timer_at (refilled h k) k) (timer_at (refilled h k) (parent k))

module _ (h : TimerHeap) (k : ℕ) where
  refill_stays : k ≡ h.len → refill h k ≡ h
  unfolding refill
  refill_stays e = let same : (k == h.len) ≡ true = ground arith in rw same refl

  refill_up : k ≢ h.len → goes_up h k ≡ true → refill h k ≡ timer_sift_up (refilled h k) k
  unfolding refill
  refill_up d e = let other : (k == h.len) ≡ false = ground arith in rw (other, e) refl

  refill_down : k ≢ h.len → goes_up h k ≡ false → refill h k ≡ timer_sift_down (refilled h k) k
  unfolding refill
  refill_down d e = let other : (k == h.len) ≡ false = ground arith in rw (other, e) refl

not_before : (a b : ℕ) → ltb a b ≡ false → b ≤ a
not_before a b e = ground arith

module _ (h : TimerHeap) (t : ℕ) (v : Valid h) (on : (h.timers t).active ≡ true) where
  abbrev index : ℕ
  index = (h.timers t).heap_index

  abbrev idle : TimerHeap
  idle = record h { timers = set_idle h.timers t; len = h.len - 1 }

  abbrev last : ℕ
  last = h.items (h.len - 1)

  abbrev moved : TimerHeap
  moved = record idle {
    items = write h.items index last;
    timers = set_index (set_idle h.timers t) last index;
  }

  inside : index < h.len
  inside = v.linked.found t on

  at_index : h.items index ≡ t
  at_index = v.linked.named t on

  idle-old : (u : ℕ) → u ≢ t → idle.timers u ≡ h.timers u
  idle-old u d = ground arith

  idle-own : idle.timers t ≡ record (h.timers t) { active = false }
  idle-own = ground arith

  -- A timer that is still active is another one, active before.
  still : (u : ℕ) → (idle.timers u).active ≡ true → (u ≢ t) × ((h.timers u).active ≡ true)
  still u a = elim (ℕ-split u t) [
    | inl e ↦
        let off : (idle.timers u).active ≡ false = rw e (ap (λ (x : Timer). x.active) idle-own) in
        cc
    | inr e ↦ (e, ap (λ (x : Timer). x.active) (sym (idle-old u e)) ∙ a)
  ]

  -- The timer stands at its own place only.
  elsewhere : (i : ℕ) → i < h.len → i ≢ index → h.items i ≢ t
  elsewhere i p d e =
      let own : (timer_at h i).heap_index ≡ index = ap (λ k. (h.timers k).heap_index) e in
      d (sym (v.linked.indexed i p) ∙ own)

  idle-rank : (u : ℕ) → rank (idle.timers u) ≡ rank (h.timers u)
  idle-rank u = elim (ℕ-split u t) [
    | inl e ↦ rw e (ap rank idle-own)
    | inr e ↦ ap rank (idle-old u e)
  ]

  idle-sequence : (u : ℕ) → (idle.timers u).sequence ≡ (h.timers u).sequence
  idle-sequence u = elim (ℕ-split u t) [
    | inl e ↦ rw e (ap (λ (x : Timer). x.sequence) idle-own)
    | inr e ↦ ap (λ (x : Timer). x.sequence) (idle-old u e)
  ]

  idle-index : (u : ℕ) → (idle.timers u).heap_index ≡ (h.timers u).heap_index
  idle-index u = elim (ℕ-split u t) [
    | inl e ↦ rw e (ap (λ (x : Timer). x.heap_index) idle-own)
    | inr e ↦ ap (λ (x : Timer). x.heap_index) (idle-old u e)
  ]

  idle-Counted : Counted idle
  idle-Counted = record {
    bounded = omega (arith, v.counted.bounded);
    counter = v.counted.counter;
    issued = λ u a. omega (arith, idle-sequence u, v.counted.issued u (still u a).1);
    distinct = λ u w a b e.
        v.counted.distinct u w (still u a).1 (still w b).1
          (sym (idle-sequence u) ∙ e ∙ idle-sequence w);
  }

  idle-Linked : index ≡ h.len - 1 → Linked idle
  idle-Linked at_end = record {
    held = λ i p.
        ap (λ (x : Timer). x.active)
          (idle-old (h.items i) (elsewhere i (omega arith) (omega (arith, inside))))
        ∙ v.linked.held i (omega arith);
    indexed = λ i p. idle-index (h.items i) ∙ v.linked.indexed i (omega arith);
    found = λ u a.
        let old = v.linked.found u (still u a).1 in
        let not_last : (h.timers u).heap_index ≢ index =
          λ e. (still u a).0 (sym (v.linked.named u (still u a).1) ∙ ap h.items e ∙ at_index) in
        omega (arith, idle-index u, old, not_last);
    named = λ u a. ap h.items (idle-index u) ∙ v.linked.named u (still u a).1;
  }

  -- The last timer was the one.
  idle-Valid : index ≡ h.len - 1 → Valid idle
  idle-Valid at_end = record {
    linked = idle-Linked at_end;
    ordered = record {
      below = λ i p q. omega (
        arith,
        idle-rank (h.items i),
        idle-rank (h.items (parent i)),
        v.ordered.below i p (omega arith),
      );
    };
    counted = idle-Counted;
  }

  moved-Rearranged : Rearranged idle moved
  moved-Rearranged = record {
    len_same = refl;
    cap_same = refl;
    sequence_same = refl;
    kept = λ u. forget-set_index (set_idle h.timers t) last index u;
  }

  moved_active : (u : ℕ) → (moved.timers u).active ≡ (idle.timers u).active
  moved_active u = ap (λ (x : Timer). x.active) (moved-Rearranged.kept u)

  moved_index :
      (u : ℕ)
      → (moved.timers u).heap_index ≡ (if last == u then index else (idle.timers u).heap_index)
  moved_index u = elim (Bool-cases (last == u)) [ inl e ↦ rw e refl | inr e ↦ rw e refl ]

  module _ (not_end : index ≢ h.len - 1) where
    last_on : (h.timers last).active ≡ true
    last_on = v.linked.held (h.len - 1) (omega (arith, inside))

    last_index : (h.timers last).heap_index ≡ h.len - 1
    last_index = v.linked.indexed (h.len - 1) (omega (arith, inside))

    last_apart : last ≢ t
    last_apart = elsewhere (h.len - 1) (omega (arith, inside)) (λ e. not_end (sym e))

    moved_held : (i : ℕ) → i < h.len - 1 → (timer_at moved i).active ≡ true
    moved_held i p = elim (Bool-cases (index == i)) [
      | inl e ↦
          rw e
            (moved_active last ∙ ap (λ (x : Timer). x.active) (idle-old last last_apart) ∙ last_on)
      | inr e ↦
          let other = elsewhere i (omega arith) (ground arith) in
          rw e (
            moved_active (h.items i)
            ∙ ap (λ (x : Timer). x.active) (idle-old (h.items i) other)
            ∙ v.linked.held i (omega arith))
    ]

    moved_indexed : (i : ℕ) → i < h.len - 1 → (timer_at moved i).heap_index ≡ i
    moved_indexed i p = elim (Bool-cases (index == i)) [
      | inl e ↦ rw e (moved_index last ∙ ground arith)
      | inr e ↦ rw e (
          moved_index (h.items i)
          ∙ ground (arith, idle-index (h.items i), v.linked.indexed i, last_index))
    ]

    moved_found : (u : ℕ) → (moved.timers u).active ≡ true → (moved.timers u).heap_index < h.len - 1
    moved_found u a =
        let (other, b) = still u (sym (moved_active u) ∙ a) in
        ground (arith, moved_index u, idle-index u, inside, v.linked.found u b, v.linked.named u b)

    moved_named :
        (u : ℕ) → (moved.timers u).active ≡ true → moved.items (moved.timers u).heap_index ≡ u
    moved_named u a =
        let (other, b) = still u (sym (moved_active u) ∙ a) in
        elim (Bool-cases (last == u)) [
          | inl e ↦
              let here : (moved.timers u).heap_index ≡ index = moved_index u ∙ rw e refl in
              rw here (ground arith)
          | inr e ↦
              let there : (moved.timers u).heap_index ≡ (h.timers u).heap_index =
                moved_index u ∙ rw e (idle-index u) in
              rw there (ground (arith, at_index, v.linked.named u b))
        ]

    moved-Linked : Linked moved
    moved-Linked = record {
      held = moved_held;
      indexed = moved_indexed;
      found = moved_found;
      named = moved_named;
    }

    moved-rank : (i : ℕ) → rank_at moved i ≡ write (rank_at h) index (rank_at h (h.len - 1)) i
    moved-rank i =
        ap rank_forgotten (moved-Rearranged.kept (moved.items i)) ∙ elim (Bool-cases (index == i)) [
          | inl e ↦ rw e (idle-rank last)
          | inr e ↦ rw e (idle-rank (h.items i))
        ]
      where
        rank_forgotten : Timer → ℕ
        rank_forgotten x = rank x

    from_rank :
        (P : (ℕ → ℕ) → Type 0)
        → P (write (rank_at h) index (rank_at h (h.len - 1)))
        → P (rank_at moved)
    from_rank P x = subst P (sym (fun_ext moved-rank)) x

    whole : suc (h.len - 1) ≡ h.len
    whole = omega (arith, inside)

    whole-Ordered : Ordered (rank_at h) (suc (h.len - 1))
    whole-Ordered = rw whole v.ordered

    within : index < h.len - 1
    within = omega (arith, inside)

    moved-Counted : Counted moved
    moved-Counted = Rearranged-Counted moved-Rearranged idle-Counted

    moved-Numbered : Numbered moved
    moved-Numbered = Counted-Numbered moved-Counted

    rank_here : rank_at moved index ≡ rank_at h (h.len - 1)
    rank_here = moved-rank index ∙ ground arith

    rank_above : 0 < index → rank_at moved (parent index) ≡ rank_at h (parent index)
    rank_above pos = moved-rank (parent index) ∙ ground arith

    compared :
        0 < index
        → timer_before (timer_at moved index) (timer_at moved (parent index))
          ≡ ltb (rank_at h (h.len - 1)) (rank_at h (parent index))
    compared pos =
        rw (← rank_here, ← rank_above pos)
          (before_at moved index (parent index) moved-Linked moved-Numbered within
            (omega (arith, within)))

    rises :
        0 < index
        → timer_before (timer_at moved index) (timer_at moved (parent index)) ≡ true
        → Sifted moved (timer_sift_up moved index)
    unfolding timer_sift_up
    rises pos sooner =
        sift_up-Sifted index moved index moved-Linked moved-Numbered within (omega arith) (
          from_rank (λ f. Rising f (h.len - 1) index)
            (replaced-Rising (rank_at h) (h.len - 1) index whole-Ordered within pos
              (ltb→lt _ _ (sym (compared pos) ∙ sooner))))

    sinks :
        (0 < index → timer_before (timer_at moved index) (timer_at moved (parent index)) ≡ false)
        → Sifted moved (timer_sift_down moved index)
    unfolding timer_sift_down
    sinks later =
        sift_down-Sifted moved.len moved index moved-Linked moved-Numbered within (omega arith) (
          from_rank (λ f. Sinking f (h.len - 1) index)
            (replaced-Sinking (rank_at h) (h.len - 1) index whole-Ordered within
              (λ pos. not_before _ _ (sym (compared pos) ∙ later pos))))

    refill-Sifted : Sifted moved (refill idle index)
    refill-Sifted = elim (Bool-cases (goes_up idle index)) [
      | inl up ↦ rw (refill_up idle index not_end up) (rises (ground arith) (ground arith))
      | inr down ↦ rw (refill_down idle index not_end down) (sinks (λ pos. ground arith))
    ]

    refill-Cancelled : Cancelled h t (refill idle index)
    refill-Cancelled =
        let kept = refill-Sifted.rearranged.kept in
        record {
          own = kept t ∙ moved-Rearranged.kept t ∙ ap forget idle-own;
          others = λ u e. kept u ∙ moved-Rearranged.kept u ∙ ap forget (idle-old u e);
          shorter = omega (arith, refill-Sifted.rearranged.len_same, inside);
          valid = Sifted-Valid refill-Sifted moved-Counted;
        }

  cancel_active : cancel h t ≡ refill idle index
  unfolding cancel
  cancel_active = rw on refl

  -- From a valid heap `cancel` of an active timer leaves a valid heap in which that timer is idle, its
  -- other fields but the place as they were, and every other timer as it was but for its place.
  pub cancel-Cancelled : Cancelled h t (cancel h t)
  cancel-Cancelled = rw cancel_active (elim (ℕ-split index (h.len - 1)) [
    | inl e ↦ rw (refill_stays idle index e) (record {
      own = ap forget idle-own;
      others = λ u d. ap forget (idle-old u d);
      shorter = omega (arith, inside);
      valid = idle-Valid e;
    })
    | inr d ↦ refill-Cancelled d
  ])
