-- ===== src/IdSet/Invariant.antt =====
-- The invariant of the set of src/id_set.c, what the probe finds under it, and that an entry added
-- where the probe ended keeps it.
use Prim.Native.Nat.{bit_and}
use i3sd.Common.{
  write, ℕ, zero, suc, ◌+◌, ◌-◌, ◌%◌, ◌≤◌, ◌<◌, ◌≡◌, ◌≢◌, inl, inr, refl, ap, ◌∙◌, true, false,
  some, List, ◌==◌, if◌then◌else◌, Bool-cases, ltb, arith,
}
use i3sd.Common.Bits.{bit_and_nine}
use i3sd.IdSet.{IdSet, probe, capacity}
use i3sd.IdSet.Probing.{
  slot_of, stops, stops-false, stops-free, stops-same, stops-entry, Stopped, probe_from-Stopped,
}

-- How many of the first `n` slots are in use.
pub occupied : (ℕ → ℕ) → ℕ → ℕ
occupied slots zero = 0
occupied slots (suc n) = (if slots n == 0 then 0 else 1) + occupied slots n

free_slot : (slots : ℕ → ℕ) (n : ℕ) → occupied slots n < n → (j : ℕ) × (j < n) × (slots j ≡ 0)
unfolding occupied
free_slot slots zero h = elim h [ ]
free_slot slots (suc n) h = elim (Bool-cases (slots n == 0)) [
  | inl free ↦ (n, omega arith, ground arith)
  | inr used ↦ let (j, small, e) = free_slot slots n (ground arith) in (j, omega (arith, small), e)
]

occupied-write_past :
    (slots : ℕ → ℕ) (n j v : ℕ) → n ≤ j → occupied (write slots j v) n ≡ occupied slots n
unfolding occupied
occupied-write_past slots zero j v h = refl
occupied-write_past slots (suc n) j v h =
    ground (arith, occupied-write_past slots n j v (omega arith))

pub occupied-write :
    (slots : ℕ → ℕ) (n j v : ℕ)
    → j < n
    → slots j ≡ 0
    → v ≢ 0
    → occupied (write slots j v) n ≡ suc (occupied slots n)
unfolding occupied
occupied-write slots zero j v h free used = elim h [ ]
occupied-write slots (suc n) j v h free used = elim (Bool-cases (j == n)) [
  | inl here ↦ ground (arith, occupied-write_past slots n j v (ground arith))
  | inr below ↦ ground (arith, occupied-write slots n j v (ground arith) free used)
]

pub occupied-none : (n : ℕ) → occupied (λ _. 0) n ≡ 0
unfolding occupied
occupied-none zero = refl
occupied-none (suc n) = omega (arith, occupied-none n)

-- Entry `i` stands `distance` slots from its home, with no empty slot before it.
pub record Placed (s : IdSet) (hash i : ℕ) : Type 0 where
  pub distance : ℕ
  pub close : distance < 512
  pub here : s.slots (slot_of hash distance) ≡ suc i
  pub unbroken : (e : ℕ) → e < distance → s.slots (slot_of hash e) ≢ 0

pub record Table (hash64 : List ℕ → ℕ) (s : IdSet) : Type 0 where
  pub bounded : s.count ≤ capacity
  pub used : (j : ℕ) → s.slots j ≤ s.count
  pub counted : occupied s.slots 512 ≡ s.count
  pub hashed : (i : ℕ) → i < s.count → (s.entries i).hash ≡ hash64 (s.entries i).key
  pub placed : (i : ℕ) → i < s.count → Placed s (s.entries i).hash i
  pub unique : (i j : ℕ) → i < s.count → j < s.count → (s.entries i).key ≡ (s.entries j).key → i ≡ j

-- What the probe returns: the empty slot where a new key belongs, or the slot of the key's entry.
pub data Probed (s : IdSet) (key : List ℕ) (hash slot : ℕ) : Type 0 where
  vacant :
      (d : ℕ)
      → d < 512
      → slot ≡ slot_of hash d
      → s.slots slot ≡ 0
      → ((e : ℕ) → e < d → s.slots (slot_of hash e) ≢ 0)
      → ((i : ℕ) → i < s.count → (s.entries i).key ≢ key)
      → Probed s key hash slot
  held :
      (i : ℕ)
      → i < s.count
      → s.slots slot ≡ suc i
      → (s.entries i).key ≡ key
      → Probed s key hash slot

module _ (hash64 : List ℕ → ℕ) (s : IdSet) (table : Table hash64 s) (key : List ℕ) where
  open table use {used, hashed, placed}

  -- A key that an entry holds stops the probe no later than the entry's slot.
  reaches :
      (i d : ℕ)
      → i < s.count
      → (s.entries i).key ≡ key
      → s.slots (slot_of (s.entries i).hash d) ≡ suc i
      → stops s key (hash64 key) (slot_of (hash64 key) d) ≡ true
  reaches i d h e at =
      let hash : (s.entries i).hash ≡ hash64 key = hashed i h ∙ ap hash64 e in
      rw (← hash) (rw (← e) (stops-entry s i (slot_of (s.entries i).hash d) at))

  absent :
      (d : ℕ)
      → s.slots (slot_of (hash64 key) d) ≡ 0
      → ((e : ℕ) → e < d → stops s key (hash64 key) (slot_of (hash64 key) e) ≡ false)
      → (i : ℕ) → i < s.count
      → (s.entries i).key ≢ key
  absent d free before i h e =
      let p = placed i h in
      let hash : (s.entries i).hash ≡ hash64 key = hashed i h ∙ ap hash64 e in
      let stop = reaches i p.distance h e p.here in
      let here : s.slots (slot_of (hash64 key) p.distance) ≡ suc i = rw (← hash) p.here in
      elim (Bool-cases (ltb p.distance d)) [
        | inl nearer ↦ cc (before p.distance (ground arith), stop)
        | inr far ↦ elim (Bool-cases (ltb d p.distance)) [
          | inl past ↦ p.unbroken d (ground arith) (rw hash free)
          | inr at ↦
              let same_distance : p.distance ≡ d = ground arith in
              let taken : s.slots (slot_of (hash64 key) d) ≡ suc i = rw (← same_distance) here in
              omega (arith, taken, free)
        ]
      ]

  home_slot : (d : ℕ) → slot_of (bit_and (hash64 key) 511) d ≡ slot_of (hash64 key) d
  home_slot d = omega (arith, bit_and_nine (hash64 key))

  -- Any free slot ends the probe within a round.
  probe-Stopped :
      (j : ℕ)
      → j < 512
      → s.slots j ≡ 0
      → Stopped s key
          (hash64 key)
          (bit_and (hash64 key) 511)
          512
          ((j + 512 - bit_and (hash64 key) 511) % 512)
  probe-Stopped j small free =
      let home = bit_and_nine (hash64 key) in
      let arrives : slot_of (bit_and (hash64 key) 511) ((j + 512 - bit_and (hash64 key) 511) % 512)
          ≡ j =
        omega (arith, home) in
      probe_from-Stopped s key (hash64 key) 512 (bit_and (hash64 key) 511)
        ((j + 512 - bit_and (hash64 key) 511) % 512) (omega (arith, home)) (omega arith)
        (rw arrives (stops-free s key (hash64 key) j free))

  ends-Probed :
      (d : ℕ)
      → d < 512
      → stops s key (hash64 key) (slot_of (hash64 key) d) ≡ true
      → ((e : ℕ) → e < d → stops s key (hash64 key) (slot_of (hash64 key) e) ≡ false)
      → Probed s key (hash64 key) (slot_of (hash64 key) d)
  ends-Probed d small stop before = elim (Bool-cases (s.slots (slot_of (hash64 key) d) == 0)) [
    | inl free ↦
        vacant d small refl (ground arith)
          (λ e h. stops-false s key (hash64 key) (slot_of (hash64 key) e) (before e h))
          (absent d (ground arith) before)
    | inr taken ↦
        held (s.slots (slot_of (hash64 key) d) - 1) (ground (arith, used (slot_of (hash64 key) d)))
          (ground arith)
          (stops-same s key (hash64 key) (slot_of (hash64 key) d) stop (ground arith))
  ]

  pub probe-Probed :
      (slot : ℕ) × (probe s key (hash64 key) ≡ some slot) × Probed s key (hash64 key) slot
  unfolding probe
  probe-Probed =
      let (j, small, free) = free_slot s.slots 512 (omega (arith, table.counted, table.bounded)) in
      let r = probe-Stopped j small free in
      let at = home_slot r.steps in
      (
        slot_of (hash64 key) r.steps,
        r.ends ∙ ap some at,
        ends-Probed r.steps (omega (arith, r.within)) (rw (← at) r.at_end)
            (λ e h. rw (← home_slot e) (r.before e h)),
      )
