-- ===== src/IdSet/Adding.antt =====
-- The invariant of the set of src/id_set.c holds initially and after an insertion.
use i3sd.Common.{
  write, ℕ, suc, ◌<◌, ◌≡◌, ◌≢◌, ◌⊎◌, ltb, inl, inr, refl, ap, ◌∙◌, sym, List, ◌==◌, Bool-cases,
  arith,
}
use i3sd.IdSet.{IdSet, Entry, init}
use i3sd.IdSet.Probing.{slot_of}
use i3sd.IdSet.Invariant.{Table, Placed, occupied-write, occupied-none}

pub init-Table : (hash64 : List ℕ → ℕ) (s : IdSet) → Table hash64 (init s)
unfolding init
init-Table hash64 s = record {
  bounded = omega arith;
  used = λ j. omega arith;
  counted = occupied-none 512;
  hashed = λ i h. elim h [ ];
  placed = λ i h. elim h [ ];
  unique = λ i j h k e. elim h [ ];
}

-- A new key with its hash, at the empty slot `d` steps from its home.
module _ (hash64 : List ℕ → ℕ) (s : IdSet) (table : Table hash64 s) (key : List ℕ) (value d : ℕ)
    (close : d < 512) (room : s.count < 256) (free : s.slots (slot_of (hash64 key) d) ≡ 0)
    (unbroken : (e : ℕ) → e < d → s.slots (slot_of (hash64 key) e) ≢ 0)
    (absent : (i : ℕ) → i < s.count → (s.entries i).key ≢ key) where
  abbrev entry : Entry
  entry = record { key = key; hash = hash64 key; value = value }

  abbrev added : IdSet
  added = record s {
    entries = write s.entries s.count entry;
    slots = write s.slots (slot_of (hash64 key) d) (suc s.count);
    count = suc s.count;
  }

  entries-last : added.entries s.count ≡ entry
  entries-last = ground arith

  entries-old : (i : ℕ) → i < s.count → added.entries i ≡ s.entries i
  entries-old i h = ground arith

  -- A slot in use stays as it is.
  slots-old : (j : ℕ) → s.slots j ≢ 0 → added.slots j ≡ s.slots j
  slots-old j taken = elim (Bool-cases (slot_of (hash64 key) d == j)) [
    | inl same ↦ let e : slot_of (hash64 key) d ≡ j = ground arith in absurd (taken (rw (← e) free))
    | inr other ↦ rw other
  ]

  slots-used : (j : ℕ) → s.slots j ≢ 0 → added.slots j ≢ 0
  slots-used j taken e = taken (sym (slots-old j taken) ∙ e)

  old-Placed : (hash i : ℕ) → Placed s hash i → Placed added hash i
  old-Placed hash i p = record {
    distance = p.distance;
    close = p.close;
    here = slots-old (slot_of hash p.distance) (omega (arith, p.here)) ∙ p.here;
    unbroken = λ e h. slots-used (slot_of hash e) (p.unbroken e h);
  }

  new-Placed : Placed added (hash64 key) s.count
  new-Placed = record {
    distance = d;
    close = close;
    here = ground arith;
    unbroken = λ e h. slots-used (slot_of (hash64 key) e) (unbroken e h);
  }

  -- An index of the new set is an old one or the last.
  split : (i : ℕ) → i < suc s.count → (i < s.count) ⊎ (i ≡ s.count)
  split i h = elim (Bool-cases (ltb i s.count)) [
    | inl old ↦ inl (ground arith)
    | inr last ↦ inr (ground arith)
  ]

  added-hashed : (i : ℕ) → i < suc s.count → (added.entries i).hash ≡ hash64 (added.entries i).key
  added-hashed i h = elim (split i h) [
    | inl old ↦ rw (entries-old i old) (table.hashed i old)
    | inr last ↦ rw last (rw entries-last refl)
  ]

  added-Placed : (i : ℕ) → i < suc s.count → Placed added (added.entries i).hash i
  added-Placed i h = elim (split i h) [
    | inl old ↦ rw (entries-old i old) (old-Placed (s.entries i).hash i (table.placed i old))
    | inr last ↦ rw last (rw entries-last new-Placed)
  ]

  key-old : (i : ℕ) → i < s.count → (added.entries i).key ≡ (s.entries i).key
  key-old i h = ap (λ (e : Entry). e.key) (entries-old i h)

  key-last : (i : ℕ) → i ≡ s.count → (added.entries i).key ≡ key
  key-last i e = rw e (ap (λ (e : Entry). e.key) entries-last)

  added_unique :
      (i j : ℕ)
      → i < suc s.count
      → j < suc s.count
      → (added.entries i).key ≡ (added.entries j).key
      → i ≡ j
  added_unique i j h k e = elim (split i h) [
    | inl old ↦ elim (split j k) [
      | inl older ↦ table.unique i j old older (sym (key-old i old) ∙ e ∙ key-old j older)
      | inr last ↦ absurd (absent i old (sym (key-old i old) ∙ e ∙ key-last j last))
    ]
    | inr last ↦ elim (split j k) [
      | inl old ↦ absurd (absent j old (sym (key-old j old) ∙ sym e ∙ key-last i last))
      | inr last' ↦ last ∙ sym last'
    ]
  ]

  pub added-Table : Table hash64 added
  added-Table = record {
    bounded = omega (arith, table.bounded);
    used = λ j. ground (arith, table.used j);
    counted =
        occupied-write s.slots 512 (slot_of (hash64 key) d) (suc s.count) (omega arith) free
          (omega arith)
        ∙ ap suc table.counted;
    hashed = added-hashed;
    placed = added-Placed;
    unique = added_unique;
  }
