-- ===== src/IdSet.antt =====
-- src/id_set.c: an open-addressing map from byte strings to indexes, of fixed size.
mod Probing
pub mod Invariant
mod Adding
pub mod Model
mod Refinement
mod Filling
mod Tests
use Prim.Native.Nat.{bit_and}
use i3sd.Common.{
  write, ℕ, zero, suc, ◌+◌, ◌-◌, ◌%◌, Bool, true, false, ◌&&◌, Option, none, some, List, ◌==◌,
  if◌then◌else◌, length, list_eq,
}

abbrev pub capacity : ℕ
capacity = 256

abbrev pub slot_mask : ℕ
slot_mask = 511

-- The mask keeps one of 512 slots.
abbrev pub slot_count : ℕ
slot_count = 512

pub data InsertResult : Type 0 where
  inserted : InsertResult
  duplicate : InsertResult
  full : InsertResult

-- `key` stands for the borrowed bytes, so that `len` is its length.
pub record Entry : Type 0 where
  pub key : List ℕ
  pub hash : ℕ
  pub value : ℕ

-- The arrays as functions of the index; a slot holds the index of an entry plus one, or zero.
pub record IdSet : Type 0 where
  pub slots : ℕ → ℕ
  pub entries : ℕ → Entry
  pub count : ℕ

-- The entries keep what they held.
unfoldable pub init : IdSet → IdSet
init s = record s { slots = λ _. 0; count = 0 }

unfoldable pub same : Entry → List ℕ → ℕ → Bool
same e key hash = (e.hash == hash) && ((length e.key == length key) && list_eq e.key key)

-- The `for` of probe. A full round visits 512 slots; `none` means that no slot stopped it.
unfoldable pub probe_from : ℕ → IdSet → List ℕ → ℕ → ℕ → Option ℕ
probe_from zero s key hash slot = none
probe_from (suc fuel) s key hash slot =
    let rest = probe_from fuel s key hash (bit_and (slot + 1) slot_mask) in
    let occupant = s.slots slot in
    if occupant == 0
    then some slot
    else if same (s.entries (occupant - 1)) key hash
    then some slot
    else rest

unfoldable pub probe : IdSet → List ℕ → ℕ → Option ℕ
probe s key hash = probe_from slot_count s key hash (bit_and hash slot_mask)

-- `insert` from the slot that the probe returned; a slot is a `uint16_t`.
unfoldable pub insert_at : IdSet → ℕ → List ℕ → ℕ → ℕ → InsertResult × IdSet
insert_at s slot key hash value =
    if s.slots slot == 0
    then (if s.count == capacity then (full, s) else (
      inserted,
      record s {
        entries = write s.entries s.count (record { key = key; hash = hash; value = value });
        slots = write s.slots slot (suc s.count % 65536);
        count = suc s.count;
      },
    ))
    else (duplicate, s)

unfoldable pub value_at : IdSet → ℕ → Option ℕ
value_at s slot = if s.slots slot == 0 then none else some (s.entries (s.slots slot - 1)).value

-- `hash64` is `XXH3_64bits` of the bytes. The outer `none` of a result: the probe did not end.
module _ (hash64 : List ℕ → ℕ) where
  unfoldable pub insert : IdSet → List ℕ → ℕ → Option (InsertResult × IdSet)
  insert s key value = elim (probe s key (hash64 key)) [
    | none ↦ none
    | some slot ↦ some (insert_at s slot key (hash64 key) value)
  ]

  unfoldable pub find : IdSet → List ℕ → Option (Option ℕ)
  find s key = elim (probe s key (hash64 key)) [ none ↦ none | some slot ↦ some (value_at s slot) ]
