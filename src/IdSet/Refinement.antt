-- ===== src/IdSet/Refinement.antt =====
-- The operations of src/id_set.c against the bounded map that they implement.
use i3sd.Common.{
  write, ℕ, suc, ◌<◌, ◌≡◌, ◌≢◌, ◌%◌, inl, inr, refl, true, false, none, some, List, ◌∷◌, ◌==◌,
  length, Bool-cases, arith,
}
use i3sd.IdSet.{
  IdSet, Entry, InsertResult, inserted, duplicate, full, insert, insert_at, value_at, find,
}
use i3sd.IdSet.Invariant.{Table, Probed, vacant, held, probe-Probed}
use i3sd.IdSet.Adding.{added-Table}
use i3sd.IdSet.Model.{
  lookup, put, contents, model, length-contents, contents-write, lookup-absent, lookup-held,
  put-held, put-full, put-room,
}

module _ (s : IdSet) (slot : ℕ) (key : List ℕ) (hash value : ℕ) where
  insert_at-held : s.slots slot ≢ 0 → insert_at s slot key hash value ≡ (duplicate, s)
  unfolding insert_at
  insert_at-held taken = let used : (s.slots slot == 0) ≡ false = ground arith in rw used refl

  insert_at-full : s.slots slot ≡ 0 → s.count ≡ 256 → insert_at s slot key hash value ≡ (full, s)
  unfolding insert_at
  insert_at-full free up = let all : (s.count == 256) ≡ true = ground arith in rw (free, all) refl

  insert_at-room :
      s.slots slot ≡ 0
      → s.count < 256
      → insert_at s slot key hash value ≡ (
        inserted,
        record {
          slots = write s.slots slot (suc s.count);
          entries = write s.entries s.count (record { key = key; hash = hash; value = value });
          count = suc s.count;
        },
      )
  unfolding insert_at
  insert_at-room free room =
      let more : (s.count == 256) ≡ false = ground arith in
      let fits : suc s.count % 65536 ≡ suc s.count = omega arith in rw (free, more, fits) refl

module _ (hash64 : List ℕ → ℕ) (s : IdSet) (table : Table hash64 s) (key : List ℕ) where
  model-absent : ((i : ℕ) → i < s.count → (s.entries i).key ≢ key) → lookup key (model s) ≡ none
  unfolding model
  model-absent absent = lookup-absent s.entries s.count key absent

  model-held :
      (i : ℕ)
      → i < s.count
      → (s.entries i).key ≡ key
      → lookup key (model s) ≡ some (s.entries i).value
  unfolding model
  model-held i h e = lookup-held s.entries s.count i key h e (λ j p k. table.unique i j h p k)

  length-model : length (model s) ≡ s.count
  unfolding model
  length-model = length-contents s.entries s.count

  value_at-lookup :
      (slot : ℕ) → Probed s key (hash64 key) slot → value_at s slot ≡ lookup key (model s)
  unfolding value_at
  value_at-lookup slot (vacant d small at free before absent) = ground (arith, model-absent absent)
  value_at-lookup slot (held i h at e) = ground (arith, model-held i h e)

  model-added :
      (slots : ℕ → ℕ) (e : Entry)
      → model (record { slots = slots; entries = write s.entries s.count e; count = suc s.count })
        ≡ (e.key, e.value) ∷ model s
  unfolding model contents
  model-added slots e =
      let old = contents-write s.entries s.count e s.count (omega arith) in
      let last : write s.entries s.count e s.count ≡ e = ground arith in rw (old, last)

  -- The result and the new contents are the map's, and the table stays well formed.
  abbrev Puts : ℕ → InsertResult × IdSet → Type 0
  Puts value (r, t) =
      (r ≡ (put key value (model s)).0) × Table hash64 t × (model t ≡ (put key value (model s)).1)

  insert_at-put :
      (value slot : ℕ)
      → Probed s key (hash64 key) slot
      → Puts value (insert_at s slot key (hash64 key) value)
  insert_at-put value slot (vacant d small at free before absent) =
      let none_held = model-absent absent in
      elim (Bool-cases (s.count == 256)) [
        | inl up ↦
            rw
              (
                insert_at-full s slot key (hash64 key) value free (ground arith),
                put-full key value (model s) none_held (ground (arith, length-model)),
              )
              (refl, table, refl)
        | inr room ↦
            let below : s.count < 256 = ground (arith, table.bounded) in
            rw
              (
                insert_at-room s slot key (hash64 key) value free below,
                put-room key value (model s) none_held (omega (arith, length-model)),
              )
              (
                refl,
                rw at (
                    added-Table hash64 s table key value d small below (rw (← at) free) before
                      absent),
                model-added (write s.slots slot (suc s.count))
                    (record { key = key; hash = hash64 key; value = value }),
              )
      ]
  insert_at-put value slot (held i h at e) =
      rw
        (
          insert_at-held s slot key (hash64 key) value (omega (arith, at)),
          put-held key value (model s) (model-held i h e),
        )
        (refl, table, refl)

  -- Under the invariant `insert` ends; its result (inserted, duplicate key, or full) and the contents
  -- afterwards are those of the bounded map, and the invariant holds again.
  pub insert-put :
      (value : ℕ)
      → (t : IdSet) × (insert hash64 s key value ≡ some ((put key value (model s)).0, t))
        × Table hash64 t
        × (model t ≡ (put key value (model s)).1)
  unfolding insert
  insert-put value =
      let (slot, ends, p) = probe-Probed hash64 s table key in
      let (r, keeps, m) = insert_at-put value slot p in
      ((insert_at s slot key (hash64 key) value).1, ground arith, keeps, m)

  -- Under the invariant `find` ends, and answers with the value of the key in the map, if there is one.
  pub find-lookup : find hash64 s key ≡ some (lookup key (model s))
  unfolding find
  find-lookup =
      let (slot, ends, p) = probe-Probed hash64 s table key in
      ground (arith, value_at-lookup slot p)
