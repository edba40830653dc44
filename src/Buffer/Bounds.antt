-- ===== src/Buffer/Bounds.antt =====
-- What reserve and append of src/buffer.c do on every branch.
use native.Mathlib.Nat.{pow-suc, mul_assoc, mul_comm}
use i3sd.Common.{
  ℕ, zero, suc, ◌+◌, ◌-◌, ◌*◌, ◌/◌, ◌%◌, ◌^◌, ◌≤◌, ◌<◌, max, ◌≡◌, refl, inl, inr, Bool, true, false,
  List, ◌++◌, ltb, leb, ◌==◌, if◌then◌else◌, length, length-append, u64_mod, u64_max, Bool-cases,
  arith,
}
use i3sd.Buffer.{Buffer, len, grow, grow_fuel, reserve, append}

-- The size that `grow` finds is enough, no smaller than `next`, and within the limit unless `next` is not.
pub record Grown (next needed limit size : ℕ) : Type 0 where
  pub enough : needed ≤ size
  pub larger : next ≤ size
  pub bounded : size ≤ max next limit

grow-Grown :
    (fuel next needed limit : ℕ)
    → needed ≤ limit
    → limit < u64_mod
    → needed ≤ next * 2 ^ fuel
    → Grown next needed limit (grow fuel next needed limit)
unfolding grow
grow-Grown zero next needed limit p q h = omega arith
grow-Grown (suc fuel) next needed limit p q h = elim (Bool-cases (ltb next needed)) [
  | inr done ↦ rw done (ground arith)
  | inl more ↦ rw more (elim (Bool-cases (ltb (limit / 2) next)) [
    | inl big ↦ rw big (ground arith)
    | inr small ↦ rw small (
        let fits : next * 2 ≤ limit = ground arith in
        let same : next * 2 % u64_mod ≡ next * 2 = omega arith in
        let power : next * 2 * 2 ^ fuel ≡ next * 2 ^ suc fuel =
          rw (pow-suc, mul_comm (2 ^ fuel) 2, mul_assoc next 2 (2 ^ fuel)) in
        let ih = grow-Grown fuel (next * 2) needed limit p q (omega (arith, power)) in
        rw same (omega (arith, ih.enough, ih.larger, ih.bounded)))
  ])
]

pub record IsValid (b : Buffer) : Type 0 where
  pub fits : len b ≤ b.cap
  pub word : b.cap < u64_mod

-- After `reserve` the bytes are the same; a success has room, a failure changes nothing.
pub record Reserved (b : Buffer) (needed limit : ℕ) (r : Bool × Buffer) : Type 0 where
  pub same : r.1.bytes ≡ b.bytes
  pub valid : IsValid r.1
  pub bounded : r.1.cap ≤ max (max b.cap 256) limit
  pub room : r.0 ≡ true → (needed ≤ r.1.cap) × (needed ≤ limit)
  pub unchanged : r.0 ≡ false → r.1 ≡ b

module _ (realloc : ℕ → Bool) (b : Buffer) (needed limit : ℕ) where
  abbrev start : ℕ
  start = if b.cap == 0 then 256 else b.cap

  start-Grown :
      needed ≤ limit
      → limit < u64_mod
      → Grown start needed limit (grow grow_fuel start needed limit)
  start-Grown p q = grow-Grown grow_fuel start needed limit p q (ground arith)

  pub reserve-Reserved :
      IsValid b → limit < u64_mod → Reserved b needed limit (reserve realloc b needed limit)
  unfolding reserve
  reserve-Reserved v q = elim (Bool-cases (ltb limit needed)) [
    | inl over ↦ rw over (ground arith)
    | inr within ↦ rw within (elim (Bool-cases (leb needed b.cap)) [
      | inl fits ↦ rw fits (ground arith)
      | inr tight ↦ rw tight (
          let g = start-Grown (ground arith) q in
          elim (Bool-cases (realloc (grow grow_fuel start needed limit))) [
            | inl found ↦ rw found (ground (arith, g.enough, g.larger, g.bounded))
            | inr failed ↦ rw failed (ground arith)
          ])
    ])
  ]

  -- With memory at hand only the limit can refuse.
  pub reserve-ok :
      ((size : ℕ) → realloc size ≡ true)
      → needed ≤ limit
      → (reserve realloc b needed limit).0 ≡ true
  unfolding reserve
  reserve-ok found p = ground (arith, found (grow grow_fuel start needed limit))

-- A failure within the limit is a reallocation that finds no memory for what is needed.
pub no_memory-reserve :
    (realloc : ℕ → Bool) (b : Buffer) (needed limit : ℕ)
    → needed ≤ limit
    → limit < u64_mod
    → (reserve realloc b needed limit).0 ≡ false
    → (size : ℕ) × (needed ≤ size) × (realloc size ≡ false)
unfolding reserve
no_memory-reserve realloc b needed limit p q h =
    let g = start-Grown realloc b needed limit p q in
    (grow grow_fuel (start realloc b needed limit) needed limit, g.enough, ground arith)

-- How an append ends: the bytes are added within the limit, or nothing has changed.
pub data Appended (b : Buffer) (bytes : List ℕ) (limit : ℕ) (r : Bool × Buffer) : Type 0 where
  added : r.0 ≡ true → r.1.bytes ≡ b.bytes ++ bytes → len r.1 ≤ limit → Appended b bytes limit r
  refused : r.0 ≡ false → r.1 ≡ b → Appended b bytes limit r

module _ (realloc : ℕ → Bool) (b : Buffer) (bytes : List ℕ) (limit : ℕ) where
  -- From a valid buffer, an append with a limit below 2 ^ 64 leaves a valid buffer whose capacity
  -- is at most the largest of the old capacity, 256 and the limit. Either it succeeds, and the
  -- contents are the old ones followed by the new bytes, within the limit; or it fails, and the
  -- buffer is the old one.
  pub append-Appended :
      IsValid b
      → limit < u64_mod
      → IsValid (append realloc b bytes limit).1
        × ((append realloc b bytes limit).1.cap ≤ max (max b.cap 256) limit)
        × Appended b bytes limit (append realloc b bytes limit)
  unfolding append
  append-Appended v q =
      let r = reserve-Reserved realloc b (len b + length bytes) limit v q in
      elim (Bool-cases (ltb (u64_max - len b) (length bytes))) [
        | inl wraps ↦ rw wraps (v, omega arith, refused refl refl)
        | inr clear ↦
            rw clear (elim (Bool-cases (reserve realloc b (len b + length bytes) limit).0) [
              | inr failed ↦ rw failed (r.valid, r.bounded, refused refl (r.unchanged failed))
              | inl reserved ↦
                  rw (reserved, r.same)
                    (let size = length-append b.bytes bytes in
                      let room = r.room reserved in
                      (
                        record { fits = omega arith; word = r.valid.word },
                        r.bounded,
                        added refl refl (omega arith),
                      ))
            ])
      ]

  -- When every reallocation finds memory, an append within a limit below 2 ^ 64 succeeds.
  pub append-ok :
      ((size : ℕ) → realloc size ≡ true)
      → limit < u64_mod
      → len b + length bytes ≤ limit
      → (append realloc b bytes limit).0 ≡ true
  unfolding append
  append-ok found q h = ground (arith, reserve-ok realloc b (len b + length bytes) limit found h)

  -- An append that fails within the limit finds no memory.
  pub no_memory-append :
      limit < u64_mod
      → len b + length bytes ≤ limit
      → (append realloc b bytes limit).0 ≡ false
      → (size : ℕ) × (len b + length bytes ≤ size) × (realloc size ≡ false)
  unfolding append
  no_memory-append q h failed =
      no_memory-reserve realloc b (len b + length bytes) limit h q (ground arith)

  -- An append past the limit is refused and changes nothing.
  pub append-full : limit < len b + length bytes → append realloc b bytes limit ≡ (false, b)
  unfolding append reserve
  append-full h = ground arith
