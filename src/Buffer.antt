-- ===== src/Buffer.antt =====
-- src/buffer.c: a growable byte buffer whose size never passes a limit given by the caller.
pub mod Bounds
mod Tests
use i3sd.Common.{
  ℕ, zero, suc, ◌+◌, ◌-◌, ◌*◌, ◌/◌, ◌%◌, Bool, true, false, List, [], ◌∷◌, ◌++◌, ltb, leb, ◌==◌,
  if◌then◌else◌, length, u64_mod, u64_max,
}

-- `bytes` is `data[0 .. len)`, so that `len` is its length; the bytes past `len` are never read.
pub record Buffer : Type 0 where
  pub bytes : List ℕ
  pub cap : ℕ

abbrev pub len : Buffer → ℕ
len b = length b.bytes

unfoldable pub empty : Buffer
empty = record { bytes = []; cap = 0 }

unfoldable pub destroy : Buffer → Buffer
destroy b = empty

unfoldable pub clear : Buffer → Buffer
clear b = record b { bytes = [] }

-- The `while` of reserve. Each round that goes on doubles `next`, so 64 rounds pass any `size_t`.
unfoldable pub grow : ℕ → ℕ → ℕ → ℕ → ℕ
grow zero next needed limit = next
grow (suc fuel) next needed limit =
    let rest = grow fuel (next * 2 % u64_mod) needed limit in
    if ltb next needed then (if ltb (limit / 2) next then limit else rest) else next

abbrev pub grow_fuel : ℕ
grow_fuel = 64

-- `realloc` answers whether it finds memory for a size.
unfoldable pub reserve : (ℕ → Bool) → Buffer → ℕ → ℕ → Bool × Buffer
reserve realloc b needed limit =
    let next = grow grow_fuel (if b.cap == 0 then 256 else b.cap) needed limit in
    if ltb limit needed
    then (false, b)
    else if leb needed b.cap
    then (true, b)
    else if realloc next
    then (true, record b { cap = next })
    else (false, b)

unfoldable pub append : (ℕ → Bool) → Buffer → List ℕ → ℕ → Bool × Buffer
append realloc b bytes limit =
    let (reserved, b') = reserve realloc b (len b + length bytes) limit in
    if ltb (u64_max - len b) (length bytes)
    then (false, b)
    else if reserved
    then (true, record b' { bytes = b'.bytes ++ bytes })
    else (false, b')

unfoldable pub append_char : (ℕ → Bool) → Buffer → ℕ → ℕ → Bool × Buffer
append_char realloc b value limit = append realloc b (value ∷ []) limit
