-- ===== src/Utf8.antt =====
-- src/utf8.c: validation of UTF-8 text without NUL bytes. A text is the list of its bytes.
pub mod Bytes
pub mod Encoding
pub mod Decoding
mod Tests
use Prim.Native.Nat.{bit_and, bit_or}
use i3sd.Common.{
  ℕ, zero, suc, ◌*◌, ◌%◌, Bool, true, false, ◌&&◌, ◌||◌, Option, none, some, List, [], ◌∷◌, ltb,
  leb, ◌==◌, if◌then◌else◌, length, u32_mod,
}

-- What the first byte of a longer sequence gives.
pub record Lead : Type 0 where
  pub continuation_count : ℕ
  pub codepoint : ℕ
  pub minimum : ℕ

unfoldable pub lead : ℕ → Option Lead
lead first =
    if bit_and first 0xe0 == 0xc0
    then some (record { continuation_count = 1; codepoint = bit_and first 0x1f; minimum = 0x80 })
    else if bit_and first 0xf0 == 0xe0
    then some (record { continuation_count = 2; codepoint = bit_and first 0x0f; minimum = 0x800 })
    else if bit_and first 0xf8 == 0xf0
    then some (record { continuation_count = 3; codepoint = bit_and first 0x07; minimum = 0x10000 })
    else none

-- The `for` over the continuation bytes: the code point and the bytes behind it.
-- The list cannot end there, since its length was tested.
unfoldable pub continuation : ℕ → ℕ → List ℕ → Option (ℕ × List ℕ)
continuation zero codepoint bytes = some (codepoint, bytes)
continuation (suc count) codepoint [] = none
continuation (suc count) codepoint (next ∷ bytes) =
    let rest = continuation count (bit_or (codepoint * 64 % u32_mod) (bit_and next 0x3f)) bytes in
    if bit_and next 0xc0 == 0x80 then rest else none

unfoldable pub out_of_range : ℕ → ℕ → Bool
out_of_range codepoint minimum =
    ltb codepoint minimum || ltb 0x10ffff codepoint || leb 0xd800 codepoint && leb codepoint 0xdfff

-- One round of the `while`: the bytes that are left, or `none` for a return of false.
unfoldable pub sequence : ℕ → List ℕ → Option (List ℕ)
sequence first bytes =
    if first == 0 then none else if ltb first 0x80 then some bytes else elim (lead first) [
      | none ↦ none
      | some l ↦
          if ltb (length bytes) l.continuation_count
          then none
          else elim (continuation l.continuation_count l.codepoint bytes) [
            | none ↦ none
            | some (codepoint, rest) ↦ if out_of_range codepoint l.minimum then none else some rest
          ]
    ]

-- The `while`. A round takes at least one byte, so the number of bytes is fuel enough.
unfoldable pub scan : ℕ → List ℕ → Bool
scan fuel [] = true
scan zero (first ∷ bytes) = false
scan (suc fuel) (first ∷ bytes) = elim (sequence first bytes) [
  | none ↦ false
  | some rest ↦ scan fuel rest
]

unfoldable pub valid_utf8 : List ℕ → Bool
unfolding scan sequence lead continuation out_of_range
valid_utf8 text = scan (length text) text
