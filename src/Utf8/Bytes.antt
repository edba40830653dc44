-- ===== src/Utf8/Bytes.antt =====
-- The masks and shifts of src/utf8.c, read as arithmetic on a byte.
use Prim.Native.Nat.{bit_and}
use i3sd.Common.{
  ℕ, suc, ◌+◌, ◌*◌, ◌/◌, ◌%◌, ◌<◌, ◌≡◌, refl, Bool, true, ◌&&◌, Option, none, some, List, [], ◌∷◌,
  ◌==◌, if◌then◌else◌, u32_mod, arith,
}
use i3sd.Common.Bits.{passes, passes_at, bit_or_six}
use i3sd.Utf8.{Lead, lead, continuation}

abbrev pub All : (ℕ → Type 0) → List ℕ → Type 0
All P [] = Unit {0}
All P (x ∷ xs) = P x × All P xs

abbrev pub IsBytes : List ℕ → Type 0
IsBytes = All (λ b. b < 256)

-- The masks of the source, read as digits of the byte.
abbrev masks_agree : ℕ → Bool
masks_agree x =
    (bit_and x 0xe0 == x / 32 * 32)
    && (bit_and x 0xf0 == x / 16 * 16)
    && (bit_and x 0xf8 == x / 8 * 8)
    && (bit_and x 0xc0 == x / 64 * 64)
    && (bit_and x 0x1f == x % 32)
    && (bit_and x 0x0f == x % 16)
    && (bit_and x 0x07 == x % 8)
    && (bit_and x 0x3f == x % 64)

masks_table : passes masks_agree 256 ≡ true
unfolding passes
masks_table = refl

pub record Masks (x : ℕ) : Type 0 where
  pub high3 : bit_and x 0xe0 ≡ x / 32 * 32
  pub high4 : bit_and x 0xf0 ≡ x / 16 * 16
  pub high5 : bit_and x 0xf8 ≡ x / 8 * 8
  pub high2 : bit_and x 0xc0 ≡ x / 64 * 64
  pub low5 : bit_and x 0x1f ≡ x % 32
  pub low4 : bit_and x 0x0f ≡ x % 16
  pub low3 : bit_and x 0x07 ≡ x % 8
  pub low6 : bit_and x 0x3f ≡ x % 64

pub masks : (x : ℕ) → x < 256 → Masks x
masks x h = ground (arith, passes_at masks_agree 256 x masks_table h)

-- One continuation byte, in numbers.
pub continuation-suc :
    (count codepoint next : ℕ) (bytes : List ℕ)
    → next < 256
    → codepoint * 64 < u32_mod
    → continuation (suc count) codepoint (next ∷ bytes)
      ≡ (if next / 64 == 2 then continuation count (codepoint * 64 + next % 64) bytes else none)
unfolding continuation
continuation-suc count codepoint next bytes h fits =
    let m = masks next h in
    let same : codepoint * 64 % u32_mod ≡ codepoint * 64 = omega arith in
    rw (m.low6, m.high2, same, bit_or_six codepoint (next % 64) (omega arith)) (ground arith)

-- The first byte, in numbers.
unfoldable pub lead_table : ℕ → Option Lead
lead_table first =
    if first / 32 == 6
    then some (record { continuation_count = 1; codepoint = first % 32; minimum = 0x80 })
    else if first / 16 == 14
    then some (record { continuation_count = 2; codepoint = first % 16; minimum = 0x800 })
    else if first / 8 == 30
    then some (record { continuation_count = 3; codepoint = first % 8; minimum = 0x10000 })
    else none

pub lead-eq : (first : ℕ) → first < 256 → lead first ≡ lead_table first
unfolding lead lead_table
lead-eq first h =
    let m = masks first h in rw (m.high3, m.high4, m.high5, m.low5, m.low4, m.low3) (ground arith)

pub continuation-zero :
    (codepoint : ℕ) (bytes : List ℕ) → continuation 0 codepoint bytes ≡ some (codepoint, bytes)
unfolding continuation
continuation-zero codepoint bytes = refl

abbrev pub IsContinuation : ℕ → Type 0
IsContinuation b = b / 64 ≡ 2

pub continuation-step :
    (count codepoint next : ℕ) (bytes : List ℕ)
    → IsContinuation next
    → codepoint * 64 < u32_mod
    → continuation (suc count) codepoint (next ∷ bytes)
      ≡ continuation count (codepoint * 64 + next % 64) bytes
continuation-step count codepoint next bytes h fits =
    rw (continuation-suc count codepoint next bytes (omega arith) fits, h)

pub continuation-inv :
    (count codepoint next : ℕ) (bytes : List ℕ) (r : ℕ × List ℕ)
    → next < 256
    → codepoint * 64 < u32_mod
    → continuation (suc count) codepoint (next ∷ bytes) ≡ some r
    → IsContinuation next × (continuation count (codepoint * 64 + next % 64) bytes ≡ some r)
continuation-inv count codepoint next bytes r h fits e =
    ground (arith, continuation-suc count codepoint next bytes)

pub continuation-zero_inv :
    (codepoint : ℕ) (bytes : List ℕ) (r : ℕ × List ℕ)
    → continuation 0 codepoint bytes ≡ some r
    → (r.0 ≡ codepoint) × (r.1 ≡ bytes)
unfolding continuation
continuation-zero_inv codepoint bytes r e = ground arith
