-- ===== src/Common/Bits.antt =====
-- Bit operations: a check of every byte, `or` of numbers that share no digit, and `and` with a mask.
use Prim.Native.Nat.{
  ℕ, zero, suc, ◌+◌, ◌*◌, ◌/◌, ◌%◌, ◌≤◌, ◌<◌, max, min, bit_or, bit_and, digits, bit_or-bitwise,
  bit_and-bitwise,
}
use mathlib.Core.Path.{◌≡◌, refl, ◌∙◌}
use mathlib.Core.Bool.{Bool, true, false}
use native.Mathlib.Omega.{arith}
use i3sd.Common.Tests.{if◌then◌else◌}

-- Whether `test` passes on the `count` numbers from 0.
unfoldable pub passes : (ℕ → Bool) → ℕ → Bool
passes test zero = true
passes test (suc count) = if test count then passes test count else false

pub passes_at :
    (test : ℕ → Bool) (count n : ℕ) → passes test count ≡ true → n < count → test n ≡ true
unfolding passes
passes_at test zero n h small = elim small [ ]
passes_at test (suc count) n h small = ground (arith, passes_at test count n)

-- `a`, `k` binary digits up.
shift : ℕ → ℕ → ℕ
shift zero a = a
shift (suc k) a = shift k a * 2

abbrev or_at : ℕ → ℕ → ℕ → ℕ
or_at fuel a b = digits (λ rest. rest) max fuel a b

or_at-zero : (fuel a : ℕ) → a ≤ fuel → or_at fuel a 0 ≡ a
or_at-zero zero a h = omega arith
or_at-zero (suc fuel) zero h = refl
or_at-zero (suc fuel) (suc a) h = omega (arith, or_at-zero fuel (suc a / 2) (omega arith))

-- Digits of `b` below those of a shifted number are added to it.
or_at-shift :
    (k fuel a b up : ℕ) → up ≡ shift k a → up ≤ fuel → b < shift k 1 → or_at fuel up b ≡ up + b
unfolding shift
or_at-shift zero fuel a b up e h small =
    let nothing : b ≡ 0 = omega arith in rw nothing (or_at-zero fuel up h ∙ omega arith)
or_at-shift (suc k) zero a b zero e h small = omega arith
or_at-shift (suc k) zero a b (suc up) e h small = elim h [ ]
or_at-shift (suc k) (suc fuel) a b zero e h small = omega arith
or_at-shift (suc k) (suc fuel) a b (suc up) e h small =
    omega
      (arith, or_at-shift k fuel a (b / 2) (suc up / 2) (omega arith) (omega arith) (omega arith))

-- Six digits of `b` fit below a multiple of 64.
pub bit_or_six : (a b : ℕ) → b < 64 → bit_or (a * 64) b ≡ a * 64 + b
unfolding shift
bit_or_six a b h =
    bit_or-bitwise (a * 64) b
    ∙ or_at-shift 6 (a * 64) a b (a * 64) (omega arith) (omega arith) (omega arith)

abbrev and_at : ℕ → ℕ → ℕ → ℕ
and_at fuel a b = digits (λ rest. 0) min fuel a b

-- One more digit of the mask `c * 2 + 1`.
mask_step :
    (fuel a c m : ℕ)
    → a ≤ fuel
    → ((f : ℕ) → a / 2 ≤ f → and_at f (a / 2) c ≡ m)
    → and_at fuel a (c * 2 + 1) ≡ m * 2 + a % 2
mask_step zero zero c m h rest = omega (arith, rest 0 (omega arith))
mask_step zero (suc a) c m h rest = elim h [ ]
mask_step (suc fuel) zero c m h rest = omega (arith, rest 0 (omega arith))
mask_step (suc fuel) (suc a) c m h rest =
    let half : (c * 2 + 1) / 2 ≡ c = omega arith in
    let low = rest fuel (omega arith) in
    let same : and_at fuel (suc a / 2) ((c * 2 + 1) / 2) ≡ m = rw half low in omega arith

and_at-zero : (fuel a : ℕ) → a ≤ fuel → and_at fuel a 0 ≡ a % 1
and_at-zero zero a h = omega arith
and_at-zero (suc fuel) zero h = omega arith
and_at-zero (suc fuel) (suc a) h = omega (arith, and_at-zero fuel (suc a / 2) (omega arith))

-- The mask `c` keeps the remainder by `p`.
abbrev Masks : ℕ → ℕ → Type 0
Masks c p = (fuel a : ℕ) → a ≤ fuel → and_at fuel a c ≡ a % p

Masks-next :
    (c p : ℕ)
    → Masks c p
    → ((a : ℕ) → a / 2 % p * 2 + a % 2 ≡ a % (p * 2))
    → Masks (c * 2 + 1) (p * 2)
Masks-next c p m split fuel a h = mask_step fuel a c (a / 2 % p) h (λ f q. m f (a / 2) q) ∙ split a

three_digits : Masks 7 8
three_digits =
    Masks-next 3 4
      (Masks-next 1 2 (Masks-next 0 1 and_at-zero (λ a. omega arith)) (λ a. omega arith))
      (λ a. omega arith)

six_digits : Masks 63 64
six_digits =
    Masks-next 31 32
      (Masks-next 15 16 (Masks-next 7 8 three_digits (λ a. omega arith)) (λ a. omega arith))
      (λ a. omega arith)

nine_digits : Masks 511 512
nine_digits =
    Masks-next 255 256
      (Masks-next 127 128 (Masks-next 63 64 six_digits (λ a. omega arith)) (λ a. omega arith))
      (λ a. omega arith)

pub bit_and_nine : (a : ℕ) → bit_and a 511 ≡ a % 512
bit_and_nine a = bit_and-bitwise a 511 ∙ nine_digits a a (omega arith)
