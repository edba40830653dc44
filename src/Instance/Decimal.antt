-- ===== src/Instance/Decimal.antt =====
-- Decimal numbers of src/main.c, printed by `%zu` and read digit by digit.
use i3sd.Common.{
  inl, inr, ap, ◌∙◌, ℕ, zero, suc, ◌+◌, ◌-◌, ◌*◌, ◌/◌, ◌%◌, ◌≤◌, ◌<◌, ◌≡◌, some, List, [], ◌∷◌,
  ◌++◌, length, length-append, ltb, Bool-cases, arith,
}
use i3sd.Instance.{digits, decimal, read_number}

read_number-append :
    (xs : List ℕ) (n m d : ℕ)
    → d < 10
    → read_number xs n ≡ some m
    → read_number (xs ++ (b'0' + d) ∷ []) n ≡ some (m * 10 + d)
unfolding read_number
read_number-append [] n m d h e = ground arith
read_number-append (c ∷ xs) n m d h e =
    ground (arith, read_number-append xs (n * 10 + (c - b'0')) m d)

read_number-digits : (fuel n : ℕ) → n < fuel → read_number (digits fuel n) 0 ≡ some n
unfolding digits
read_number-digits zero n h = absurd (omega arith)
read_number-digits (suc fuel) n h = elim (Bool-cases (ltb n 10)) [
  | inl small ↦ rw small (unfold read_number in ground arith)
  | inr large ↦
      let split : n / 10 * 10 + n % 10 ≡ n = omega arith in
      rw large (
        read_number-append (digits fuel (n / 10)) 0 (n / 10) (n % 10) (omega arith)
          (read_number-digits fuel (n / 10) (ground arith))
        ∙ ap some split)
]

-- Reading the digits of a number gives it back.
pub read_number-decimal : (n : ℕ) → read_number (decimal n) 0 ≡ some n
unfolding decimal
read_number-decimal n = read_number-digits (n + 1) n (omega arith)

digits-small : (fuel n : ℕ) → n < fuel → n < 10 → length (digits fuel n) ≡ 1
unfolding digits
digits-small zero n h k = absurd (omega arith)
digits-small (suc fuel) n h k = ground arith

digits-shorter :
    (fuel n k : ℕ)
    → n < fuel
    → 10 ≤ n
    → ((f : ℕ) → n / 10 < f → length (digits f (n / 10)) ≤ k)
    → length (digits fuel n) ≤ k + 1
unfolding digits
digits-shorter zero n k h l short = absurd (omega arith)
digits-shorter (suc fuel) n k h l short =
    ground (arith, short fuel, length-append (digits fuel (n / 10)) ((b'0' + n % 10) ∷ []))

digits-pos : (fuel n : ℕ) → n < fuel → 1 ≤ length (digits fuel n)
unfolding digits
digits-pos zero n h = absurd (omega arith)
digits-pos (suc fuel) n h =
    ground (arith, length-append (digits fuel (n / 10)) ((b'0' + n % 10) ∷ []))

digits-two : (fuel n : ℕ) → n < fuel → n < 100 → length (digits fuel n) ≤ 2
digits-two fuel n h k = elim (Bool-cases (ltb n 10)) [
  | inl small ↦ let one = digits-small fuel n h (ground arith) in omega arith
  | inr large ↦
      digits-shorter fuel n 1 h (ground arith)
        (λ f below. let one = digits-small f (n / 10) below (omega arith) in omega arith)
]

-- A number below a thousand has one to three digits.
pub length-decimal : (n : ℕ) → n < 1000 → (1 ≤ length (decimal n)) × (length (decimal n) ≤ 3)
unfolding decimal
length-decimal n k = (
  digits-pos (n + 1) n (omega arith),
  elim (Bool-cases (ltb n 10)) [
    | inl small ↦ let one = digits-small (n + 1) n (omega arith) (ground arith) in omega arith
    | inr large ↦
        digits-shorter (n + 1) n 2 (omega arith) (ground arith)
          (λ f below. digits-two f (n / 10) below (omega arith))
  ],
)
