-- ===== src/Utf8/Encoding.antt =====
-- The encoding of Unicode scalar values, and that the validator of src/utf8.c accepts it.
use i3sd.Common.{
  ℕ, zero, suc, ◌+◌, ◌*◌, ◌/◌, ◌%◌, ◌≤◌, ◌<◌, ◌≡◌, refl, ◌∙◌, ◌⊎◌, inl, inr, true, some, List, [],
  ◌∷◌, ◌++◌, ltb, if◌then◌else◌, length, length-append, Bool-cases, arith,
}
use i3sd.Utf8.Bytes.{All, lead_table, lead-eq, continuation-step, continuation-zero}
use i3sd.Utf8.{out_of_range, sequence, scan}

-- A code point that UTF-8 may encode, other than NUL, which would end a C string.
pub record IsScalar (c : ℕ) : Type 0 where
  pub nonzero : 0 < c
  pub unicode : c ≤ 0x10ffff
  pub no_surrogate : (c < 0xd800) ⊎ (0xe000 ≤ c)

unfoldable pub encode : ℕ → List ℕ
encode c =
    if ltb c 0x80
    then c ∷ []
    else if ltb c 0x800
    then (192 + c / 64) ∷ (128 + c % 64) ∷ []
    else if ltb c 0x10000
    then (224 + c / 4096) ∷ (128 + c / 64 % 64) ∷ (128 + c % 64) ∷ []
    else (240 + c / 262144) ∷ (128 + c / 4096 % 64) ∷ (128 + c / 64 % 64) ∷ (128 + c % 64) ∷ []

unfoldable pub encode_all : List ℕ → List ℕ
encode_all [] = []
encode_all (c ∷ cs) = encode c ++ encode_all cs

module _ (c : ℕ) (rest : List ℕ) where
  sequence-two : 0x80 ≤ c → c < 0x800 → sequence (192 + c / 64) ((128 + c % 64) ∷ rest) ≡ some rest
  unfolding sequence lead_table out_of_range
  sequence-two p q = rw (lead-eq (192 + c / 64) (omega arith)) (
      let back : (192 + c / 64) % 32 * 64 + (128 + c % 64) % 64 ≡ c = omega arith in
      ground (
        arith,
        continuation-step 0 ((192 + c / 64) % 32) (128 + c % 64) rest,
        continuation-zero ((192 + c / 64) % 32 * 64 + (128 + c % 64) % 64) rest,
      ))

  sequence-three :
      0x800 ≤ c
      → c < 0x10000
      → (c < 0xd800) ⊎ (0xe000 ≤ c)
      → sequence (224 + c / 4096) ((128 + c / 64 % 64) ∷ (128 + c % 64) ∷ rest) ≡ some rest
  unfolding sequence lead_table out_of_range
  sequence-three p q s = rw (lead-eq (224 + c / 4096) (omega arith)) (
      let top = (224 + c / 4096) % 16 in
      let mid = top * 64 + (128 + c / 64 % 64) % 64 in
      let back : mid * 64 + (128 + c % 64) % 64 ≡ c = omega arith in
      ground (
        arith,
        continuation-step 1 top (128 + c / 64 % 64) ((128 + c % 64) ∷ rest),
        continuation-step 0 mid (128 + c % 64) rest,
        continuation-zero (mid * 64 + (128 + c % 64) % 64) rest,
      ))

  sequence-four :
      0x10000 ≤ c
      → c ≤ 0x10ffff
      → sequence
          (240 + c / 262144)
          ((128 + c / 4096 % 64) ∷ (128 + c / 64 % 64) ∷ (128 + c % 64) ∷ rest)
        ≡ some rest
  unfolding sequence lead_table out_of_range
  sequence-four p q = rw (lead-eq (240 + c / 262144) (omega arith)) (
      let top = (240 + c / 262144) % 8 in
      let mid = top * 64 + (128 + c / 4096 % 64) % 64 in
      let low = mid * 64 + (128 + c / 64 % 64) % 64 in
      let back : low * 64 + (128 + c % 64) % 64 ≡ c = omega arith in
      ground (
        arith,
        continuation-step 2 top (128 + c / 4096 % 64) ((128 + c / 64 % 64) ∷ (128 + c % 64) ∷ rest),
        continuation-step 1 mid (128 + c / 64 % 64) ((128 + c % 64) ∷ rest),
        continuation-step 0 low (128 + c % 64) rest,
        continuation-zero (low * 64 + (128 + c % 64) % 64) rest,
      ))

  sequence-one : 0 < c → c < 0x80 → sequence c rest ≡ some rest
  unfolding sequence
  sequence-one p q = ground arith

pub scan-step :
    (fuel first : ℕ) (bytes rest : List ℕ)
    → sequence first bytes ≡ some rest
    → scan (suc fuel) (first ∷ bytes) ≡ scan fuel rest
unfolding scan
scan-step fuel first bytes rest e = rw (e, scan)

scan-encode :
    (c : ℕ) (rest : List ℕ) (fuel : ℕ)
    → IsScalar c
    → scan (suc fuel) (encode c ++ rest) ≡ scan fuel rest
unfolding encode
scan-encode c rest fuel s = elim (Bool-cases (ltb c 0x80)) [
  | inl one ↦ rw one (scan-step fuel _ _ rest (sequence-one c rest s.nonzero (ground arith)))
  | inr p ↦ rw p (elim (Bool-cases (ltb c 0x800)) [
    | inl two ↦ rw two (scan-step fuel _ _ rest (sequence-two c rest (ground arith) (ground arith)))
    | inr q ↦ rw q (elim (Bool-cases (ltb c 0x10000)) [
      | inl three ↦ rw three (
          scan-step fuel _ _ rest
            (sequence-three c rest (ground arith) (ground arith) s.no_surrogate))
      | inr four ↦ rw four (scan-step fuel _ _ rest (sequence-four c rest (ground arith) s.unicode))
    ])
  ])
]

encode_pos : (c : ℕ) → 0 < length (encode c)
unfolding encode
encode_pos c = ground arith

pub scan-encode_all :
    (cs : List ℕ) (fuel : ℕ)
    → All IsScalar cs
    → length (encode_all cs) ≤ fuel
    → scan fuel (encode_all cs) ≡ true
unfolding encode_all
scan-encode_all [] fuel s h = unfold scan in refl
scan-encode_all (c ∷ cs) zero s h =
    absurd (omega (arith, length-append (encode c) (encode_all cs), encode_pos c))
scan-encode_all (c ∷ cs) (suc fuel) s h =
    scan-encode c (encode_all cs) fuel s.0
    ∙ scan-encode_all cs fuel s.1
        (omega (arith, length-append (encode c) (encode_all cs), encode_pos c))
