-- ===== src/Utf8/Decoding.antt =====
-- What the validator of src/utf8.c accepts is an encoding of Unicode scalar values.
use mathlib.Core.Path.{subst}
use i3sd.Common.{
  ℕ, zero, suc, ◌+◌, ◌*◌, ◌/◌, ◌%◌, ◌≤◌, ◌<◌, ◌≡◌, refl, sym, ◌∙◌, inl, inr, ◌↔◌, true, false, some,
  List, [], ◌∷◌, ◌++◌, ltb, ◌==◌, length, Bool-cases, Option-cases, arith, tests,
}
use i3sd.Utf8.Bytes.{All, IsBytes, lead_table, lead-eq, continuation-inv, continuation-zero_inv}
use i3sd.Utf8.Encoding.{IsScalar, encode, encode_all, scan-step, scan-encode_all}
use i3sd.Utf8.{Lead, lead, continuation, out_of_range, sequence, scan, valid_utf8}

-- What a round that goes on has read.
abbrev Decoded : ℕ → List ℕ → List ℕ → Type 0
Decoded first bytes rest = (c : ℕ) × IsScalar c × (encode c ++ rest ≡ first ∷ bytes)

-- A round that goes on past a longer sequence, taken apart.
record Longer (first : ℕ) (bytes rest : List ℕ) (l : Lead) (codepoint : ℕ) : Type 0 where
  leads : lead first ≡ some l
  long : l.continuation_count ≤ length bytes
  continues : continuation l.continuation_count l.codepoint bytes ≡ some (codepoint, rest)
  in_range : out_of_range codepoint l.minimum ≡ false

sequence-Longer :
    (first : ℕ) (bytes rest : List ℕ)
    → 0x80 ≤ first
    → sequence first bytes ≡ some rest
    → (l : Lead) × (codepoint : ℕ) × Longer first bytes rest l codepoint
unfolding sequence
sequence-Longer first bytes rest p e = elim (Option-cases (lead first)) [
  | inl bad ↦ absurd (ground arith)
  | inr (l, good) ↦ elim (Option-cases (continuation l.continuation_count l.codepoint bytes)) [
    | inl bad ↦ absurd (ground arith)
    | inr ((codepoint, left), more) ↦ (l, codepoint, ground arith)
  ]
]

decode-two :
    (first a : ℕ) (rest : List ℕ)
    → first / 32 ≡ 6
    → a / 64 ≡ 2
    → out_of_range (first % 32 * 64 + a % 64) 0x80 ≡ false
    → Decoded first (a ∷ rest) rest
unfolding encode out_of_range
decode-two first a rest p q r =
    let c = first % 32 * 64 + a % 64 in
    let e : 192 + c / 64 ≡ first = omega arith in
    let d : 128 + c % 64 ≡ a = omega arith in (c, ground arith, ground arith)

decode-three :
    (first a b : ℕ) (rest : List ℕ)
    → first / 16 ≡ 14
    → a / 64 ≡ 2
    → b / 64 ≡ 2
    → out_of_range ((first % 16 * 64 + a % 64) * 64 + b % 64) 0x800 ≡ false
    → Decoded first (a ∷ b ∷ rest) rest
unfolding encode out_of_range
decode-three first a b rest p q s r =
    let c = (first % 16 * 64 + a % 64) * 64 + b % 64 in
    let e : 224 + c / 4096 ≡ first = omega arith in
    let d : 128 + c / 64 % 64 ≡ a = omega arith in
    let f : 128 + c % 64 ≡ b = omega arith in (c, ground arith, ground arith)

decode-four :
    (first a b d : ℕ) (rest : List ℕ)
    → first / 8 ≡ 30
    → a / 64 ≡ 2
    → b / 64 ≡ 2
    → d / 64 ≡ 2
    → out_of_range (((first % 8 * 64 + a % 64) * 64 + b % 64) * 64 + d % 64) 0x10000 ≡ false
    → Decoded first (a ∷ b ∷ d ∷ rest) rest
unfolding encode out_of_range
decode-four first a b d rest p q s t r =
    let c = ((first % 8 * 64 + a % 64) * 64 + b % 64) * 64 + d % 64 in
    let e : 240 + c / 262144 ≡ first = omega arith in
    let f : 128 + c / 4096 % 64 ≡ a = omega arith in
    let g : 128 + c / 64 % 64 ≡ b = omega arith in
    let h : 128 + c % 64 ≡ d = omega arith in (c, ground arith, ground arith)

record Round (first : ℕ) (bytes rest : List ℕ) : Type 0 where
  decoded : Decoded first bytes rest
  bytes_left : IsBytes rest
  shorter : length rest ≤ length bytes

Round-two :
    (first codepoint : ℕ) (bytes rest : List ℕ)
    → first / 32 ≡ 6
    → IsBytes bytes
    → 1 ≤ length bytes
    → continuation 1 (first % 32) bytes ≡ some (codepoint, rest)
    → out_of_range codepoint 0x80 ≡ false
    → Round first bytes rest
Round-two first codepoint [] rest p h l e r = absurd (omega arith)
Round-two first codepoint (a ∷ bytes) rest p h l e r =
    let (ha, e₁) = continuation-inv 0 (first % 32) a bytes (codepoint, rest) h.0 (omega arith) e in
    let (hc, hr) = continuation-zero_inv _ bytes (codepoint, rest) e₁ in
    rw hr (record {
      decoded = decode-two first a bytes p ha (rw hc at r);
      bytes_left = h.1;
      shorter = omega arith;
    })

Round-three :
    (first codepoint : ℕ) (bytes rest : List ℕ)
    → first / 16 ≡ 14
    → IsBytes bytes
    → 2 ≤ length bytes
    → continuation 2 (first % 16) bytes ≡ some (codepoint, rest)
    → out_of_range codepoint 0x800 ≡ false
    → Round first bytes rest
Round-three first codepoint [] rest p h l e r = absurd (omega arith)
Round-three first codepoint (a ∷ []) rest p h l e r = absurd (omega arith)
Round-three first codepoint (a ∷ b ∷ bytes) rest p h l e r =
    let (ha, e₁) =
      continuation-inv 1 (first % 16) a (b ∷ bytes) (codepoint, rest) h.0 (omega arith) e in
    let (hb, e₂) = continuation-inv 0 _ b bytes (codepoint, rest) h.1.0 (omega arith) e₁ in
    let (hc, hr) = continuation-zero_inv _ bytes (codepoint, rest) e₂ in
    rw hr (record {
      decoded = decode-three first a b bytes p ha hb (rw hc at r);
      bytes_left = h.1.1;
      shorter = omega arith;
    })

Round-four :
    (first codepoint : ℕ) (bytes rest : List ℕ)
    → first / 8 ≡ 30
    → IsBytes bytes
    → 3 ≤ length bytes
    → continuation 3 (first % 8) bytes ≡ some (codepoint, rest)
    → out_of_range codepoint 0x10000 ≡ false
    → Round first bytes rest
Round-four first codepoint [] rest p h l e r = absurd (omega arith)
Round-four first codepoint (a ∷ []) rest p h l e r = absurd (omega arith)
Round-four first codepoint (a ∷ b ∷ []) rest p h l e r = absurd (omega arith)
Round-four first codepoint (a ∷ b ∷ d ∷ bytes) rest p h l e r =
    let (ha, e₁) =
      continuation-inv 2 (first % 8) a (b ∷ d ∷ bytes) (codepoint, rest) h.0 (omega arith) e in
    let (hb, e₂) = continuation-inv 1 _ b (d ∷ bytes) (codepoint, rest) h.1.0 (omega arith) e₁ in
    let (hd, e₃) = continuation-inv 0 _ d bytes (codepoint, rest) h.1.1.0 (omega arith) e₂ in
    let (hc, hr) = continuation-zero_inv _ bytes (codepoint, rest) e₃ in
    rw hr (record {
      decoded = decode-four first a b d bytes p ha hb hd (rw hc at r);
      bytes_left = h.1.1.1;
      shorter = omega arith;
    })

-- The rows of the table.
data Row (first : ℕ) : Lead → Type 0 where
  two :
      first / 32 ≡ 6
      → Row first (record { continuation_count = 1; codepoint = first % 32; minimum = 0x80 })
  three :
      first / 16 ≡ 14
      → Row first (record { continuation_count = 2; codepoint = first % 16; minimum = 0x800 })
  four :
      first / 8 ≡ 30
      → Row first (record { continuation_count = 3; codepoint = first % 8; minimum = 0x10000 })

table-Row : (first : ℕ) (l : Lead) → lead_table first ≡ some l → Row first l
unfolding lead_table
table-Row first l e = elim (Bool-cases (first / 32 == 6)) [
  | inl p ↦
      (let same : record { continuation_count = 1; codepoint = first % 32; minimum = 0x80 } ≡ l =
          ground arith in
        subst (Row first) same (two (ground arith)))
  | inr p ↦ elim (Bool-cases (first / 16 == 14)) [
    | inl q ↦
        (let same : record { continuation_count = 2; codepoint = first % 16; minimum = 0x800 } ≡ l =
            ground arith in
          subst (Row first) same (three (ground arith)))
    | inr q ↦ elim (Bool-cases (first / 8 == 30)) [
      | inl r ↦
          (let same : record { continuation_count = 3; codepoint = first % 8; minimum = 0x10000 }
                ≡ l =
              ground arith in
            subst (Row first) same (four (ground arith)))
      | inr r ↦ absurd (ground arith)
    ]
  ]
]

lead-Row : (first : ℕ) (l : Lead) → first < 256 → lead first ≡ some l → Row first l
lead-Row first l h e = table-Row first l (sym (lead-eq first h) ∙ e)

Longer-Round :
    (first : ℕ) (bytes rest : List ℕ) {l : Lead} {codepoint : ℕ}
    → IsBytes bytes
    → Row first l
    → Longer first bytes rest l codepoint
    → Round first bytes rest
Longer-Round first bytes rest {codepoint = codepoint} h (two p) x =
    Round-two first codepoint bytes rest p h x.long x.continues x.in_range
Longer-Round first bytes rest {codepoint = codepoint} h (three p) x =
    Round-three first codepoint bytes rest p h x.long x.continues x.in_range
Longer-Round first bytes rest {codepoint = codepoint} h (four p) x =
    Round-four first codepoint bytes rest p h x.long x.continues x.in_range

sequence-ascii :
    (first : ℕ) (bytes rest : List ℕ)
    → first < 0x80
    → sequence first bytes ≡ some rest
    → (0 < first) × (bytes ≡ rest)
unfolding sequence
sequence-ascii first bytes rest h e = ground arith

encode-ascii : (c : ℕ) → c < 0x80 → encode c ≡ c ∷ []
unfolding encode
encode-ascii c h = ground arith

sequence-Round :
    (first : ℕ) (bytes rest : List ℕ)
    → first < 256
    → IsBytes bytes
    → sequence first bytes ≡ some rest
    → Round first bytes rest
sequence-Round first bytes rest f h e = elim (Bool-cases (ltb first 0x80)) [
  | inl one ↦
      (let (pos, same) = sequence-ascii first bytes rest (ground arith) e in
        rw (← same) (record {
          decoded = (first, omega tests, rw (encode-ascii first (omega tests)));
          bytes_left = h;
          shorter = omega arith;
        }))
  | inr wide ↦
      (let (l, codepoint, x) = sequence-Longer first bytes rest (ground arith) e in
        Longer-Round first bytes rest h (lead-Row first l f x.leads) x)
]

-- The scalar values whose encodings make up a text.
abbrev pub Encodes : List ℕ → List ℕ → Type 0
Encodes text cs = All IsScalar cs × (encode_all cs ≡ text)

scan-Encodes :
    (fuel : ℕ) (text : List ℕ)
    → IsBytes text
    → scan fuel text ≡ true
    → (cs : List ℕ) × Encodes text cs
unfolding encode_all
scan-Encodes fuel [] h e = ([], (tt, refl))
scan-Encodes zero (first ∷ bytes) h e = unfold scan in cc
scan-Encodes (suc fuel) (first ∷ bytes) h e = elim (Option-cases (sequence first bytes)) [
  | inl bad ↦ absurd (unfold scan in ground arith)
  | inr (rest, good) ↦
      (let round = sequence-Round first bytes rest h.0 h.1 good in
        let (c, s, same) = round.decoded in
        let (cs, (all, whole)) =
          scan-Encodes fuel rest round.bytes_left
            (sym (scan-step fuel first bytes rest good) ∙ e) in
        (c ∷ cs, ((s, all), rw (whole, same))))
]

-- A text of bytes is accepted exactly when it is the concatenation of the UTF-8 encodings of some
-- Unicode scalar values other than NUL: no overlong form, no surrogate, nothing past U+10FFFF, no
-- truncated sequence.
pub valid_utf8_iff :
    (text : List ℕ) → IsBytes text → (valid_utf8 text ≡ true) ↔ ((cs : List ℕ) × Encodes text cs)
unfolding valid_utf8
valid_utf8_iff text h = (
  scan-Encodes (length text) text h,
  λ e. let (cs, (all, whole)) = e in rw (← whole) (scan-encode_all cs _ all (omega arith)),
)
