-- ===== src/Items/Colours.antt =====
-- valid_color of src/main.c accepts `#rrggbb` and `#rrggbbaa`, and nothing else.
use i3sd.Common.{
  ℕ, ◌≤◌, ◌≡◌, ◌⊎◌, ◌↔◌, inl, inr, refl, ap, true, ◌&&◌, leb, ◌==◌, some, List, [], ◌∷◌, length,
  Bool-cases, arith,
}
use i3sd.Items.{hex_digit, all_hex, valid_color}

-- The byte lies between two characters.
abbrev pub Between : ℕ → ℕ → ℕ → Type 0
Between first last byte = (first ≤ byte) × (byte ≤ last)

abbrev pub Hex : ℕ → Type 0
Hex byte = Between b'0' b'9' byte ⊎ (Between b'a' b'f' byte ⊎ Between b'A' b'F' byte)

abbrev pub AllHex : List ℕ → Type 0
AllHex [] = Unit {0}
AllHex (byte ∷ rest) = Hex byte × AllHex rest

abbrev pub Colour : List ℕ → Type 0
Colour text =
    (digits : List ℕ) × (text ≡ b'#' ∷ digits)
    × ((length digits ≡ 6) ⊎ (length digits ≡ 8))
    × AllHex digits

hex_digit-Hex : (byte : ℕ) → hex_digit byte ≡ true → Hex byte
unfolding hex_digit
hex_digit-Hex byte h = elim (Bool-cases (leb b'0' byte && leb byte b'9')) [
  | inl digit ↦ inl (ground arith)
  | inr other ↦ elim (Bool-cases (leb b'a' byte && leb byte b'f')) [
    | inl small ↦ inr (inl (ground arith))
    | inr large ↦ inr (inr (ground arith))
  ]
]

Hex-hex_digit : (byte : ℕ) → Hex byte → hex_digit byte ≡ true
unfolding hex_digit
Hex-hex_digit byte (inl h) = ground arith
Hex-hex_digit byte (inr (inl h)) = ground arith
Hex-hex_digit byte (inr (inr h)) = ground arith

all_hex-AllHex : (text : List ℕ) → all_hex text ≡ true → AllHex text
unfolding all_hex
all_hex-AllHex [] h = tt
all_hex-AllHex (byte ∷ rest) h = elim (Bool-cases (hex_digit byte)) [
  | inl e ↦ (hex_digit-Hex byte e, all_hex-AllHex rest (ground arith))
  | inr e ↦ absurd (ground arith)
]

AllHex-all_hex : (text : List ℕ) → AllHex text → all_hex text ≡ true
unfolding all_hex
AllHex-all_hex [] h = refl
AllHex-all_hex (byte ∷ rest) h = ground (arith, Hex-hex_digit byte h.0, AllHex-all_hex rest h.1)

valid_color-Colour : (text : List ℕ) → valid_color (some text) ≡ true → Colour text
unfolding valid_color
valid_color-Colour [] h = cc
valid_color-Colour (first ∷ rest) h = (
  rest,
  ap (λ (byte : ℕ). byte ∷ rest) (ground arith),
  elim (Bool-cases (length rest == 6)) [
    | inl six ↦ inl (ground arith)
    | inr other ↦ inr (ground arith)
  ],
  all_hex-AllHex rest (ground arith),
)

Colour-valid_color : (text : List ℕ) → Colour text → valid_color (some text) ≡ true
unfolding valid_color
Colour-valid_color text (digits, e, size, hex) =
    rw e (ground (arith, size, AllHex-all_hex digits hex))

-- A colour that is given is accepted exactly if it is `#` and six or eight hexadecimal digits.
pub valid_color_iff : (text : List ℕ) → (valid_color (some text) ≡ true) ↔ Colour text
valid_color_iff text = (valid_color-Colour text, Colour-valid_color text)
