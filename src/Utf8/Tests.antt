-- ===== src/Utf8/Tests.antt =====
-- Runs of src/utf8.c, and its theorem at one of them.
use i3sd.Common.{ℕ, ◌≡◌, refl, ◌↔◌, true, false, List, [], ◌∷◌, arith}
use i3sd.Utf8.{valid_utf8}
use i3sd.Utf8.Decoding.{Encodes, valid_utf8_iff}

accepts_two : valid_utf8 (0xc3 ∷ 0xb6 ∷ []) ≡ true
unfolding valid_utf8
accepts_two = refl

refuses_nul : valid_utf8 (b'a' ∷ 0 ∷ b'b' ∷ []) ≡ false
unfolding valid_utf8
refuses_nul = refl

refuses_overlong : valid_utf8 (0xc0 ∷ 0x80 ∷ []) ≡ false
unfolding valid_utf8
refuses_overlong = refl

refuses_surrogate : valid_utf8 (0xed ∷ 0xa0 ∷ 0x80 ∷ []) ≡ false
unfolding valid_utf8
refuses_surrogate = refl

abbrev euro : List ℕ
euro = 0xe2 ∷ 0x82 ∷ 0xac ∷ []

valid_utf8_iff_example : (valid_utf8 euro ≡ true) ↔ ((cs : List ℕ) × Encodes euro cs)
valid_utf8_iff_example = valid_utf8_iff euro (omega arith)
