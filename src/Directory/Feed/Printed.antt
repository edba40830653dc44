-- ===== src/Directory/Feed/Printed.antt =====
-- A file that holds a printed text, as a refresh of src/directory_feed.c reads it.
use mathlib.Core.List.{append_assoc}
use i3sd.Common.{
  ℕ, ◌-◌, ◌≤◌, ◌<◌, ◌≡◌, ◌≢◌, refl, sym, ap, ◌∙◌, inl, Bool, true, false, not, ◌&&◌, Option, none,
  some, List, [], ◌∷◌, ◌++◌, ltb, ◌==◌, if◌then◌else◌, length, length-append, take, take-all, arith,
}
use i3sd.Utf8.{valid_utf8}
use i3sd.Utf8.Bytes.{All}
use i3sd.Utf8.Encoding.{IsScalar, encode, encode_all, scan-encode_all}
use i3sd.Items.{valid_color, all_hex, hex_digit}
use i3sd.Producer.{Memory, ItemText, put_item}
use i3sd.Directory.Names.{utf8_prefix, prefix_from}
use i3sd.Directory.Lines.{newline, line_or_empty, color_key, content_text, file_text}
use i3sd.Directory.Lines.Printing.{
  IsLine, print_flags, print_colour, print_text, content_text-print_text,
}
use i3sd.Directory.Feed.{Feed, contents, put_result, use_file}

-- The encoding of some scalar values.
abbrev pub IsUtf8 : List ℕ → Type 0
IsUtf8 text = (cs : List ℕ) × All IsScalar cs × (encode_all cs ≡ text)

All-append : (P : ℕ → Type 0) (xs ys : List ℕ) → All P xs → All P ys → All P (xs ++ ys)
All-append P [] ys h g = g
All-append P (x ∷ xs) ys (own, h) g = (own, All-append P xs ys h g)

encode_all-append : (cs ds : List ℕ) → encode_all (cs ++ ds) ≡ encode_all cs ++ encode_all ds
unfolding encode_all
encode_all-append [] ds = refl
encode_all-append (c ∷ cs) ds =
    ap (◌++◌ (encode c)) (encode_all-append cs ds)
    ∙ sym (append_assoc (encode c) (encode_all cs) (encode_all ds))

IsUtf8-append : (a b : List ℕ) → IsUtf8 a → IsUtf8 b → IsUtf8 (a ++ b)
IsUtf8-append a b (cs, h, e) (ds, g, d) =
    (cs ++ ds, All-append IsScalar cs ds h g, rw (encode_all-append cs ds, e, d) refl)

-- A byte of ASCII that is not NUL.
abbrev IsAscii : ℕ → Type 0
IsAscii c = (0 < c) × (c < 128)

ascii-IsUtf8 : (text : List ℕ) → All IsAscii text → IsUtf8 text
unfolding encode_all encode
ascii-IsUtf8 [] h = ([], tt, refl)
ascii-IsUtf8 (c ∷ text) (own, h) =
    let (cs, g, e) = ascii-IsUtf8 text h in
    let short : ltb c 0x80 ≡ true = ground arith in
    (
      c ∷ cs,
      (
        record {
          nonzero = own.0;
          unicode = omega (arith, own.1);
          no_surrogate = inl (omega (arith, own.1));
        },
        g,
      ),
      rw (short, e) refl,
    )

all_hex-IsAscii : (text : List ℕ) → all_hex text ≡ true → All IsAscii text
unfolding all_hex hex_digit
all_hex-IsAscii [] h = tt
all_hex-IsAscii (c ∷ text) h = ((ground arith, ground arith), all_hex-IsAscii text (ground arith))

valid_color-IsAscii : (colour : List ℕ) → valid_color (some colour) ≡ true → All IsAscii colour
unfolding valid_color
valid_color-IsAscii [] h = tt
valid_color-IsAscii (c ∷ text) h =
    let hash : (c == b'#') ≡ true = ground arith in
    let hex : all_hex text ≡ true = ground arith in
    ((ground arith, ground arith), all_hex-IsAscii text hex)

print_flags-IsUtf8 : (pango urgent : Bool) → IsUtf8 (print_flags pango urgent)
print_flags-IsUtf8 true true = ascii-IsUtf8 (print_flags true true) (omega arith)
print_flags-IsUtf8 true false = ascii-IsUtf8 (print_flags true false) (omega arith)
print_flags-IsUtf8 false true = ascii-IsUtf8 (print_flags false true) (omega arith)
print_flags-IsUtf8 false false = ascii-IsUtf8 (print_flags false false) (omega arith)

print_colour-IsUtf8 :
    (colour : Option (List ℕ)) (rest : List ℕ)
    → valid_color colour ≡ true
    → IsUtf8 rest
    → IsUtf8 (print_colour colour rest)
print_colour-IsUtf8 none rest h g = g
print_colour-IsUtf8 (some colour) rest h g =
    let word = color_key ++ b'=' ∷ colour in
    let key =
      IsUtf8-append (color_key ++ b'=' ∷ []) colour
        (ascii-IsUtf8 (color_key ++ b'=' ∷ []) (omega arith))
        (ascii-IsUtf8 colour (valid_color-IsAscii colour h)) in
    IsUtf8-append word (b' ' ∷ rest) key
      (IsUtf8-append (b' ' ∷ []) rest (ascii-IsUtf8 (b' ' ∷ []) (omega arith)) g)

line-IsUtf8 : (line rest : List ℕ) → IsUtf8 line → IsUtf8 rest → IsUtf8 (line ++ newline ∷ rest)
line-IsUtf8 line rest h g =
    IsUtf8-append line (newline ∷ rest) h
      (IsUtf8-append (newline ∷ []) rest (ascii-IsUtf8 (newline ∷ []) (omega arith)) g)

print_text-IsUtf8 :
    (t : ItemText)
    → IsUtf8 t.full
    → IsUtf8 (line_or_empty t.short)
    → valid_color t.colour ≡ true
    → IsUtf8 (print_text t)
print_text-IsUtf8 t full short colour = line-IsUtf8 t.full _ full (
    line-IsUtf8 (line_or_empty t.short) _ short
      (print_colour-IsUtf8 t.colour _ colour (print_flags-IsUtf8 t.pango t.urgent)))

-- UTF-8 is not cut.
utf8_prefix-all : (text : List ℕ) → IsUtf8 text → utf8_prefix text ≡ length text
unfolding utf8_prefix prefix_from valid_utf8
utf8_prefix-all text (cs, h, e) =
    let accepted : valid_utf8 text ≡ true =
      rw (← e) (scan-encode_all cs (length (encode_all cs)) h (omega arith)) in
    let good : valid_utf8 (take (length text - 0) text) ≡ true =
      rw (take-all (length text - 0) text (omega arith)) accepted in
    rw good (ground arith)

file_text-content :
    (name text : List ℕ) (size : ℕ)
    → IsUtf8 text
    → 0 < size
    → 0 < length text
    → file_text name size text ≡ content_text name text
unfolding file_text
file_text-content name text size h sized some_bytes =
    let whole = utf8_prefix-all text h in
    let named : (not (size == 0) && not (length text == 0)) ≡ true = ground arith in
    rw (whole, named) (ap (content_text name) (take-all (length text) text (omega arith)))

-- A file of at most max_bytes bytes that holds what a text is printed as, where its full and short text are UTF-8 without
-- NUL and lines, the short text is not empty where there is one, and the colour is valid: a refresh puts an item with
-- exactly that text under the name of the file.
pub use_file-print_text :
    (rescanned : Feed → Feed) (m : Memory) (f : Feed) (name : List ℕ) (t : ItemText)
    → IsUtf8 t.full
    → IsUtf8 (line_or_empty t.short)
    → IsLine t.full
    → IsLine (line_or_empty t.short)
    → t.short ≢ some []
    → valid_color t.colour ≡ true
    → length (print_text t) ≤ f.max_bytes
    → use_file rescanned m f name (contents (length (print_text t)) (print_text t))
      ≡ put_result
          (record f { block = (put_item m f.block name t).1 })
          (put_item m f.block name t).0
unfolding use_file
use_file-print_text rescanned m f name t full short full_line short_line other colour fits =
    let text = print_text t in
    let wanted = if ltb (length text) f.max_bytes then length text else f.max_bytes in
    let read : take wanted text ≡ text = take-all wanted text (ground arith) in
    let some_bytes : 0 < length text = omega (
      arith,
      length-append t.full (
          newline
          ∷ (line_or_empty t.short
              ++ newline ∷ print_colour t.colour (print_flags t.pango t.urgent))),
    ) in
    let back : file_text name (length text) (take wanted text) ≡ t =
      ap (file_text name (length text)) read
      ∙ file_text-content name text (length text) (print_text-IsUtf8 t full short colour) some_bytes
          some_bytes
      ∙ content_text-print_text name t full_line short_line other colour in
    ap
      (λ (u : ItemText).
        put_result (record f { block = (put_item m f.block name u).1 })
          (put_item m f.block name u).0)
      back
