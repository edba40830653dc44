-- ===== src/Directory/Lines/Printing.antt =====
-- A text that is printed as src/directory_feed.c expects it is read back.
use i3sd.Common.{
  ℕ, suc, ◌≡◌, ◌≢◌, refl, ap, ◌∙◌, Bool, true, false, not, ◌&&◌, Option, none, some, List, [], ◌∷◌,
  ◌++◌, ◌==◌, length, arith,
}
use i3sd.Items.{valid_color, all_hex, hex_digit}
use i3sd.Producer.{ItemText}
use i3sd.Directory.Lines.{
  newline, carriage_return, is_blank, split_line, drop_return, next_line, parse_boolean, split_word,
  split_value, color_key, pango_key, urgent_key, set_colour, set_option, parse_word, parse_words,
  parse_options, named_text, line_or_empty, line_if_any, content_text,
}

-- A line: no newline in it, and no carriage return at its end.
abbrev pub HasNoNewline : List ℕ → Type 0
HasNoNewline [] = Unit
HasNoNewline (c ∷ text) = (c ≢ newline) × HasNoNewline text

abbrev pub EndsPlain : List ℕ → Type 0
EndsPlain [] = Unit
EndsPlain (c ∷ []) = c ≢ carriage_return
EndsPlain (c ∷ d ∷ text) = EndsPlain (d ∷ text)

abbrev pub IsLine : List ℕ → Type 0
IsLine text = HasNoNewline text × EndsPlain text

-- What a text is printed as: its lines, and the options as words.
abbrev pub print_flag : Bool → List ℕ
print_flag true = b'1' ∷ []
print_flag false = b'0' ∷ []

abbrev pub print_flags : Bool → Bool → List ℕ
print_flags pango urgent =
    (pango_key ++ b'=' ∷ print_flag pango) ++ b' ' ∷ (urgent_key ++ b'=' ∷ print_flag urgent)

abbrev pub print_colour : Option (List ℕ) → List ℕ → List ℕ
print_colour none rest = rest
print_colour (some colour) rest = (color_key ++ b'=' ∷ colour) ++ b' ' ∷ rest

abbrev pub print_text : ItemText → List ℕ
print_text t =
    t.full
    ++ newline
      ∷ (line_or_empty t.short ++ newline ∷ print_colour t.colour (print_flags t.pango t.urgent))

split_line-append :
    (line rest : List ℕ)
    → HasNoNewline line
    → split_line (line ++ newline ∷ rest) ≡ (line, some rest)
unfolding split_line
split_line-append [] rest h = ground arith
split_line-append (c ∷ line) rest (other, h) =
    let plain : (c == newline) ≡ false = ground arith in
    rw (plain, split_line-append line rest h) refl

split_line-all : (line : List ℕ) → HasNoNewline line → split_line line ≡ (line, none)
unfolding split_line
split_line-all [] h = refl
split_line-all (c ∷ line) (other, h) =
    let plain : (c == newline) ≡ false = ground arith in rw (plain, split_line-all line h) refl

drop_return-plain : (line : List ℕ) → EndsPlain line → drop_return line ≡ line
unfolding drop_return
drop_return-plain [] h = refl
drop_return-plain (c ∷ []) h = ground arith
drop_return-plain (c ∷ d ∷ line) h = ap (◌∷◌ c) (drop_return-plain (d ∷ line) h)

-- A word: no blank and no newline in it.
abbrev IsWord : List ℕ → Type 0
IsWord [] = Unit
IsWord (c ∷ word) = (is_blank c ≡ false) × (c ≢ newline) × (c ≢ carriage_return) × IsWord word

split_word-append :
    (word rest : List ℕ) → IsWord word → split_word (word ++ b' ' ∷ rest) ≡ (word, rest)
unfolding split_word
split_word-append [] rest h = refl
split_word-append (c ∷ word) rest (plain, n, r, h) = rw (plain, split_word-append word rest h) refl

all_hex-IsWord : (text : List ℕ) → all_hex text ≡ true → IsWord text
unfolding all_hex hex_digit
all_hex-IsWord [] h = tt
all_hex-IsWord (c ∷ text) h =
    (ground arith, ground arith, ground arith, all_hex-IsWord text (ground arith))

valid_color-IsWord : (colour : List ℕ) → valid_color (some colour) ≡ true → IsWord colour
unfolding valid_color
valid_color-IsWord [] h = tt
valid_color-IsWord (c ∷ text) h =
    let hash : (c == b'#') ≡ true = ground arith in
    let hex : all_hex text ≡ true = ground arith in
    (ground arith, ground arith, ground arith, all_hex-IsWord text hex)

-- The test of a word, for the words that are known.
abbrev is_word : List ℕ → Bool
is_word [] = true
is_word (c ∷ word) =
    not (is_blank c) && not (c == newline) && not (c == carriage_return) && is_word word

is_word_sound : (word : List ℕ) → is_word word ≡ true → IsWord word
is_word_sound [] h = tt
is_word_sound (c ∷ word) h =
    (ground arith, ground arith, ground arith, is_word_sound word (ground arith))

IsWord-append : (a b : List ℕ) → IsWord a → IsWord b → IsWord (a ++ b)
IsWord-append [] b h g = g
IsWord-append (c ∷ a) b (plain, n, r, h) g = (plain, n, r, IsWord-append a b h g)

colour_option-IsWord :
    (colour : List ℕ) → valid_color (some colour) ≡ true → IsWord (color_key ++ b'=' ∷ colour)
colour_option-IsWord colour h =
    IsWord-append (color_key ++ b'=' ∷ []) colour (is_word_sound (color_key ++ b'=' ∷ []) refl)
      (valid_color-IsWord colour h)

IsWord-line : (word : List ℕ) → IsWord word → HasNoNewline word
IsWord-line [] h = tt
IsWord-line (c ∷ word) (plain, n, r, h) = (n, IsWord-line word h)

-- The flags are read back into any text.
print_flags-parse :
    (pango urgent : Bool) (t : ItemText) (fuel : ℕ)
    → parse_words (suc (suc (suc fuel))) (print_flags pango urgent) t
      ≡ record t { pango = pango; urgent = urgent }
unfolding parse_words split_word split_value parse_word set_option parse_boolean
print_flags-parse true true t fuel = refl
print_flags-parse true false t fuel = refl
print_flags-parse false true t fuel = refl
print_flags-parse false false t fuel = refl

-- A colour before other words is read.
print_colour-parse :
    (colour rest : List ℕ) (t : ItemText) (fuel : ℕ)
    → valid_color (some colour) ≡ true
    → parse_words (suc fuel) (print_colour (some colour) rest) t
      ≡ parse_words fuel rest (record t { colour = some colour })
unfolding parse_words split_value parse_word set_option set_colour
print_colour-parse colour rest t fuel h =
    let word = color_key ++ b'=' ∷ colour in
    let whole : split_word (word ++ b' ' ∷ rest) ≡ (word, rest) =
      split_word-append word rest (colour_option-IsWord colour h) in
    rw (whole, h) refl

print_options-parse :
    (colour : Option (List ℕ)) (pango urgent : Bool) (t : ItemText)
    → valid_color colour ≡ true
    → t.colour ≡ none
    → parse_options (some (print_colour colour (print_flags pango urgent))) t
      ≡ record t { colour = colour; pango = pango; urgent = urgent }
unfolding parse_options
print_options-parse none pango urgent t h start =
    let flags = print_flags-parse pango urgent t (
      suc (
        suc
          (suc (length (print_flag pango ++ b' ' ∷ (urgent_key ++ b'=' ∷ print_flag urgent)))))) in
    rw (flags, start) refl
print_options-parse (some colour) pango urgent t h start =
    let more = length (colour ++ b' ' ∷ print_flags pango urgent) in
    let first =
      print_colour-parse colour (print_flags pango urgent) t (suc (suc (suc (suc (suc more))))) h in
    first ∙ print_flags-parse pango urgent (record t { colour = some colour }) (suc (suc more))

HasNoNewline-append : (a b : List ℕ) → HasNoNewline a → HasNoNewline b → HasNoNewline (a ++ b)
HasNoNewline-append [] b h g = g
HasNoNewline-append (c ∷ a) b (other, h) g = (other, HasNoNewline-append a b h g)

EndsPlain-append : (a b : List ℕ) (c : ℕ) → EndsPlain (c ∷ b) → EndsPlain (a ++ c ∷ b)
EndsPlain-append [] b c h = h
EndsPlain-append (x ∷ []) b c h = h
EndsPlain-append (x ∷ y ∷ a) b c h = EndsPlain-append (y ∷ a) b c h

flag_option-IsWord :
    (key : List ℕ) (flag : Bool) → IsWord key → IsWord (key ++ b'=' ∷ print_flag flag)
flag_option-IsWord key true h =
    IsWord-append key (b'=' ∷ print_flag true) h (is_word_sound (b'=' ∷ print_flag true) refl)
flag_option-IsWord key false h =
    IsWord-append key (b'=' ∷ print_flag false) h (is_word_sound (b'=' ∷ print_flag false) refl)

flags_end : (urgent : Bool) → EndsPlain (b' ' ∷ (urgent_key ++ b'=' ∷ print_flag urgent))
flags_end true = ground arith
flags_end false = ground arith

print_flags-IsLine : (pango urgent : Bool) → IsLine (print_flags pango urgent)
print_flags-IsLine pango urgent =
    let first = pango_key ++ b'=' ∷ print_flag pango in
    let second = urgent_key ++ b'=' ∷ print_flag urgent in
    (
      HasNoNewline-append first (b' ' ∷ second)
          (IsWord-line first (flag_option-IsWord pango_key pango (is_word_sound pango_key refl)))
          (
            ground arith,
            IsWord-line second
                (flag_option-IsWord urgent_key urgent (is_word_sound urgent_key refl)),
          ),
      EndsPlain-append first second b' ' (flags_end urgent),
    )

print_colour-IsLine :
    (colour : Option (List ℕ)) (pango urgent : Bool)
    → valid_color colour ≡ true
    → IsLine (print_colour colour (print_flags pango urgent))
print_colour-IsLine none pango urgent h = print_flags-IsLine pango urgent
print_colour-IsLine (some colour) pango urgent h =
    let word = color_key ++ b'=' ∷ colour in
    let (lines, plain) = print_flags-IsLine pango urgent in
    (
      HasNoNewline-append word (b' ' ∷ print_flags pango urgent)
          (IsWord-line word (colour_option-IsWord colour h)) (ground arith, lines),
      EndsPlain-append word (print_flags pango urgent) b' ' plain,
    )

next_line-append :
    (line rest : List ℕ)
    → IsLine line
    → next_line (some (line ++ newline ∷ rest)) ≡ (some line, some rest)
unfolding next_line
next_line-append line rest (h, plain) =
    rw (split_line-append line rest h, drop_return-plain line plain) refl

next_line-all : (line : List ℕ) → IsLine line → next_line (some line) ≡ (some line, none)
unfolding next_line
next_line-all line (h, plain) = rw (split_line-all line h, drop_return-plain line plain) refl

line_if_any-short :
    (short : Option (List ℕ)) → short ≢ some [] → line_if_any (some (line_or_empty short)) ≡ short
line_if_any-short none h = refl
line_if_any-short (some []) h = absurd (h refl)
line_if_any-short (some (c ∷ line)) h = refl

-- A text whose lines are lines, whose short text is not empty where it has one, and whose colour is valid, is read back
-- from what it is printed as, whatever the name of the file.
pub content_text-print_text :
    (name : List ℕ) (t : ItemText)
    → IsLine t.full
    → IsLine (line_or_empty t.short)
    → t.short ≢ some []
    → valid_color t.colour ≡ true
    → content_text name (print_text t) ≡ t
unfolding content_text
content_text-print_text name t full short other colour =
    let third = print_colour t.colour (print_flags t.pango t.urgent) in
    rw
      (
        next_line-append t.full (line_or_empty t.short ++ newline ∷ third) full,
        next_line-append (line_or_empty t.short) third short,
        next_line-all third (print_colour-IsLine t.colour t.pango t.urgent colour),
        line_if_any-short t.short other,
        print_options-parse t.colour t.pango t.urgent
            (record (named_text name) { full = t.full; short = t.short }) colour refl,
      )
      refl
