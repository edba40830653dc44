-- ===== src/Directory/Lines.antt =====
-- src/directory_feed.c, the text of a file: its lines and the options on the third one.

pub mod Printing
use i3sd.Common.{
  ℕ, zero, suc, Bool, true, false, not, ◌&&◌, ◌||◌, Option, none, some, List, [], ◌∷◌, ◌==◌,
  if◌then◌else◌, length, take, list_eq,
}
use i3sd.Items.{valid_color}
use i3sd.Producer.{ItemText}
use i3sd.Directory.Names.{utf8_prefix}

abbrev pub newline : ℕ
newline = 10

abbrev pub carriage_return : ℕ
carriage_return = 13

abbrev pub tab : ℕ
tab = 9

-- `memchr` for a newline: the bytes before it, and those after it if there is one.
unfoldable pub split_line : List ℕ → List ℕ × Option (List ℕ)
split_line [] = ([], none)
split_line (c ∷ text) =
    let (front, rest) = split_line text in
    if c == newline then ([], some text) else (c ∷ front, rest)

-- A carriage return at the end is dropped.
unfoldable pub drop_return : List ℕ → List ℕ
drop_return [] = []
drop_return (c ∷ []) = if c == carriage_return then [] else c ∷ []
drop_return (c ∷ d ∷ line) = c ∷ drop_return (d ∷ line)

-- The line at the cursor, and the cursor after it; none where it is NULL.
unfoldable pub next_line : Option (List ℕ) → Option (List ℕ) × Option (List ℕ)
next_line none = (none, none)
next_line (some text) = let (line, rest) = split_line text in (some (drop_return line), rest)

unfoldable pub parse_boolean : List ℕ → Bool → Bool
parse_boolean value setting =
    if list_eq value (b'1' ∷ []) || list_eq value (b't' ∷ b'r' ∷ b'u' ∷ b'e' ∷ [])
    then true
    else if list_eq value (b'0' ∷ []) || list_eq value (b'f' ∷ b'a' ∷ b'l' ∷ b's' ∷ b'e' ∷ [])
    then false
    else setting

abbrev pub is_blank : ℕ → Bool
is_blank c = c == b' ' || c == tab

-- The bytes up to the next blank, and those after it.
unfoldable pub split_word : List ℕ → List ℕ × List ℕ
split_word [] = ([], [])
split_word (c ∷ options) =
    let (word, rest) = split_word options in if is_blank c then ([], options) else (c ∷ word, rest)

-- `strchr` for an equals sign: the key before it and the value after it.
unfoldable pub split_value : List ℕ → Option (List ℕ × List ℕ)
split_value [] = none
split_value (c ∷ word) =
    let rest = split_value word in
    if c == b'='
    then some ([], word)
    else elim rest [ none ↦ none | some (key, value) ↦ some (c ∷ key, value) ]

abbrev pub color_key : List ℕ
color_key = b'c' ∷ b'o' ∷ b'l' ∷ b'o' ∷ b'r' ∷ []

abbrev pub pango_key : List ℕ
pango_key = b'p' ∷ b'a' ∷ b'n' ∷ b'g' ∷ b'o' ∷ []

abbrev pub urgent_key : List ℕ
urgent_key = b'u' ∷ b'r' ∷ b'g' ∷ b'e' ∷ b'n' ∷ b't' ∷ []

unfoldable pub set_colour : List ℕ → ItemText → ItemText
set_colour value t = if valid_color (some value) then record t { colour = some value } else t

unfoldable pub set_option : List ℕ → List ℕ → ItemText → ItemText
set_option key value t =
    if list_eq key color_key
    then set_colour value t
    else if list_eq key pango_key
    then record t { pango = parse_boolean value t.pango }
    else if list_eq key urgent_key
    then record t { urgent = parse_boolean value t.urgent }
    else t

-- A word of the options: `key=value`, or a bare colour.
unfoldable pub parse_word : List ℕ → Option (List ℕ × List ℕ) → ItemText → ItemText
parse_word word none t = set_colour word t
parse_word word (some (key, value)) t = set_option key value t

-- The loop; a round takes a byte at least, so the length of the options is fuel enough.
unfoldable pub parse_words : ℕ → List ℕ → ItemText → ItemText
parse_words zero options t = t
parse_words (suc fuel) [] t = t
parse_words (suc fuel) (c ∷ options) t =
    let (word, rest) = split_word (c ∷ options) in
    let skipped = parse_words fuel options t in
    let parsed = parse_words fuel rest (parse_word word (split_value word) t) in
    if is_blank c then skipped else parsed

unfoldable pub parse_options : Option (List ℕ) → ItemText → ItemText
parse_options none t = t
parse_options (some options) t = parse_words (length options) options t

abbrev pub named_text : List ℕ → ItemText
named_text name = record { full = name; short = none; colour = none; pango = false; urgent = false }

abbrev pub line_or_empty : Option (List ℕ) → List ℕ
line_or_empty none = []
line_or_empty (some line) = line

abbrev pub line_if_any : Option (List ℕ) → Option (List ℕ)
line_if_any none = none
line_if_any (some []) = none
line_if_any (some (c ∷ line)) = some (c ∷ line)

-- The text of a file with some content.
unfoldable pub content_text : List ℕ → List ℕ → ItemText
content_text name content =
    let (first, cursor) = next_line (some content) in
    let (second, cursor') = next_line cursor in
    let (third, cursor'') = next_line cursor' in
    parse_options third
      (record (named_text name) { full = line_or_empty first; short = line_if_any second })

-- The text of a file by its name, the size that is reported, and the bytes that are read.
unfoldable pub file_text : List ℕ → ℕ → List ℕ → ItemText
file_text name size content =
    let len = utf8_prefix content in
    if not (size == 0) && not (len == 0)
    then content_text name (take len content)
    else named_text name
