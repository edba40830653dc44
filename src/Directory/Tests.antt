-- ===== src/Directory/Tests.antt =====
-- Runs of the functions of a feed, and the theorems at concrete inputs.
use i3sd.Common.{
  length, take, inl, ℕ, ◌≡◌, refl, Bool, true, false, none, some, List, [], ◌∷◌, arith,
}
use i3sd.Utf8.{valid_utf8}
use i3sd.Items.{
  Block, zero_item, memmove, compare_item_ids, memcmp, valid_color, all_hex, hex_digit,
}
use i3sd.Instance.{Content}
use i3sd.Producer.{put_item, ItemText}
use i3sd.Directory.Names.{
  feed_name, utf8_prefix, prefix_from, NameList, name_list_add, add_name_at, place_between,
  DirEntry, collect,
}
use i3sd.Utf8.Encoding.{IsScalar, encode, encode_all}
use i3sd.Directory.Names.Cutting.{CutBack, utf8_prefix-CutBack}
use i3sd.Directory.Names.Collecting.{Firsts}
use i3sd.Directory.Names.Firsts.{Offered, IsDistinct, collect-Firsts}
use i3sd.Directory.Lines.{
  newline, file_text, content_text, next_line, split_line, drop_return, parse_options, parse_words,
  parse_word, split_word, split_value, set_option, set_colour, parse_boolean,
}
use i3sd.Directory.Lines.Printing.{print_text}
use i3sd.Directory.Feed.Printed.{use_file-print_text}
use i3sd.Directory.Feed.{put_result, use_file, Feed, World, contents, rescan_listing}
use i3sd.Directory.Feed.Clean.{IsClean}
use i3sd.Directory.Feed.Cleaning.{rescan_listing-IsClean}
use i3sd.Directory.Watches.{
  WatchTable, acquire, find_watch, release, forget, release_found, release_at, drop_watch,
}
use i3sd.Directory.Watches.Table.{IsValid}
use i3sd.Directory.Watches.Sharing.{Acquired, Released, Forgotten, watches_shared}

-- One descriptor with two references.
abbrev shared : WatchTable
shared = record { watches = λ i. record { wd = 5; refs = 2 }; watch_count = 1; removed = [] }

abbrev shared-IsValid : IsValid shared
shared-IsValid = record {
  distinct = λ i j p q e. omega arith;
  referenced = λ i p. omega arith;
  bounded = omega arith;
}

watches_shared_example :
    (IsValid (acquire shared (some 5)).1 × Acquired shared 5 (acquire shared (some 5)))
    × (IsValid (release shared 5) × Released shared 5 (release shared 5))
    × (IsValid (forget shared 5) × Forgotten shared 5 (forget shared 5))
watches_shared_example = watches_shared shared 5 shared-IsValid

last_release : (release (release shared 5) 5).removed ≡ 5 ∷ []
unfolding release find_watch release_found release_at drop_watch
last_release = refl

abbrev listing : List DirEntry
listing =
    record { name = b'c' ∷ []; may_be_file = true }
    ∷ record { name = b'.' ∷ b'a' ∷ []; may_be_file = true }
    ∷ record { name = b'b' ∷ []; may_be_file = true }
    ∷ record { name = b'a' ∷ []; may_be_file = true }
    ∷ []

abbrev collected : Bool × NameList
collected = collect (record { names = λ i. []; count = 0; capacity = 2 }) false listing

first_two : collected.1.names 0 ≡ b'a' ∷ []
unfolding collect name_list_add add_name_at place_between compare_item_ids memcmp memmove feed_name
    valid_utf8
first_two = refl

third_missing : collected.0 ≡ true
unfolding collect name_list_add add_name_at place_between compare_item_ids memcmp memmove feed_name
    valid_utf8
third_missing = refl

listing-IsDistinct : IsDistinct listing
listing-IsDistinct =
    ((λ o. ground arith), ((λ o. ground arith), ((λ o. ground arith), ((λ o. o), tt))))

collect-Firsts_example : Firsts (Offered listing) collected.1 collected.0
collect-Firsts_example = collect-Firsts (λ i. []) 2 listing listing-IsDistinct

abbrev two_lines : List ℕ
two_lines =
    b'h' ∷ b'i' ∷ 13 ∷ newline ∷ newline ∷ b'#' ∷ b'f' ∷ b'f' ∷ b'0' ∷ b'0' ∷ b'0' ∷ b'0' ∷ b' '
    ∷ b'u' ∷ b'r' ∷ b'g' ∷ b'e' ∷ b'n' ∷ b't' ∷ b'=' ∷ b'1' ∷ newline ∷ []

text_of_two_lines : file_text (b'n' ∷ []) 22 two_lines ≡ record {
  full = b'h' ∷ b'i' ∷ [];
  short = none;
  colour = some (b'#' ∷ b'f' ∷ b'f' ∷ b'0' ∷ b'0' ∷ b'0' ∷ b'0' ∷ []);
  pango = false;
  urgent = true;
}
unfolding file_text utf8_prefix prefix_from valid_utf8 content_text next_line split_line drop_return
    parse_options parse_words parse_word split_word split_value set_option set_colour parse_boolean
    valid_color all_hex hex_digit
text_of_two_lines = refl

abbrev new_block : Block Content
new_block = record {
  name = b'x' ∷ [];
  token = [];
  list_mode = false;
  allocated = false;
  items = λ i. zero_item;
  item_count = 0;
  max_items = 2;
  live = true;
  render_dirty = false;
}

abbrev feed : Feed
feed = record {
  block = new_block;
  max_bytes = 4096;
  wd = some 5;
  overflowed = false;
  scanning = false;
  cancelled = false;
}

abbrev world : World
world = record {
  memory = record {
    calloc = true;
    copies = λ _. true;
    json = record { document = true; adds = λ _. true; write = λ _. some [] };
    realloc = λ _. true;
  };
  file = λ name. contents 22 two_lines;
  listing = some listing;
}

rescan_listing-IsClean_example : IsClean (Offered listing) (rescan_listing world feed listing).block
rescan_listing-IsClean_example =
    rescan_listing-IsClean world feed listing
      (record { sorted = λ i j p q. elim q [ ]; bounded = omega arith; unallocated = λ _. refl })
      listing-IsDistinct

abbrev coloured : ItemText
coloured = record {
  full = b'u' ∷ b'p' ∷ [];
  short = some (b'u' ∷ []);
  colour = some (b'#' ∷ b'0' ∷ b'0' ∷ b'f' ∷ b'f' ∷ b'0' ∷ b'0' ∷ []);
  pango = true;
  urgent = false;
}

letter_u : IsScalar b'u'
letter_u = record { nonzero = omega arith; unicode = omega arith; no_surrogate = inl (omega arith) }

letter_p : IsScalar b'p'
letter_p = record { nonzero = omega arith; unicode = omega arith; no_surrogate = inl (omega arith) }

-- The files of the feed may have 64 bytes.
use_file-print_text_example :
    use_file
      (λ same. same)
      world.memory
      (record feed { max_bytes = 64 })
      (b'n' ∷ [])
      (contents (length (print_text coloured)) (print_text coloured))
    ≡ put_result
        (record feed {
          max_bytes = 64;
          block = (put_item world.memory feed.block (b'n' ∷ []) coloured).1;
        })
        (put_item world.memory feed.block (b'n' ∷ []) coloured).0
unfolding valid_color all_hex hex_digit encode encode_all
use_file-print_text_example =
    use_file-print_text (λ same. same) world.memory (record feed { max_bytes = 64 }) (b'n' ∷ [])
      coloured (coloured.full, (letter_u, (letter_p, tt)), refl) (b'u' ∷ [], (letter_u, tt), refl)
      (ground arith, ground arith) (ground arith, ground arith) (λ same. cc) refl (omega arith)

-- An A and a euro sign, cut before the last byte.
utf8_prefix-CutBack_example :
    CutBack
      (take 3 (encode_all (0x41 ∷ 0x20ac ∷ [])))
      (utf8_prefix (take 3 (encode_all (0x41 ∷ 0x20ac ∷ []))))
unfolding encode encode_all
utf8_prefix-CutBack_example =
    utf8_prefix-CutBack (0x41 ∷ 0x20ac ∷ []) 3
      (
        record { nonzero = omega arith; unicode = omega arith; no_surrogate = inl (omega arith) },
        (
          record { nonzero = omega arith; unicode = omega arith; no_surrogate = inl (omega arith) },
          tt,
        ),
      )
      (omega arith)
