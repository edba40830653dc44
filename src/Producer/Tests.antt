-- ===== src/Producer/Tests.antt =====
-- Runs of put_item, and the theorem at a concrete block.
use i3sd.Common.{ℕ, zero, suc, ◌≡◌, refl, true, false, none, some, List, [], ◌∷◌}
use i3sd.Buffer.{empty, clear, reserve, append, grow}
use i3sd.Utf8.{valid_utf8}
use i3sd.Items.{
  Block, zero_item, find_item, find_between, compare_item_ids, memcmp, memmove, place_item,
  put_changed, put_unchanged, put_failed, put_full, valid_color,
}
use i3sd.State.{
  valid_text, materialize_state, check_texts, check_borders, copy_texts, enum_value,
  state_matches_view, texts_match, borders_match, text_matches,
}
use i3sd.State.Views.{c_string}
use i3sd.Instance.{Content, format_instance}
use i3sd.Producer.{
  Memory, object, add_string, add_member, add_border, add_min_width, keep_fragment, serialize_block,
  make_fragment, materialize_item, ItemText, set_text_view, item_view, place_made, put_at, put_item,
}

abbrev all_memory : Memory
all_memory = record {
  calloc = true;
  copies = λ _. true;
  json = record { document = true; adds = λ _. true; write = λ _. some (b'{' ∷ b'}' ∷ []) };
  realloc = λ _. true;
}

abbrev repeat_byte : ℕ → ℕ → List ℕ
repeat_byte zero c = []
repeat_byte (suc n) c = c ∷ repeat_byte n c

abbrev new_block : Block Content
new_block = record {
  name = b'x' ∷ [];
  token = repeat_byte 32 b'f';
  list_mode = false;
  allocated = false;
  items = λ i. zero_item;
  item_count = 0;
  max_items = 1;
  live = true;
  render_dirty = false;
}

abbrev hi : ItemText
hi = record { full = b'h' ∷ b'i' ∷ []; short = none; colour = none; pango = false; urgent = false }

abbrev id_a : List ℕ
id_a = b'a' ∷ []

abbrev id_b : List ℕ
id_b = b'b' ∷ []

abbrev after_put : Block Content
after_put = (put_item all_memory new_block id_a hi).1

first_changes : (put_item all_memory new_block id_a hi).0 ≡ put_changed
unfolding put_item find_item find_between put_at place_made materialize_item valid_text valid_utf8
    materialize_state check_texts check_borders copy_texts enum_value valid_color make_fragment
    serialize_block keep_fragment object add_string add_member add_border add_min_width append
    reserve grow clear empty place_item set_text_view item_view format_instance c_string
first_changes = refl

again_unchanged : (put_item all_memory after_put id_a hi).0 ≡ put_unchanged
unfolding put_item find_item find_between put_at place_made materialize_item valid_text valid_utf8
    materialize_state check_texts check_borders copy_texts enum_value valid_color make_fragment
    serialize_block keep_fragment object add_string add_member add_border add_min_width append
    reserve grow clear empty place_item set_text_view item_view format_instance c_string
    compare_item_ids memcmp state_matches_view texts_match borders_match text_matches memmove
again_unchanged = refl

other_full : (put_item all_memory after_put id_b hi).0 ≡ put_full
unfolding put_item find_item find_between put_at place_made materialize_item valid_text valid_utf8
    materialize_state check_texts check_borders copy_texts enum_value valid_color make_fragment
    serialize_block keep_fragment object add_string add_member add_border add_min_width append
    reserve grow clear empty place_item set_text_view item_view format_instance c_string
    compare_item_ids memcmp memmove
other_full = refl

no_array : (put_item (record all_memory { calloc = false }) new_block id_a hi).0 ≡ put_failed
unfolding put_item find_item find_between
no_array = refl
