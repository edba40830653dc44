-- ===== src/State/Tests.antt =====
-- Runs of the functions of the state, and the theorems at concrete inputs.
use i3sd.Common.{ℕ, ◌≡◌, ◌↔◌, refl, true, false, none, some, List, [], ◌∷◌}
use i3sd.Common.Int.{pos}
use i3sd.Utf8.{valid_utf8}
use i3sd.Items.{valid_color, all_hex, hex_digit}
use i3sd.State.{
  full_text, color, empty_view, StateView, ok, err, no_memory, min_width_copy, check_texts,
  check_borders, copy_texts, enum_value, valid_text, copied, materialize_state, state_matches_view,
  texts_match, borders_match, text_matches,
}
use i3sd.State.Views.{
  Table, string, number, boolean, read, refused, unknown_option, field_name, min_width_name,
  urgent_name, parse_state_view, read_fields, read_state_field, c_string, find_text_field,
  find_border, read_text_view, read_integer_view, read_min_width, read_urgent, require_full_text,
  set_text,
}
use i3sd.State.Forms.{IsState, Copies, Made}
use i3sd.State.Accepting.{materialize_state_iff}
use i3sd.State.Matching.{shown, state_matches_view_iff}

abbrev hi_text : List ℕ
hi_text = b'h' ∷ b'i' ∷ []

abbrev red : List ℕ
red = b'#' ∷ b'f' ∷ b'0' ∷ b'0' ∷ b'0' ∷ b'0' ∷ b'0' ∷ []

abbrev table : Table
table =
    (some (field_name full_text), string hi_text none)
    ∷ (some min_width_name, string hi_text none)
    ∷ (some (field_name color), string red none)
    ∷ (some urgent_name, boolean true)
    ∷ []

-- The same with the width first an integer.
abbrev other_table : Table
other_table = (some min_width_name, number (b'7' ∷ []) (pos 7)) ∷ table

abbrev hi_view : StateView
hi_view =
    record (set_text
      (record (set_text empty_view full_text hi_text) {
        min_width_present = true;
        min_width_is_string = true;
        min_width_text = some hi_text;
      })
      color red) { urgent = true }

-- Read from the other table, it keeps the integer.
abbrev other_view : StateView
other_view =
    record (set_text
      (record (set_text (record empty_view { min_width_integer = pos 7 }) full_text hi_text) {
        min_width_present = true;
        min_width_is_string = true;
        min_width_text = some hi_text;
      })
      color red) { urgent = true }

hi_table : parse_state_view true table ≡ read hi_view
unfolding parse_state_view read_fields read_state_field c_string find_text_field find_border
    read_text_view read_integer_view read_min_width read_urgent require_full_text
hi_table = refl

other_hi_table : parse_state_view true other_table ≡ read other_view
unfolding parse_state_view read_fields read_state_field c_string find_text_field find_border
    read_text_view read_integer_view read_min_width read_urgent require_full_text
other_hi_table = refl

id_refused :
    parse_state_view false ((some (b'i' ∷ b'd' ∷ []), string hi_text none) ∷ [])
    ≡ refused unknown_option
unfolding parse_state_view read_fields read_state_field c_string find_text_field find_border
    read_text_view read_integer_view read_min_width read_urgent require_full_text
id_refused = refl

hi_made : materialize_state (λ _. true) hi_view ≡ ok (copied hi_view)
unfolding materialize_state check_texts check_borders copy_texts enum_value valid_text valid_utf8
    valid_color all_hex hex_digit
hi_made = refl

no_memory_made :
    materialize_state (λ copy. elim copy [ min_width_copy ↦ false | _ ↦ true ]) hi_view
    ≡ err no_memory
unfolding materialize_state check_texts check_borders copy_texts enum_value valid_text valid_utf8
    valid_color all_hex hex_digit
no_memory_made = refl

other_matches : state_matches_view (copied hi_view) other_view ≡ true
unfolding state_matches_view texts_match borders_match text_matches
other_matches = refl

materialize_state_iff_example :
    (materialize_state (λ _. true) hi_view ≡ ok (copied hi_view))
    ↔ (IsState hi_view × Copies (λ _. true) hi_view × Made hi_view (copied hi_view))
materialize_state_iff_example = materialize_state_iff (λ _. true) hi_view (copied hi_view)

state_matches_view_iff_example : (state_matches_view (copied hi_view) other_view ≡ true) ↔ (
    (materialize_state (λ _. true) other_view ≡ ok (copied other_view))
    × (shown (copied other_view) ≡ shown (copied hi_view)))
state_matches_view_iff_example =
    state_matches_view_iff (λ _. true) hi_view other_view (copied hi_view) true other_table hi_made
      other_hi_table
