-- ===== src/Instance/Tests.antt =====
-- Runs of the functions of the instance, and the theorem at a concrete block.
use i3sd.Common.{
  ℕ, zero, suc, ◌≡◌, refl, true, false, none, some, List, [], ◌∷◌, ◌==◌, if◌then◌else◌, take, drop,
  arith,
}
use i3sd.Items.{Block}
use i3sd.State.{full_text, empty_view, copied}
use i3sd.State.Views.{set_text}
use i3sd.Instance.{
  Content, digits, decimal, token_len, format_instance, read_number, find_by_number,
  find_clicked_item,
}
use i3sd.Instance.Routing.{Rendered, by_position, format_instance-Found}

abbrev hello : Content
hello = record {
  state = copied (set_text empty_view full_text (b'h' ∷ b'i' ∷ []));
  fragment = record { bytes = []; cap = 0 };
}

abbrev repeat_byte : ℕ → ℕ → List ℕ
repeat_byte zero c = []
repeat_byte (suc n) c = c ∷ repeat_byte n c

-- An item with the id "a", then one without an id.
abbrev two_items : Block Content
two_items = record {
  name = b'x' ∷ [];
  token = repeat_byte 32 b'f';
  list_mode = true;
  allocated = true;
  items = λ i. record { id = if i == 0 then some (b'a' ∷ []) else none; content = some hello };
  item_count = 2;
  max_items = 4;
  live = true;
  render_dirty = false;
}

twelve : decimal 12 ≡ b'1' ∷ b'2' ∷ []
unfolding decimal digits
twelve = refl

no_third : find_clicked_item two_items (b'#' ∷ b'3' ∷ []) ≡ none
unfolding find_clicked_item find_by_number read_number
no_third = refl

-- A number does not find an item that has an id.
no_number : find_clicked_item two_items (b'#' ∷ b'1' ∷ []) ≡ none
unfolding find_clicked_item find_by_number read_number
no_number = refl

second-Rendered : Rendered two_items 1
second-Rendered = record {
  place = omega arith;
  visible = refl;
  token = refl;
  addressing = by_position refl refl (omega arith);
}

format_instance-Found_example :
    (take token_len (format_instance two_items true none 1) ≡ two_items.token)
    × (find_clicked_item two_items (drop token_len (format_instance two_items true none 1))
        ≡ some 1)
format_instance-Found_example = format_instance-Found two_items 1 second-Rendered
