-- ===== src/Items/Tests.antt =====
-- Runs of the item functions of src/main.c, and their theorems at concrete inputs.
use Prim.Native.Nat.{Ordering}
use i3sd.Common.{
  ℕ, ◌≡◌, ◌↔◌, inl, inr, refl, true, false, some, List, [], ◌∷◌, ◌==◌, if◌then◌else◌, arith,
}
use i3sd.Items.{
  Item, Block, memmove, remove_at, remove_item, put_evicted, place_item, memcmp, compare_item_ids,
  find_between, find_item, hex_digit, all_hex, valid_color,
}
use i3sd.Items.Compare.{Less, Compares, compare_item_ids-Compares}
use i3sd.Items.Search.{Sorted, Located, find_item-Located}
use i3sd.Items.Arrays.{Removed, remove_item-Removed}
use i3sd.Items.Colours.{Colour, valid_color_iff}

abbrev car : List ℕ
car = b'c' ∷ b'a' ∷ b'r' ∷ []

abbrev cart : List ℕ
cart = b'c' ∷ b'a' ∷ b'r' ∷ b't' ∷ []

abbrev cat : List ℕ
cat = b'c' ∷ b'a' ∷ b't' ∷ []

prefix_first : compare_item_ids car cart ≡ Ordering.lt
unfolding compare_item_ids memcmp
prefix_first = refl

compare_item_ids-Compares_example : Compares cat cart (compare_item_ids cat cart)
compare_item_ids-Compares_example = compare_item_ids-Compares cat cart

abbrev two_ids : ℕ → List ℕ
two_ids i = if i == 0 then car else cat

finds_place : find_item two_ids 2 cart ≡ (false, 1)
unfolding find_item find_between compare_item_ids memcmp
finds_place = refl

finds_cat : find_item two_ids 2 cat ≡ (true, 1)
unfolding find_item find_between compare_item_ids memcmp
finds_cat = refl

car_first : Less car cat
unfolding Less
car_first = inr (refl, inr (refl, inl (omega arith)))

two_ids-Sorted : Sorted two_ids 2
two_ids-Sorted i j p q =
    let first : i ≡ 0 = omega arith in
    let second : j ≡ 1 = omega arith in rw (first, second) car_first

find_item-Located_example : Located two_ids 2 cart (find_item two_ids 2 cart)
find_item-Located_example = find_item-Located two_ids 2 cart two_ids-Sorted

-- A full block.
abbrev two_items : Block ℕ
two_items = record {
  items = λ i. record { id = some (two_ids i); content = some i };
  name = b'i' ∷ [];
  token = [];
  list_mode = true;
  allocated = true;
  item_count = 2;
  max_items = 2;
  live = true;
  render_dirty = false;
}

abbrev cart_item : Item ℕ
cart_item = record { id = some cart; content = some 7 }

evicts_cat : (place_item two_items false 1 cart_item).0 ≡ put_evicted
unfolding place_item
evicts_cat = refl

removes_car : (remove_item two_items car).1.items 0 ≡ two_items.items 1
unfolding remove_item remove_at memmove find_item find_between compare_item_ids memcmp
removes_car = refl

asks_for_frame : (remove_item two_items car).1.render_dirty ≡ true
unfolding remove_item remove_at memmove find_item find_between compare_item_ids memcmp
asks_for_frame = refl

remove_item-Removed_example : Removed two_items cat (remove_item two_items cat)
remove_item-Removed_example = remove_item-Removed two_items cat two_ids-Sorted

abbrev red : List ℕ
red = b'#' ∷ b'F' ∷ b'f' ∷ b'0' ∷ b'0' ∷ b'0' ∷ b'0' ∷ []

red_valid : valid_color (some red) ≡ true
unfolding valid_color all_hex hex_digit
red_valid = refl

short_invalid : valid_color (some (b'#' ∷ b'f' ∷ b'f' ∷ b'f' ∷ [])) ≡ false
unfolding valid_color
short_invalid = refl

valid_color_iff_example : (valid_color (some red) ≡ true) ↔ Colour red
valid_color_iff_example = valid_color_iff red
