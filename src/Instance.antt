-- ===== src/Instance.antt =====
-- src/main.c, the instance by which a click finds its item: format_instance, which the frame carries,
-- and find_clicked_item, which reads what the click brings back.
pub mod Decimal
pub mod Routing
mod Tests
use i3sd.Common.{
  ℕ, zero, suc, ◌+◌, ◌-◌, ◌*◌, ◌/◌, ◌%◌, Bool, true, false, not, ◌&&◌, ◌||◌, Option, none, some,
  List, [], ◌∷◌, ◌++◌, ltb, leb, ◌==◌, if◌then◌else◌, length, take, list_eq,
}
use i3sd.Buffer.{Buffer}
use i3sd.Items.{Item, Block}
use i3sd.State.{BlockState}
use i3sd.State.Views.{c_string}

-- What an item of a block renders.
pub record Content : Type 0 where
  pub state : BlockState
  pub fragment : Buffer

-- `state.visible`, which is false where the item is zeroed.
abbrev pub is_visible : Item Content → Bool
is_visible item = elim item.content [ none ↦ false | some content ↦ content.state.visible ]

abbrev pub token_len : ℕ
token_len = 32

abbrev pub instance_max : ℕ
instance_max = 32 + 1 + 255 + 1

-- `%zu`: the last digit is the remainder. A round divides the number by ten, so one more round than
-- the number is fuel enough.
unfoldable pub digits : ℕ → ℕ → List ℕ
digits zero n = []
digits (suc fuel) n =
    let front = digits fuel (n / 10) in
    if ltb n 10 then (b'0' + n) ∷ [] else front ++ (b'0' + n % 10) ∷ []

unfoldable pub decimal : ℕ → List ℕ
decimal n = digits (n + 1) n

-- `snprintf` into the array: what does not fit before the NUL is cut off.
unfoldable pub format_instance : Block Content → Bool → Option (List ℕ) → ℕ → List ℕ
format_instance b list_mode id position = take (instance_max - 1) (
    if not list_mode then b.token else elim id [
      | some bytes ↦ b.token ++ b':' ∷ c_string bytes
      | none ↦ b.token ++ b'#' ∷ decimal (position + 1)
    ])

abbrev pub visible_at : Block Content → ℕ → Option ℕ
visible_at b i = if is_visible (b.items i) then some i else none

abbrev pub id_is : Option (List ℕ) → List ℕ → Bool
id_is none key = false
id_is (some id) key = length id == length key && list_eq id key

-- The loop over the items, with `remaining` of them left from `index`.
unfoldable pub find_by_id : Block Content → List ℕ → ℕ → ℕ → Option ℕ
find_by_id b key index zero = none
find_by_id b key index (suc remaining) =
    let rest = find_by_id b key (index + 1) remaining in
    if id_is (b.items index).id key then visible_at b index else rest

-- The loop over the digits.
unfoldable pub read_number : List ℕ → ℕ → Option ℕ
read_number [] number = some number
read_number (c ∷ rest) number =
    if ltb c b'0' || ltb b'9' c then none else read_number rest (number * 10 + (c - b'0'))

abbrev pub has_id : Item Content → Bool
has_id item = elim item.id [ none ↦ false | some id ↦ true ]

unfoldable pub find_by_number : Block Content → Option ℕ → Option ℕ
find_by_number b none = none
find_by_number b (some number) =
    if (number == 0 || ltb b.item_count number) || has_id (b.items (number - 1))
    then none
    else visible_at b (number - 1)

-- The position of the item, if the suffix addresses one that is visible.
unfoldable pub find_clicked_item : Block Content → List ℕ → Option ℕ
find_clicked_item b [] =
    if b.list_mode then none else if not (b.item_count == 1) then none else visible_at b 0
find_clicked_item b (c ∷ rest) =
    if not b.list_mode
    then none
    else if ltb (length (c ∷ rest)) 2
    then none
    else if c == b':'
    then find_by_id b rest 0 b.item_count
    else if not (c == b'#') || ltb 4 (length (c ∷ rest))
    then none
    else find_by_number b (read_number rest 0)
