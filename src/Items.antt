-- ===== src/Items.antt =====
-- src/main.c, the parts on the items of a block that a native producer fills: the order of item ids,
-- the binary search by id, the array of items, and the test of a colour.
pub mod Compare
pub mod Search
pub mod Colours
pub mod Arrays
pub mod Placing
mod Tests
use Prim.Native.Nat.{Ordering, compare}
use i3sd.Common.{
  ℕ, zero, suc, ◌+◌, ◌-◌, ◌/◌, min, Bool, true, false, not, ◌&&◌, ◌||◌, Option, none, some, List,
  [], ◌∷◌, ltb, leb, ◌==◌, if◌then◌else◌, length, write,
}

-- The first result that is not zero.
abbrev pub then_by : Ordering → Ordering → Ordering
then_by Ordering.lt other = Ordering.lt
then_by Ordering.eq other = other
then_by Ordering.gt other = Ordering.gt

-- The sign of `memcmp` of the first `n` bytes, as an order.
unfoldable pub memcmp : ℕ → List ℕ → List ℕ → Ordering
memcmp zero left right = Ordering.eq
memcmp (suc n) [] right = Ordering.eq
memcmp (suc n) (a ∷ left) [] = Ordering.eq
memcmp (suc n) (a ∷ left) (b ∷ right) = then_by (compare a b) (memcmp n left right)

-- The sign of the result, as an order.
unfoldable pub compare_item_ids : List ℕ → List ℕ → Ordering
compare_item_ids left right =
    then_by (memcmp (min (length left) (length right)) left right)
      (compare (length left) (length right))

-- The loop of find_item between `low` and `high`: whether the id is there, and its position or the one
-- where it belongs. The interval shrinks in each round, so the number of items is fuel enough.
unfoldable pub find_between : ℕ → (ℕ → List ℕ) → List ℕ → ℕ → ℕ → Bool × ℕ
find_between zero ids id low high = (false, low)
find_between (suc fuel) ids id low high =
    let middle = low + (high - low) / 2 in
    let above = find_between fuel ids id (middle + 1) high in
    let below = find_between fuel ids id low middle in
    if ltb low high
    then elim (compare_item_ids (ids middle) id) [
      | Ordering.eq ↦ (true, middle)
      | Ordering.lt ↦ above
      | Ordering.gt ↦ below
    ]
    else (false, low)

-- The ids of the items by position, and their number.
unfoldable pub find_item : (ℕ → List ℕ) → ℕ → List ℕ → Bool × ℕ
find_item ids item_count id = find_between item_count ids id 0 item_count

-- The id is none where it is NULL; `content` is the state with its fragment, none where the item is
-- zeroed.
pub record Item (A : Type 0) : Type 0 where
  pub id : Option (List ℕ)
  pub content : Option A

-- The bytes of the id, `id_len` of them.
abbrev pub id_bytes : Option (List ℕ) → List ℕ
id_bytes none = []
id_bytes (some id) = id

abbrev pub id_of : {A : Type 0} → Item A → List ℕ
id_of item = id_bytes item.id

-- The array as a function of the position, and whether it is allocated. `live` says that the block's
-- generation is committed and current; `render_dirty` is the flag of the program that the block belongs
-- to. The token has 32 digits.
pub record Block (A : Type 0) : Type 0 where
  pub name : List ℕ
  pub token : List ℕ
  pub list_mode : Bool
  pub allocated : Bool
  pub items : ℕ → Item A
  pub item_count : ℕ
  pub max_items : ℕ
  pub live : Bool
  pub render_dirty : Bool

-- A frame is to be rendered, if the block is in use.
abbrev pub items_changed : {A : Type 0} → Block A → Block A
items_changed b = record b { render_dirty = if b.live then true else b.render_dirty }

abbrev pub ids_of : {A : Type 0} → Block A → ℕ → List ℕ
ids_of b i = id_of (b.items i)

abbrev pub zero_item : {A : Type 0} → Item A
zero_item = record { id = none; content = none }

-- `count` elements moved from the position `from` to the position `to`.
unfoldable pub memmove : {A : Type 0} → (ℕ → A) → ℕ → ℕ → ℕ → ℕ → A
memmove f to from count i = if leb to i && ltb i (to + count) then f (i + from - to) else f i

-- remove_item once the item is found at `position`.
unfoldable pub remove_at : {A : Type 0} → Block A → ℕ → Block A
remove_at b position =
    let count = b.item_count - 1 in
    let cleared = write b.items position zero_item in
    items_changed (record b {
      items = write (memmove cleared position (position + 1) (count - position)) count zero_item;
      item_count = count;
    })

unfoldable pub remove_item : {A : Type 0} → Block A → List ℕ → Bool × Block A
remove_item b id =
    let (found, position) = find_item (ids_of b) b.item_count id in
    if not found then (false, b) else (true, remove_at b position)

pub data PutResult : Type 0 where
  put_unchanged : PutResult
  put_changed : PutResult
  put_evicted : PutResult
  put_full : PutResult
  put_failed : PutResult

-- The array part of put_item, for the result of find_item and the new item: it replaces the found one,
-- or goes to its place, where the last item of a full block makes room.
unfoldable pub place_item : {A : Type 0} → Block A → Bool → ℕ → Item A → PutResult × Block A
place_item b found position item =
    let full = b.item_count == b.max_items in
    let kept = if full then b.item_count - 1 else b.item_count in
    let items = if full then write b.items kept zero_item else b.items in
    if found
    then (put_changed, items_changed (record b { items = write b.items position item }))
    else (
      if full then put_evicted else put_changed,
      items_changed (record b {
        items = write (memmove items (position + 1) position (kept - position)) position item;
        item_count = kept + 1;
      }),
    )

-- The loop of block_items_clear.
unfoldable pub zero_items : {A : Type 0} → ℕ → (ℕ → Item A) → ℕ → Item A
zero_items zero items = items
zero_items (suc count) items = write (zero_items count items) count zero_item

unfoldable pub clear_items : {A : Type 0} → Block A → Block A
clear_items b =
    if b.item_count == 0
    then b
    else items_changed (record b { items = zero_items b.item_count b.items; item_count = 0 })

unfoldable pub hex_digit : ℕ → Bool
hex_digit byte =
    (leb b'0' byte && leb byte b'9')
    || ((leb b'a' byte && leb byte b'f') || (leb b'A' byte && leb byte b'F'))

-- The loop of valid_color over the bytes after the first.
unfoldable pub all_hex : List ℕ → Bool
all_hex [] = true
all_hex (byte ∷ rest) = if not (hex_digit byte) then false else all_hex rest

-- A colour is a string or NULL.
unfoldable pub valid_color : Option (List ℕ) → Bool
valid_color none = true
valid_color (some []) = false
valid_color (some (first ∷ rest)) =
    let len = length (first ∷ rest) in
    if (not (len == 7) && not (len == 9)) || not (first == b'#') then false else all_hex rest
