-- ===== src/Producer.antt =====
-- src/main.c, how a native producer sets an item: the JSON object of an item, materialize_item and
-- i3sd_block_put_item.
pub mod Putting
pub mod Outcome
mod Tests
use i3sd.Common.{
  ℕ, ◌+◌, Bool, true, false, not, ◌&&◌, ◌||◌, Option, none, some, List, [], ◌∷◌, ◌++◌, ltb, ◌==◌,
  if◌then◌else◌, length,
}
use i3sd.Common.Int.{ℤ, pos, int_eq}
use i3sd.Buffer.{Buffer, empty, clear, append}
use i3sd.Items.{
  Item, Block, ids_of, zero_item, find_item, PutResult, put_unchanged, put_full, put_failed,
  place_item,
}
use i3sd.State.{
  full_text, short_text, color, background, border, align, markup, border_top, border_right,
  border_bottom, border_left, TextField, Border, StateView, BlockState, empty_view, StateError,
  invalid_id, no_memory, too_long, Result, ok, err, ◌>>=◌, ◌>>◌, fail_if, valid_text, bytes_of,
  Copy, id_copy, state_matches_view, materialize_state, pango_text,
}
use i3sd.State.Views.{field_name, border_name, min_width_name, urgent_name, set_text}
use i3sd.Instance.{Content, format_instance}

pub data Value : Type 0 where
  text : List ℕ → Value
  number : ℤ → Value
  boolean : Bool → Value

abbrev pub Member : Type 0
Member = List ℕ × Value

-- The JSON library: whether it finds memory for a document, and for a member of an object; and the text
-- of an object, if there is memory for it.
pub record Json : Type 0 where
  pub document : Bool
  pub adds : Member → Bool
  pub write : List Member → Option (List ℕ)

-- ADD_STRING: a missing string is no member, and one that finds no memory ends the function.
unfoldable pub add_string : Json → List ℕ → Option (List ℕ) → List Member → Option (List Member)
add_string json key none members = some members
add_string json key (some value) members =
    if json.adds (key, text value) then some (members ++ (key, text value) ∷ []) else none

-- The results of the other calls are not looked at.
unfoldable pub add_member : Json → List ℕ → Value → List Member → List Member
add_member json key value members =
    if json.adds (key, value) then members ++ (key, value) ∷ [] else members

unfoldable pub add_border : Json → BlockState → Border → List Member → List Member
add_border json s side members =
    if not (int_eq (s.border_width side) (pos 0))
    then add_member json (border_name side) (number (s.border_width side)) members
    else members

unfoldable pub add_min_width : Json → BlockState → List Member → Option (List Member)
add_min_width json s members =
    if not s.min_width_present
    then some members
    else if s.min_width_is_string
    then add_string json min_width_name s.min_width_string members
    else some (add_member json min_width_name (number s.min_width_integer) members)

abbrev pub then_add :
    Option (List Member) → (List Member → Option (List Member)) → Option (List Member)
then_add none f = none
then_add (some members) f = f members

abbrev pub name_key : List ℕ
name_key = b'n' ∷ b'a' ∷ b'm' ∷ b'e' ∷ []

abbrev pub instance_key : List ℕ
instance_key = b'i' ∷ b'n' ∷ b's' ∷ b't' ∷ b'a' ∷ b'n' ∷ b'c' ∷ b'e' ∷ []

abbrev pub separator_key : List ℕ
separator_key = b's' ∷ b'e' ∷ b'p' ∷ b'a' ∷ b'r' ∷ b'a' ∷ b't' ∷ b'o' ∷ b'r' ∷ []

abbrev pub separator_width_key : List ℕ
separator_width_key =
    separator_key
    ++ b'_' ∷ b'b' ∷ b'l' ∷ b'o' ∷ b'c' ∷ b'k' ∷ b'_' ∷ b'w' ∷ b'i' ∷ b'd' ∷ b't' ∷ b'h' ∷ []

abbrev pub add_text : Json → BlockState → TextField → List Member → Option (List Member)
add_text json s field members = add_string json (field_name field) (s.text field) members

abbrev pub add_borders : Json → BlockState → List Member → List Member
add_borders json s members = add_border json s border_left (
    add_border json s border_bottom
      (add_border json s border_right (add_border json s border_top members)))

abbrev pub add_urgent : Json → BlockState → List Member → List Member
add_urgent json s members =
    if s.urgent then add_member json urgent_name (boolean true) members else members

abbrev pub add_separators : Json → List Member → List Member
add_separators json members =
    add_member json separator_width_key (number (pos 9))
      (add_member json separator_key (boolean false) members)

-- The members of the object of an item.
unfoldable pub object : Json → List ℕ → List ℕ → BlockState → Option (List Member)
object json name instance s =
    let texts =
      then_add
        (then_add
          (then_add
            (then_add (then_add (some []) (add_text json s full_text)) (add_text json s short_text))
            (add_text json s color))
          (add_text json s background))
        (add_text json s border) in
    let sized = then_add texts (λ members. add_min_width json s (add_borders json s members)) in
    let aligned = then_add sized (add_text json s align) in
    let marked = then_add aligned (λ members. add_text json s markup (add_urgent json s members)) in
    let named =
      then_add (then_add marked (add_string json name_key (some name)))
        (add_string json instance_key (some instance)) in
    then_add named (λ members. some (add_separators json members))

abbrev pub max_block_json : ℕ
max_block_json = 7168

-- The text goes to the buffer if it is not too long; `realloc` answers for the buffer.
unfoldable pub keep_fragment : (ℕ → Bool) → Option (List ℕ) → Buffer → Bool × Buffer
keep_fragment realloc none fragment = (false, fragment)
keep_fragment realloc (some json_text) fragment =
    if ltb max_block_json (length json_text)
    then (false, fragment)
    else append realloc (clear fragment) json_text max_block_json

abbrev pub written : Json → Option (List Member) → Option (List ℕ)
written json none = none
written json (some members) = json.write members

unfoldable pub serialize_block :
    Json → (ℕ → Bool) → List ℕ → List ℕ → BlockState → Buffer → Bool × Buffer
serialize_block json realloc name instance s fragment =
    if not json.document
    then (false, fragment)
    else keep_fragment realloc (written json (object json name instance s)) fragment

-- What the allocations answer.
pub record Memory : Type 0 where
  pub calloc : Bool
  pub copies : Copy → Bool
  pub json : Json
  pub realloc : ℕ → Bool

abbrev pub max_item_id : ℕ
max_item_id = 255

abbrev pub present : {A : Type 0} → Option A → Bool
present none = false
present (some a) = true

-- The fragment of a new item, empty if the item does not show.
unfoldable pub make_fragment :
    Memory → Block Content → Bool → ℕ → Option (List ℕ) → BlockState → Result Buffer
make_fragment m b list_mode position id s =
    let instance = format_instance b list_mode id position in
    let (serialized, fragment) = serialize_block m.json m.realloc b.name instance s empty in
    if not s.visible then ok empty else if serialized then ok fragment else err too_long

unfoldable pub materialize_item :
    Memory → Block Content → Bool → ℕ → StateView → Result (Item Content)
materialize_item m b list_mode position v = do
  fail_if
      (present v.id
        && (length (bytes_of v.id) == 0 || not (valid_text (bytes_of v.id) max_item_id)))
      invalid_id
  s ← materialize_state m.copies v
  fail_if (present v.id && not (m.copies id_copy)) no_memory
  fragment ← make_fragment m b list_mode position v.id s
  ok (record { id = v.id; content = some (record { state = s; fragment = fragment }) })

pub record ItemText : Type 0 where
  pub full : List ℕ
  pub short : Option (List ℕ)
  pub colour : Option (List ℕ)
  pub pango : Bool
  pub urgent : Bool

unfoldable pub set_text_view : StateView → TextField → Option (List ℕ) → StateView
set_text_view v field none = v
set_text_view v field (some value) = set_text v field value

-- The view that put_item fills.
unfoldable pub item_view : List ℕ → ItemText → StateView
item_view id t =
    let v = record empty_view { id = some id } in
    let v = set_text_view v full_text (some t.full) in
    let v = set_text_view v short_text t.short in
    let v = set_text_view v color t.colour in
    let v = set_text_view v markup (if t.pango then some pango_text else none) in
    record v { urgent = t.urgent }

-- The array is allocated at the first call, its items zeroed.
abbrev pub opened : Block Content → Block Content
opened b = record b {
  items = if b.allocated then b.items else λ i. zero_item;
  allocated = true;
  list_mode = true;
}

abbrev pub content_matches : Option Content → StateView → Bool
content_matches none v = false
content_matches (some content) v = state_matches_view content.state v

unfoldable pub place_made :
    Block Content → Bool → ℕ → Result (Item Content) → PutResult × Block Content
place_made b found position (ok item) = place_item b found position item
place_made b found position (err e) = (put_failed, b)

-- put_item from the answer of find_item on.
unfoldable pub put_at : Memory → Block Content → StateView → Bool → ℕ → PutResult × Block Content
put_at m b v found position =
    let made = materialize_item m b true position v in
    if found && content_matches (b.items position).content v
    then (put_unchanged, b)
    else if not found && (b.item_count == b.max_items && position == b.item_count)
    then (put_full, b)
    else place_made b found position made

unfoldable pub put_item : Memory → Block Content → List ℕ → ItemText → PutResult × Block Content
put_item m b id t =
    let b' = opened b in
    let (found, position) = find_item (ids_of b') b'.item_count id in
    if not b.allocated && not m.calloc
    then (put_failed, b)
    else put_at m b' (item_view id t) found position
