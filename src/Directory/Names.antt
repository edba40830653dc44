-- ===== src/Directory/Names.antt =====
-- src/directory_feed.c, the names of a listing: which are shown, and the sorted list of the first ones.
pub mod Listing
pub mod Collecting
pub mod Firsts
pub mod Cutting
use Prim.Native.Nat.{Ordering}
use i3sd.Common.{
  ℕ, zero, suc, ◌+◌, ◌-◌, ◌/◌, Bool, true, false, not, ◌&&◌, ◌||◌, List, [], ◌∷◌, ltb, leb, ◌==◌,
  if◌then◌else◌, length, take, write,
}
use i3sd.Utf8.{valid_utf8}
use i3sd.Items.{compare_item_ids, memmove}

abbrev pub feed_name_max : ℕ
feed_name_max = 255

-- The last byte of a name that is not empty.
abbrev pub last_byte : List ℕ → ℕ
last_byte [] = 0
last_byte (c ∷ []) = c
last_byte (c ∷ d ∷ rest) = last_byte (d ∷ rest)

unfoldable pub feed_name : List ℕ → Bool
feed_name [] = false
feed_name (c ∷ rest) =
    ((leb (length (c ∷ rest)) feed_name_max && not (c == b'.'))
      && not (last_byte (c ∷ rest) == b'~'))
    && valid_utf8 (c ∷ rest)

-- The loop of utf8_prefix, with the rounds that are left.
unfoldable pub prefix_from : ℕ → ℕ → List ℕ → ℕ
prefix_from zero trim text = 0
prefix_from (suc rounds) trim text =
    let rest = prefix_from rounds (trim + 1) text in
    if not (leb trim (length text))
    then 0
    else if valid_utf8 (take (length text - trim) text)
    then length text - trim
    else rest

unfoldable pub utf8_prefix : List ℕ → ℕ
utf8_prefix text = prefix_from 4 0 text

pub record NameList : Type 0 where
  pub names : ℕ → List ℕ
  pub count : ℕ
  pub capacity : ℕ

-- The loop of name_list_add between `low` and `high`.
unfoldable pub place_between : ℕ → (ℕ → List ℕ) → List ℕ → ℕ → ℕ → ℕ
place_between zero names name low high = low
place_between (suc fuel) names name low high =
    let middle = low + (high - low) / 2 in
    let above = place_between fuel names name (middle + 1) high in
    let below = place_between fuel names name low middle in
    if ltb low high
    then elim (compare_item_ids (names middle) name) [
      | Ordering.lt ↦ above
      | Ordering.eq ↦ below
      | Ordering.gt ↦ below
    ]
    else low

-- The rest of name_list_add.
unfoldable pub add_name_at : NameList → List ℕ → ℕ → Bool × NameList
add_name_at l name low =
    let kept = if ltb l.count l.capacity then l.count else l.capacity - 1 in
    if low == l.capacity then (false, l) else (
      not (l.count == l.capacity),
      record l {
        names = write (memmove l.names (low + 1) low (kept - low)) low name;
        count = kept + 1;
      },
    )

unfoldable pub name_list_add : NameList → List ℕ → Bool × NameList
name_list_add l name = add_name_at l name (place_between l.count l.names name 0 l.count)

-- The loop of name_list_contains between `low` and `high`.
unfoldable pub contains_between : ℕ → (ℕ → List ℕ) → List ℕ → ℕ → ℕ → Bool
contains_between zero names name low high = false
contains_between (suc fuel) names name low high =
    let middle = low + (high - low) / 2 in
    let above = contains_between fuel names name (middle + 1) high in
    let below = contains_between fuel names name low middle in
    if ltb low high
    then elim (compare_item_ids (names middle) name) [
      | Ordering.lt ↦ above
      | Ordering.eq ↦ true
      | Ordering.gt ↦ below
    ]
    else false

unfoldable pub name_list_contains : NameList → List ℕ → Bool
name_list_contains l name = contains_between l.count l.names name 0 l.count

-- An entry of a directory: its name, and whether its type may be that of a regular file.
pub record DirEntry : Type 0 where
  pub name : List ℕ
  pub may_be_file : Bool

-- The loop over the entries of the directory: the names, and whether one did not fit.
unfoldable pub collect : NameList → Bool → List DirEntry → Bool × NameList
collect l overflowed [] = (overflowed, l)
collect l overflowed (entry ∷ entries) =
    let wanted = entry.may_be_file && feed_name entry.name in
    let (kept_all, added) = name_list_add l entry.name in
    collect (if wanted then added else l) (overflowed || (wanted && not kept_all)) entries
