-- ===== src/Directory/Names/Listing.antt =====
-- The list of names of src/directory_feed.c holds the first names of a listing in order.
use Prim.Native.Nat.{Ordering}
use i3sd.Common.{
  ℕ, zero, suc, ◌+◌, ◌-◌, ◌/◌, ◌≤◌, ◌<◌, ◌≡◌, ◌≢◌, ◌⊎◌, inl, inr, refl, sym, ap, ◌∙◌, true, false,
  not, ◌&&◌, List, [], none, some, ltb, leb, ◌==◌, if◌then◌else◌, Bool-cases, arith,
}
use i3sd.Items.{compare_item_ids, memmove, find_between, Item, Block, id_of, ids_of, place_item}
use i3sd.Items.Compare.{Less, Less-trans}
use i3sd.Items.Search.{Sorted, Located}
use i3sd.Items.Placing.{Placed, insert-Placed}
use i3sd.Directory.Names.{NameList, place_between, add_name_at, contains_between}

-- Where the name is not in the list, the loop ends where find_item would.
pub place_between-find :
    (fuel : ℕ) (names : ℕ → List ℕ) (name : List ℕ) (low high n : ℕ)
    → high ≤ n
    → ((i : ℕ) → i < n → compare_item_ids (names i) name ≢ Ordering.eq)
    → find_between fuel names name low high ≡ (false, place_between fuel names name low high)
unfolding find_between place_between
place_between-find zero names name low high n bound new = refl
place_between-find (suc fuel) names name low high n bound new =
    let middle = low + (high - low) / 2 in
    let above = place_between-find fuel names name (middle + 1) high n bound new in
    let below = λ (p : middle ≤ n). place_between-find fuel names name low middle n p new in
    elim (Bool-cases (ltb low high)) [
      | inr met ↦ rw (met, find_between, place_between) refl
      | inl open_yet ↦
          let inside : middle < n = ground arith in
          let other = new middle inside in let lower = below (omega arith) in ground arith
    ]

pub contains_between-find :
    (fuel : ℕ) (names : ℕ → List ℕ) (name : List ℕ) (low high : ℕ)
    → contains_between fuel names name low high ≡ (find_between fuel names name low high).0
unfolding find_between contains_between
contains_between-find zero names name low high = refl
contains_between-find (suc fuel) names name low high =
    let middle = low + (high - low) / 2 in
    ground (
      arith,
      contains_between-find fuel names name (middle + 1) high,
      contains_between-find fuel names name low middle,
    )

-- The names of a list are its first `count` ones.
abbrev pub Listed : NameList → List ℕ → Type 0
Listed l name = (i : ℕ) × (i < l.count) × (l.names i ≡ name)

-- The list as a block, to which the lemmas on the insertion of an item apply.
abbrev as_block : NameList → Block ℕ
as_block l = record {
  name = [];
  token = [];
  list_mode = true;
  allocated = true;
  items = λ i. record { id = some (l.names i); content = none };
  item_count = l.count;
  max_items = l.capacity;
  live = false;
  render_dirty = false;
}

abbrev as_item : List ℕ → Item ℕ
as_item name = record { id = some name; content = none }

abbrev pub kept_names : NameList → ℕ
kept_names l = if l.count == l.capacity then l.count - 1 else l.count

module _ (l : NameList) (name : List ℕ) (low : ℕ) (bounded : l.count ≤ l.capacity)
    (room : low ≤ kept_names l) (not_last : low ≢ l.capacity) where
  abbrev pub after : NameList
  after = (add_name_at l name low).1

  pub added_count : after.count ≡ kept_names l + 1
  unfolding add_name_at
  added_count = ground arith

  pub added_capacity : after.capacity ≡ l.capacity
  unfolding add_name_at
  added_capacity = ground arith

  pub added_answer : (add_name_at l name low).0 ≡ not (l.count == l.capacity)
  unfolding add_name_at
  added_answer = ground arith

  same_kept : (if ltb l.count l.capacity then l.count else l.capacity - 1) ≡ kept_names l
  same_kept = ground arith

  added_before : (i : ℕ) → i < low → after.names i ≡ l.names i
  unfolding add_name_at memmove
  added_before i p = ground arith

  added_here : after.names low ≡ name
  unfolding add_name_at
  added_here = ground arith

  added_after : (i : ℕ) → low ≤ i → i < kept_names l → after.names (i + 1) ≡ l.names i
  unfolding add_name_at memmove
  added_after i p q =
      let apart : (low == l.capacity) ≡ false = ground arith in
      let back : i + 1 + low - (low + 1) ≡ i = omega arith in
      let moved : (leb (low + 1) (i + 1) && ltb (i + 1) (low + 1 + (kept_names l - low))) ≡ true =
        ground arith in
      let other : (low == i + 1) ≡ false = ground arith in ground arith

  module _ (sorted : Sorted l.names l.count)
      (there : Located l.names l.count name (false, low)) where
    placed :
        Placed
          (as_block l)
          (as_item name)
          (false, low)
          (place_item (as_block l) false low (as_item name))
    placed =
        insert-Placed (as_block l) (as_item name) low sorted bounded (λ e full. not_last (e ∙ full))
          there

    placed_ids : ℕ → List ℕ
    placed_ids = ids_of (place_item (as_block l) false low (as_item name)).1

    added_same : (i : ℕ) → i < kept_names l + 1 → after.names i ≡ placed_ids i
    unfolding placed_ids
    added_same i p =
        let (r, count, dirty, limit, order, here, before, later) = placed in
        elim (Bool-cases (ltb i low)) [
          | inl first ↦ added_before i (ground arith) ∙ sym (ap id_of (before i (ground arith)))
          | inr rest ↦ elim (Bool-cases (i == low)) [
            | inl at ↦ let e : low ≡ i = ground arith in rw (← e) (added_here ∙ sym (ap id_of here))
            | inr behind ↦
                let next : i - 1 + 1 ≡ i = let later_on : low < i = ground arith in omega arith in
                rw (← next) (
                  added_after (i - 1) (ground arith) (ground arith)
                  ∙ sym (ap id_of (later (i - 1) (ground arith) (ground arith))))
          ]
        ]

    pub added-Sorted : Sorted after.names after.count
    unfolding placed_ids
    added-Sorted i j p q =
        let (r, count, dirty, limit, order, here, before, later) = placed in
        let inside : j < kept_names l + 1 = omega (arith, q, added_count) in
        rw (added_same i (omega arith))
          (rw (added_same j inside) (order i j p (omega (arith, inside, count))))

    -- A name of the new list is the new one or one of the first names of the old list.
    pub added_from :
        (i : ℕ)
        → i < kept_names l + 1
        → (after.names i ≡ name) ⊎ ((j : ℕ) × (j < kept_names l) × (after.names i ≡ l.names j))
    added_from i p = elim (Bool-cases (ltb i low)) [
      | inl first ↦ inr (i, ground arith, added_before i (ground arith))
      | inr rest ↦ elim (Bool-cases (i == low)) [
        | inl at ↦ let e : low ≡ i = ground arith in inl (rw (← e) added_here)
        | inr behind ↦
            let later_on : low < i = ground arith in
            let next : i - 1 + 1 ≡ i = omega arith in
            let moved = added_after (i - 1) (omega arith) (omega arith) in
            inr (i - 1, omega arith, rw next at moved)
      ]
    ]

    -- A first name of the old list is in the new one.
    pub added_keeps : (i : ℕ) → i < kept_names l → Listed after (l.names i)
    added_keeps i p = elim (Bool-cases (ltb i low)) [
      | inl first ↦ (i, omega (arith, added_count), added_before i (ground arith))
      | inr rest ↦ (i + 1, omega (arith, added_count), added_after i (ground arith) p)
    ]

    pub added_new : Listed after name
    added_new = (low, omega (arith, added_count), added_here)

    -- What is greater than all names of the old list is greater than all of the new one.
    pub added_below :
        (x : List ℕ)
        → 0 < l.count
        → ((i : ℕ) → i < l.count → Less (l.names i) x)
        → l.count ≡ l.capacity
        → (i : ℕ) → i < after.count
        → Less (after.names i) x
    added_below x some_name above full i p = elim (added_from i (omega (arith, p, added_count))) [
      | inr (j, q, e) ↦ rw e (above j (ground arith))
      | inl e ↦ rw e (
          Less-trans name (l.names (l.count - 1)) x
            (there.2 (l.count - 1) (ground arith) (omega arith))
            (above (l.count - 1) (omega arith)))
    ]
