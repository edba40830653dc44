-- ===== src/Items/Placing.antt =====
-- The array part of put_item of src/main.c on an array of items sorted by id.
use mathlib.Core.Path.{subst}
use i3sd.Common.{
  ℕ, ◌+◌, ◌-◌, ◌≤◌, ◌<◌, ◌≡◌, ◌≢◌, inl, inr, refl, sym, ap, ◌∙◌, Bool, true, false, ◌&&◌, ltb, leb,
  ◌==◌, if◌then◌else◌, write, List, Bool-cases, arith,
}
use i3sd.Items.{
  id_of, Item, Block, ids_of, memmove, PutResult, put_changed, put_evicted, place_item, find_item,
}
use i3sd.Items.Compare.{Less}
use i3sd.Items.Search.{Sorted, Located, find_item-Located}

-- How many items stay when one is added.
abbrev pub kept : {A : Type 0} → Block A → ℕ
kept b = if b.item_count == b.max_items then b.item_count - 1 else b.item_count

-- The block with the item placed at a position where it was not found.
abbrev pub with_item : {A : Type 0} → Block A → ℕ → Item A → Block A
with_item b position item = (place_item b false position item).1

module _ {A : Type 0} (b : Block A) (position : ℕ) (item : Item A) (room : position ≤ kept b) where
  placed_count : (with_item b position item).item_count ≡ kept b + 1
  unfolding place_item
  placed_count = refl

  placed_before : (i : ℕ) → i < position → (with_item b position item).items i ≡ b.items i
  unfolding place_item memmove
  placed_before i p = ground arith

  placed_here : (with_item b position item).items position ≡ item
  unfolding place_item memmove
  placed_here = ground arith

  placed_after :
      (i : ℕ) → position ≤ i → i < kept b → (with_item b position item).items (i + 1) ≡ b.items i
  unfolding place_item memmove
  placed_after i p q =
      let back : i + 1 + position - (position + 1) ≡ i = omega arith in
      let moved : (leb (position + 1) (i + 1) && ltb (i + 1) (position + 1 + (kept b - position)))
          ≡ true =
        ground arith in
      let other : (position == i + 1) ≡ false = ground arith in
      rw (other, moved, back) (ground arith)

  module _ (sorted : Sorted (ids_of b) (kept b))
      (below : (i : ℕ) → i < position → Less (ids_of b i) (id_of item))
      (above : (i : ℕ) → position ≤ i → i < kept b → Less (id_of item) (ids_of b i)) where
    id_before : (i : ℕ) → i < position → ids_of (with_item b position item) i ≡ ids_of b i
    id_before i p = ap id_of (placed_before i p)

    id_here : (i : ℕ) → i ≡ position → ids_of (with_item b position item) i ≡ (id_of item)
    id_here i e = rw e (ap id_of placed_here)

    id_after :
        (i : ℕ)
        → position < i
        → i < kept b + 1
        → ids_of (with_item b position item) i ≡ ids_of b (i - 1)
    id_after i p q =
        let next : i - 1 + 1 ≡ i = omega arith in
        subst (λ k. ids_of (with_item b position item) k ≡ ids_of b (i - 1)) next
          (ap id_of (placed_after (i - 1) (omega arith) (omega arith)))

    placed-Less :
        (i j : ℕ) {x y : List ℕ}
        → ids_of (with_item b position item) i ≡ x
        → ids_of (with_item b position item) j ≡ y
        → Less x y
        → Less (ids_of (with_item b position item) i) (ids_of (with_item b position item) j)
    placed-Less i j {x = x} {y = y} e d l =
        subst (λ z. Less z (ids_of (with_item b position item) j)) (sym e)
          (subst (Less x) (sym d) l)

    placed-Sorted : Sorted (ids_of (with_item b position item)) (kept b + 1)
    placed-Sorted i j p q = elim (Bool-cases (ltb i position)) [
      | inl before ↦ elim (Bool-cases (ltb j position)) [
        | inl both ↦
            placed-Less i j (id_before i (ground arith)) (id_before j (ground arith))
              (sorted i j p (ground arith))
        | inr later ↦ elim (Bool-cases (j == position)) [
          | inl e ↦
              placed-Less i j (id_before i (ground arith)) (id_here j (ground arith))
                (below i (ground arith))
          | inr after ↦
              placed-Less i j (id_before i (ground arith)) (id_after j (ground arith) q)
                (sorted i (j - 1) (ground arith) (ground arith))
        ]
      ]
      | inr here ↦ elim (Bool-cases (i == position)) [
        | inl e ↦
            placed-Less i j (id_here i (ground arith)) (id_after j (ground arith) q)
              (above (j - 1) (ground arith) (ground arith))
        | inr after ↦
            placed-Less i j (id_after i (ground arith) (omega arith)) (id_after j (ground arith) q)
              (sorted (i - 1) (j - 1) (ground arith) (ground arith))
      ]
    ]

-- What becomes of the block for what find_item answered. A found item is replaced, all others unchanged;
-- else the new item stands at the position, the items before it unchanged and the later ones one further,
-- but the last one of a full block is dropped. The ids stay sorted, within the limit, and a live block
-- asks for a frame.
abbrev pub Placed : {A : Type 0} → Block A → Item A → Bool × ℕ → PutResult × Block A → Type 0
Placed b item (true, p) (r, b') =
    (r ≡ put_changed)
    × (b'.item_count ≡ b.item_count)
    × (b'.render_dirty ≡ (if b.live then true else b.render_dirty))
    × Sorted (ids_of b') b'.item_count
    × (b'.items p ≡ item)
    × ((i : ℕ) → i ≢ p → b'.items i ≡ b.items i)
Placed b item (false, p) (r, b') =
    (r ≡ (if b.item_count == b.max_items then put_evicted else put_changed))
    × (b'.item_count ≡ kept b + 1)
    × (b'.render_dirty ≡ (if b.live then true else b.render_dirty))
    × (b'.item_count ≤ b.max_items)
    × Sorted (ids_of b') b'.item_count
    × (b'.items p ≡ item)
    × ((i : ℕ) → i < p → b'.items i ≡ b.items i)
    × ((i : ℕ) → p ≤ i → i < kept b → b'.items (i + 1) ≡ b.items i)

module _ {A : Type 0} (b : Block A) (item : Item A) (p : ℕ)
    (sorted : Sorted (ids_of b) b.item_count) where
  same_ids : ids_of b p ≡ (id_of item) → (i : ℕ) → id_of (write b.items p item i) ≡ ids_of b i
  same_ids e i = elim (Bool-cases (p == i)) [
    | inl here ↦ let at : p ≡ i = ground arith in rw here (sym e ∙ ap (ids_of b) at)
    | inr other ↦ rw other refl
  ]

  replace-Placed :
      p < b.item_count
      → ids_of b p ≡ (id_of item)
      → Placed b item (true, p) (place_item b true p item)
  unfolding place_item
  replace-Placed inside e = (
    refl,
    refl,
    refl,
    (λ i j q r.
        subst (λ z. Less z (id_of (write b.items p item j))) (sym (same_ids e i))
          (subst (Less (ids_of b i)) (sym (same_ids e j)) (sorted i j q r))),
    ground arith,
    λ i d. ground arith,
  )

  place_result :
      (place_item b false p item).0
      ≡ (if b.item_count == b.max_items then put_evicted else put_changed)
  unfolding place_item
  place_result = refl

  place_dirty :
      (place_item b false p item).1.render_dirty ≡ (if b.live then true else b.render_dirty)
  unfolding place_item
  place_dirty = refl

  pub insert-Placed :
      b.item_count ≤ b.max_items
      → (p ≡ b.item_count → b.item_count ≢ b.max_items)
      → Located (ids_of b) b.item_count (id_of item) (false, p)
      → Placed b item (false, p) (place_item b false p item)
  insert-Placed bounded guard (within, below, above) =
      let room : p ≤ kept b = ground (arith, guard) in
      let smaller : kept b ≤ b.item_count = ground arith in
      let count = placed_count b p item room in
      (
        place_result,
        count,
        place_dirty,
        ground (arith, count, guard),
        rw count (
            placed-Sorted b p item room (λ i j q r. sorted i j q (omega arith)) below
              (λ i q r. above i q (omega arith))),
        placed_here b p item room,
        placed_before b p item room,
        placed_after b p item room,
      )

place_located :
    {A : Type 0} (b : Block A) (item : Item A) (r : Bool × ℕ)
    → Sorted (ids_of b) b.item_count
    → b.item_count ≤ b.max_items
    → (r.0 ≡ false → r.1 ≡ b.item_count → b.item_count ≢ b.max_items)
    → Located (ids_of b) b.item_count (id_of item) r
    → Placed b item r (place_item b r.0 r.1 item)
place_located b item (true, p) sorted bounded guard (inside, same) =
    replace-Placed b item p sorted inside same
place_located b item (false, p) sorted bounded guard located =
    insert-Placed b item p sorted bounded (guard refl) located

-- Items sorted by id within the limit, and a new item at the position that find_item answers for its id,
-- unless it would go after all the items of a full block: it replaces the item with its id, or is
-- inserted so that the ids stay sorted and within the limit, the last item of a full block dropped; all
-- other items are kept in order, and a frame is asked for if the block is live.
pub place_item-Placed :
    {A : Type 0} (b : Block A) (item : Item A)
    → Sorted (ids_of b) b.item_count
    → b.item_count ≤ b.max_items
    → ((find_item (ids_of b) b.item_count (id_of item)).0 ≡ false
        → (find_item (ids_of b) b.item_count (id_of item)).1 ≡ b.item_count
        → b.item_count ≢ b.max_items)
    → Placed b item (find_item (ids_of b) b.item_count (id_of item)) (
        place_item b
          (find_item (ids_of b) b.item_count (id_of item)).0
          (find_item (ids_of b) b.item_count (id_of item)).1
          item)
place_item-Placed b item sorted bounded guard =
    place_located b item (find_item (ids_of b) b.item_count (id_of item)) sorted bounded guard
      (find_item-Located (ids_of b) b.item_count (id_of item) sorted)
