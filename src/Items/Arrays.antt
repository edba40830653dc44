-- ===== src/Items/Arrays.antt =====
-- remove_item of src/main.c on an array of items sorted by id.
use mathlib.Core.Path.{subst}
use i3sd.Common.{
  ℕ, ◌+◌, ◌-◌, ◌≤◌, ◌<◌, ◌≡◌, ◌≢◌, inl, inr, refl, sym, ap, Bool, true, false, not, ◌&&◌, ltb, leb,
  ◌==◌, if◌then◌else◌, List, Bool-cases, arith,
}
use i3sd.Items.{id_of, Block, ids_of, memmove, remove_at, remove_item, find_item}
use i3sd.Items.Compare.{Less, Less-irreflexive}
use i3sd.Items.Search.{Sorted, Located, find_item-Located}

module _ {A : Type 0} (b : Block A) (position : ℕ) (inside : position < b.item_count) where
  removed_before : (i : ℕ) → i < position → (remove_at b position).items i ≡ b.items i
  unfolding remove_at memmove
  removed_before i p = ground arith

  removed_after :
      (i : ℕ)
      → position ≤ i
      → i < b.item_count - 1
      → (remove_at b position).items i ≡ b.items (i + 1)
  unfolding remove_at memmove
  removed_after i p q =
      let next : i + (position + 1) - position ≡ i + 1 = omega arith in
      let moved : (leb position i && ltb i (position + (b.item_count - 1 - position))) ≡ true =
        ground arith in
      let other : (b.item_count - 1 == i) ≡ false = ground arith in
      let kept : (position == i + 1) ≡ false = ground arith in rw (other, moved, next, kept) refl

  removed_item :
      (i : ℕ)
      → i < b.item_count - 1
      → (remove_at b position).items i ≡ b.items (if ltb i position then i else i + 1)
  removed_item i q = elim (Bool-cases (ltb i position)) [
    | inl before ↦ rw before (removed_before i (ground arith))
    | inr after ↦ rw after (removed_after i (ground arith) q)
  ]

  removed_count : (remove_at b position).item_count ≡ b.item_count - 1
  unfolding remove_at
  removed_count = refl

  removed_dirty : (remove_at b position).render_dirty ≡ (if b.live then true else b.render_dirty)
  unfolding remove_at
  removed_dirty = refl

  removed-Sorted :
      Sorted (ids_of b) b.item_count → Sorted (ids_of (remove_at b position)) (b.item_count - 1)
  removed-Sorted sorted i j p q =
      let lower = ap id_of (removed_item i (omega arith)) in
      let upper = ap id_of (removed_item j q) in
      let old =
        sorted (if ltb i position then i else i + 1) (if ltb j position then j else j + 1)
          (ground arith) (ground arith) in
      subst (λ x. Less x (ids_of (remove_at b position) j)) (sym lower)
        (subst (Less (ids_of b (if ltb i position then i else i + 1))) (sym upper) old)

-- What `remove_item` may return: the item with the id is taken out and the later ones move down by one,
-- in order, and a live block asks for a frame; or no item has the id, and nothing is changed.
abbrev pub Removed : {A : Type 0} → Block A → List ℕ → Bool × Block A → Type 0
Removed b id (true, b') =
    (p : ℕ) × (p < b.item_count)
    × (ids_of b p ≡ id)
    × (b'.item_count + 1 ≡ b.item_count)
    × (b'.render_dirty ≡ (if b.live then true else b.render_dirty))
    × Sorted (ids_of b') b'.item_count
    × ((i : ℕ) → i < p → b'.items i ≡ b.items i)
    × ((i : ℕ) → p ≤ i → i < b'.item_count → b'.items i ≡ b.items (i + 1))
Removed b id (false, b') = (b' ≡ b) × ((i : ℕ) → i < b.item_count → ids_of b i ≢ id)

remove_at-Removed :
    {A : Type 0} (b : Block A) (id : List ℕ) (p : ℕ)
    → Sorted (ids_of b) b.item_count
    → p < b.item_count
    → ids_of b p ≡ id
    → Removed b id (true, remove_at b p)
remove_at-Removed b id p sorted inside same =
    let count = removed_count b p inside in
    (
      p,
      inside,
      same,
      omega (arith, count),
      removed_dirty b p inside,
      rw count (removed-Sorted b p inside sorted),
      removed_before b p inside,
      λ i q r. removed_after b p inside i q (omega (arith, count)),
    )

-- No item has an id that belongs between two others.
missing :
    (ids : ℕ → List ℕ) (n : ℕ) (id : List ℕ) (p : ℕ)
    → Located ids n id (false, p)
    → (i : ℕ) → i < n
    → ids i ≢ id
missing ids n id p (bound, below, above) i q e = elim (Bool-cases (ltb i p)) [
  | inl before ↦ Less-irreflexive id (subst (λ x. Less x id) e (below i (ground arith)))
  | inr after ↦ Less-irreflexive id (subst (λ x. Less id x) e (above i (ground arith) q))
]

result-Removed :
    {A : Type 0} (b : Block A) (id : List ℕ) (r : Bool × ℕ)
    → Sorted (ids_of b) b.item_count
    → Located (ids_of b) b.item_count id r
    → Removed b id (if not r.0 then (false, b) else (true, remove_at b r.1))
result-Removed b id (true, p) sorted (inside, same) = remove_at-Removed b id p sorted inside same
result-Removed b id (false, p) sorted located = (refl, missing (ids_of b) b.item_count id p located)

-- From items sorted by id `remove_item` either takes out the one item with the id, all others kept in
-- their order, and asks for a frame if the block is live, or changes nothing as no item has it.
pub remove_item-Removed :
    {A : Type 0} (b : Block A) (id : List ℕ)
    → Sorted (ids_of b) b.item_count
    → Removed b id (remove_item b id)
unfolding remove_item
remove_item-Removed b id sorted =
    result-Removed b id (find_item (ids_of b) b.item_count id) sorted
      (find_item-Located (ids_of b) b.item_count id sorted)
