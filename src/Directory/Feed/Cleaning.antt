-- ===== src/Directory/Feed/Cleaning.antt =====
-- After a rescan of src/directory_feed.c every item belongs to a file of the listing.
use mathlib.Core.Path.{subst}
use i3sd.Common.{
  ℕ, zero, suc, ◌+◌, ◌≤◌, ◌<◌, ◌≡◌, inl, inr, sym, ap, ◌∙◌, Bool, true, false, List, [], ltb, ◌==◌,
  Bool-cases, arith,
}
use i3sd.Items.{Block, id_of, ids_of, find_item, remove_item}
use i3sd.Items.Compare.{Less, Less-irreflexive}
use i3sd.Items.Search.{Sorted, Located, find_item-Located}
use i3sd.Items.Arrays.{Removed, remove_item-Removed}
use i3sd.Instance.{Content}
use i3sd.Producer.Outcome.{IsFilled}
use i3sd.Directory.Names.{NameList, name_list_contains, DirEntry, collect}
use i3sd.Directory.Names.Listing.{contains_between-find, Listed}
use i3sd.Directory.Names.Firsts.{Offered, IsDistinct, collect-Firsts}
use i3sd.Directory.Feed.{Feed, World, remove_unlisted, empty_names, rescan_listing}
use i3sd.Directory.Feed.Clean.{IsClean, refresh_all-IsClean, remove_item-IsFilled}

found-Listed :
    (l : NameList) (name : List ℕ) (r : Bool × ℕ)
    → Located l.names l.count name r
    → r.0 ≡ true
    → Listed l name
found-Listed l name (true, p) (inside, same) h = (p, inside, same)
found-Listed l name (false, p) located h = cc

contains-Listed :
    (l : NameList) (name : List ℕ)
    → Sorted l.names l.count
    → name_list_contains l name ≡ true
    → Listed l name
unfolding name_list_contains find_item
contains-Listed l name sorted h =
    found-Listed l name (find_item l.names l.count name)
      (find_item-Located l.names l.count name sorted)
      (sym (contains_between-find l.count l.names name 0 l.count) ∙ h)

-- Two items with one id are one.
same_place :
    (b : Block Content)
    → IsFilled b
    → (i j : ℕ) → i < b.item_count
    → j < b.item_count
    → ids_of b i ≡ ids_of b j
    → i ≡ j
same_place b filled i j p q e = elim (Bool-cases (ltb i j)) [
  | inl first ↦ absurd (
      Less-irreflexive (ids_of b j)
        (subst (λ x. Less x (ids_of b j)) e (filled.sorted i j (ground arith) q)))
  | inr other ↦ elim (Bool-cases (i == j)) [
    | inl same ↦ ground arith
    | inr after ↦ absurd (
        Less-irreflexive (ids_of b j)
          (subst (Less (ids_of b j)) e (filled.sorted j i (ground arith) p)))
  ]
]

-- What is left from `index` on, once the item at `index` is removed, if it is there.
Removed-rest :
    (l : NameList) (b : Block Content) (index : ℕ) (r : Bool × Block Content)
    → IsFilled b
    → ((i : ℕ) → suc index ≤ i → i < b.item_count → Listed l (ids_of b i))
    → Removed b (ids_of b index) r
    → (i : ℕ) → index ≤ i
    → i < r.1.item_count
    → Listed l (ids_of r.1 i)
Removed-rest l b index (false, b') filled rest (same, missing) i p q =
    let same_count : b'.item_count ≡ b.item_count = ap (λ (c : Block Content). c.item_count) same in
    let inside : i < b.item_count = omega arith in
    elim (Bool-cases (i == index)) [
      | inl at ↦ let e : i ≡ index = ground arith in absurd (missing i inside (ap (ids_of b) e))
      | inr above ↦
          subst (λ (c : Block Content). Listed l (ids_of c i)) (sym same)
            (rest i (ground arith) inside)
    ]
Removed-rest l b index (true, b') filled rest
      (at, inside, named, count, dirty, sorted, before, later) i p q =
    let here : at ≡ index = same_place b filled at index inside (omega arith) named in
    let moved = later i (omega arith) q in
    subst (Listed l) (sym (ap id_of moved)) (rest (i + 1) (omega arith) (omega arith))

removed_rest :
    (l : NameList) (b : Block Content) (index : ℕ)
    → IsFilled b
    → ((i : ℕ) → suc index ≤ i → i < b.item_count → Listed l (ids_of b i))
    → (i : ℕ) → index ≤ i
    → i < (remove_item b (ids_of b index)).1.item_count
    → Listed l (ids_of (remove_item b (ids_of b index)).1 i)
removed_rest l b index filled rest =
    Removed-rest l b index (remove_item b (ids_of b index)) filled rest
      (remove_item-Removed b (ids_of b index) filled.sorted)

-- The items from `index` on are listed already.
remove_unlisted-IsClean :
    (l : NameList) (b : Block Content) (index : ℕ)
    → Sorted l.names l.count
    → IsFilled b
    → ((i : ℕ) → index ≤ i → i < b.item_count → Listed l (ids_of b i))
    → IsClean (Listed l) (remove_unlisted l b index)
unfolding remove_unlisted
remove_unlisted-IsClean l b zero sorted filled rest = record {
  filled = filled;
  ids = λ i p. rest i (omega arith) p;
}
remove_unlisted-IsClean l b (suc index) sorted filled rest =
    elim (Bool-cases (name_list_contains l (ids_of b index))) [
      | inl listed ↦ rw listed (
          remove_unlisted-IsClean l b index sorted filled (λ i p q. elim (Bool-cases (i == index)) [
            | inl at ↦
                let e : index ≡ i = ground arith in
                subst (λ k. Listed l (ids_of b k)) e
                  (contains-Listed l (ids_of b index) sorted listed)
            | inr above ↦ rest i (ground arith) q
          ]))
      | inr missing ↦ rw missing (
          remove_unlisted-IsClean l (remove_item b (ids_of b index)).1 index sorted
            (remove_item-IsFilled b (ids_of b index) filled) (removed_rest l b index filled rest))
    ]

-- Whatever the files answer, from items sorted by id and within the limit: after the rescan of a listing
-- without double names the items are so again, and the id of each of them is the name of a file that
-- the listing offers and that may be shown, so that no item of a lost file is left.
pub rescan_listing-IsClean :
    (w : World) (f : Feed) (entries : List DirEntry)
    → IsFilled f.block
    → IsDistinct entries
    → IsClean (Offered entries) (rescan_listing w f entries).block
unfolding rescan_listing
rescan_listing-IsClean w f entries filled distinct =
    let collected = collect (empty_names f) false entries in
    let l = collected.1 in
    let firsts = collect-Firsts (λ i. []) f.block.max_items entries distinct in
    let kept = remove_unlisted l f.block f.block.item_count in
    let f' = record f { overflowed = collected.0; scanning = true; block = kept } in
    let clean = refresh_all-IsClean w l f' 0 l.count (omega arith) (
      remove_unlisted-IsClean l f.block f.block.item_count firsts.sorted filled
        (λ i p q. absurd (omega arith))) in
    record {
      filled = clean.filled;
      ids = λ i p.
          let (j, inside, same) = clean.ids i p in
          subst (Offered entries) same (firsts.seen j inside);
    }
