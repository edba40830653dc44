-- ===== src/Directory/Feed/Clean.antt =====
-- Each step of a rescan of src/directory_feed.c keeps the ids of the items within a set of names.
use mathlib.Core.Path.{subst}
use i3sd.Common.{
  ℕ, zero, suc, ◌+◌, ◌≤◌, ◌<◌, ◌≡◌, inl, inr, refl, sym, ap, ◌∙◌, Bool, true, false, not, ◌&&◌,
  List, ltb, if◌then◌else◌, take, Bool-cases, arith,
}
use i3sd.Items.{
  Block, id_of, ids_of, find_item, remove_item, remove_at, PutResult, put_unchanged, put_changed,
  put_evicted, put_full, put_failed,
}
use i3sd.Items.Arrays.{Removed, remove_item-Removed}
use i3sd.Instance.{Content}
use i3sd.Producer.{Memory, ItemText, opened, put_item}
use i3sd.Producer.Outcome.{IsFilled, opened-IsFilled, Comes, Put}
use i3sd.Producer.Putting.{put_item-Put}
use i3sd.Directory.Names.{NameList}
use i3sd.Directory.Names.Listing.{Listed}
use i3sd.Directory.Lines.{file_text}
use i3sd.Directory.Feed.{
  Feed, FileAnswer, unusable, unreadable, contents, World, put_result, remove_file, use_file,
  refresh_file, refresh_all,
}

-- The items are sorted and within the limit, and `P` holds of each id.
pub record IsClean (P : List ℕ → Type 0) (b : Block Content) : Type 0 where
  pub filled : IsFilled b
  pub ids : (i : ℕ) → i < b.item_count → P (ids_of b i)

Removed-IsFilled :
    (b : Block Content) (id : List ℕ) (r : Bool × Block Content)
    → r.1.max_items ≡ b.max_items
    → (r.1.allocated ≡ b.allocated)
    → IsFilled b
    → Removed b id r
    → IsFilled r.1
Removed-IsFilled b id (true, b') limit allocated filled
      (p, inside, same, count, dirty, sorted, before, later) =
    record {
      sorted = sorted;
      bounded = omega (arith, limit, count, filled.bounded);
      unallocated = λ none_yet.
          let nothing = filled.unallocated (sym allocated ∙ none_yet) in
          omega (arith, nothing, count);
    }
Removed-IsFilled b id (false, b') limit allocated filled (same, missing) = rw same filled

remove_item_kept :
    (b : Block Content) (id : List ℕ)
    → ((remove_item b id).1.max_items ≡ b.max_items)
      × ((remove_item b id).1.allocated ≡ b.allocated)
unfolding remove_item remove_at
remove_item_kept b id = elim (Bool-cases (find_item (ids_of b) b.item_count id).0) [
  | inl found ↦ ground arith
  | inr missing ↦ ground arith
]

pub remove_item-IsFilled :
    (b : Block Content) (id : List ℕ) → IsFilled b → IsFilled (remove_item b id).1
remove_item-IsFilled b id filled =
    let kept = remove_item_kept b id in
    Removed-IsFilled b id (remove_item b id) kept.0 kept.1 filled
      (remove_item-Removed b id filled.sorted)

Removed-ids :
    (P : List ℕ → Type 0) (b : Block Content) (id : List ℕ) (r : Bool × Block Content)
    → Removed b id r
    → ((i : ℕ) → i < b.item_count → P (ids_of b i))
    → (i : ℕ) → i < r.1.item_count
    → P (ids_of r.1 i)
Removed-ids P b id (false, b') (same, missing) ids = rw same ids
Removed-ids P b id (true, b') (p, inside, named, count, dirty, sorted, before, later) ids = λ i q.
    elim (Bool-cases (ltb i p)) [
      | inl first ↦ subst P (sym (ap id_of (before i (ground arith)))) (ids i (ground arith))
      | inr rest ↦
          subst P (sym (ap id_of (later i (ground arith) q)))
            (ids (i + 1) (omega (arith, q, count)))
    ]

remove_item-IsClean :
    (P : List ℕ → Type 0) (b : Block Content) (id : List ℕ)
    → IsClean P b
    → IsClean P (remove_item b id).1
remove_item-IsClean P b id clean = record {
  filled = remove_item-IsFilled b id clean.filled;
  ids =
      Removed-ids P b id (remove_item b id) (remove_item-Removed b id clean.filled.sorted)
        clean.ids;
}

opened-IsClean : (P : List ℕ → Type 0) (b : Block Content) → IsClean P b → IsClean P (opened b)
opened-IsClean P b clean = record {
  filled = opened-IsFilled b clean.filled;
  ids = λ i p. elim (Bool-cases b.allocated) [
    | inl yes_it_is ↦ rw yes_it_is (clean.ids i p)
    | inr none_yet ↦ absurd (omega (arith, p, clean.filled.unallocated none_yet))
  ];
}

Comes-ids :
    (P : List ℕ → Type 0) (b : Block Content) (id : List ℕ) (b' : Block Content)
    → P id
    → IsClean P b
    → Comes (opened b) b.item_count id b'
    → (i : ℕ) → i < b'.item_count
    → P (ids_of b' i)
Comes-ids P b id b' p clean comes i q = elim (comes i q) [
  | inl own ↦ rw own p
  | inr (j, inside, same) ↦ subst P (sym (ap id_of same)) ((opened-IsClean P b clean).ids j inside)
]

Put-IsClean :
    (P : List ℕ → Type 0) (m : Memory) (b : Block Content) (id : List ℕ) (t : ItemText)
    (r : PutResult × Block Content)
    → P id
    → IsClean P b
    → Put m b id t r
    → IsClean P r.1
Put-IsClean P m b id t (put_unchanged, b') p clean (same, holds) =
    rw same (opened-IsClean P b clean)
Put-IsClean P m b id t (put_full, b') p clean (same, full, less) =
    rw same (opened-IsClean P b clean)
Put-IsClean P m b id t (put_failed, b') p clean (inl (same, array, memory)) = rw same clean
Put-IsClean P m b id t (put_failed, b') p clean (inr (same, made)) =
    rw same (opened-IsClean P b clean)
Put-IsClean P m b id t (put_changed, b') p clean (filled, holds, keeps, comes, dirty) = record {
  filled = filled;
  ids = Comes-ids P b id b' p clean comes;
}
Put-IsClean P m b id t (put_evicted, b') p clean (filled, holds, full, keeps, comes, dirty) =
    record { filled = filled; ids = Comes-ids P b id b' p clean comes }

put_item-IsClean :
    (P : List ℕ → Type 0) (m : Memory) (b : Block Content) (id : List ℕ) (t : ItemText)
    → P id
    → IsClean P b
    → IsClean P (put_item m b id t).1
put_item-IsClean P m b id t p clean =
    Put-IsClean P m b id t (put_item m b id t) p clean (put_item-Put m b id t clean.filled)

put_result-block : (f : Feed) (r : PutResult) → (put_result f r).block ≡ f.block
unfolding put_result
put_result-block f put_evicted = refl
put_result-block f put_full = refl
put_result-block f put_unchanged = refl
put_result-block f put_changed = refl
put_result-block f put_failed = refl

use_file-IsClean :
    (P : List ℕ → Type 0) (m : Memory) (f : Feed) (name : List ℕ) (answer : FileAnswer)
    → P name
    → IsClean P f.block
    → IsClean P (use_file (λ same. same) m f name answer).block
unfolding use_file remove_file
use_file-IsClean P m f name unusable p clean =
    let (removed, block) = remove_item f.block name in
    elim (Bool-cases ((removed && f.overflowed) && not f.scanning)) [
      | inl again ↦ rw again (remove_item-IsClean P f.block name clean)
      | inr done ↦ rw done (remove_item-IsClean P f.block name clean)
    ]
use_file-IsClean P m f name unreadable p clean = clean
use_file-IsClean P m f name (contents size bytes) p clean =
    let wanted = if ltb size f.max_bytes then size else f.max_bytes in
    let put = put_item m f.block name (file_text name size (take wanted bytes)) in
    rw (put_result-block (record f { block = put.1 }) put.0)
      (put_item-IsClean P m f.block name (file_text name size (take wanted bytes)) p clean)

pub refresh_all-IsClean :
    (w : World) (l : NameList) (f : Feed) (index left : ℕ)
    → index + left ≤ l.count
    → IsClean (Listed l) f.block
    → IsClean (Listed l) (refresh_all w l f index left).block
unfolding refresh_all refresh_file
refresh_all-IsClean w l f index zero h clean = clean
refresh_all-IsClean w l f index (suc left) h clean =
    refresh_all-IsClean w l
      (use_file (λ same. same) w.memory f (l.names index) (w.file (l.names index))) (index + 1) left
      (omega arith)
      (use_file-IsClean (Listed l) w.memory f (l.names index) (w.file (l.names index))
        (index, omega arith, refl) clean)
