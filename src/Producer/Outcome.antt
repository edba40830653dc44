-- ===== src/Producer/Outcome.antt =====
-- What i3sd_block_put_item of src/main.c may make of a block, and the item that it makes.
use i3sd.Common.{
  ℕ, ◌-◌, ◌≤◌, ◌<◌, ◌≡◌, ◌≢◌, ◌⊎◌, inl, inr, refl, ap, Bool, true, false, if◌then◌else◌, Option,
  none, some, List, Bool-cases, arith,
}
use i3sd.Items.{
  Item, Block, ids_of, PutResult, put_unchanged, put_changed, put_evicted, put_full, put_failed,
  place_item,
}
use i3sd.Items.Compare.{Less}
use i3sd.Items.Search.{Sorted}
use i3sd.State.{StateView, StateError, Result, ok, err, state_matches_view, materialize_state}
use i3sd.State.Making.{materialize_state_parts}
use i3sd.State.Matching.{copied_matches}
use i3sd.Instance.{Content}
use i3sd.Producer.{
  Memory, materialize_item, make_fragment, ItemText, item_view, set_text_view, opened,
  content_matches,
}

-- Items sorted by id, within the limit; an array that is not allocated has none.
pub record IsFilled (b : Block Content) : Type 0 where
  pub sorted : Sorted (ids_of b) b.item_count
  pub bounded : b.item_count ≤ b.max_items
  pub unallocated : b.allocated ≡ false → b.item_count ≡ 0

-- The item with the id shows the text.
pub record Holds (b : Block Content) (id : List ℕ) (t : ItemText) : Type 0 where
  pub position : ℕ
  pub inside : position < b.item_count
  pub same_id : ids_of b position ≡ id
  pub content : Content
  pub stored : (b.items position).content ≡ some content
  pub shows_text : state_matches_view content.state (item_view id t) ≡ true

-- Each of the first `n` items that has another id is an item of the other block too.
abbrev pub Keeps : Block Content → ℕ → List ℕ → Block Content → Type 0
Keeps b n id b' =
    (i : ℕ) → i < n → ids_of b i ≢ id → (j : ℕ) × (j < b'.item_count) × (b'.items j ≡ b.items i)

-- Each item of the other block has the id or is one of the first `n` items.
abbrev pub Comes : Block Content → ℕ → List ℕ → Block Content → Type 0
Comes b n id b' =
    (i : ℕ)
    → i < b'.item_count
    → (ids_of b' i ≡ id) ⊎ ((j : ℕ) × (j < n) × (b'.items i ≡ b.items j))

abbrev pub Put : Memory → Block Content → List ℕ → ItemText → PutResult × Block Content → Type 0
Put m b id t (put_unchanged, b') = (b' ≡ opened b) × Holds b' id t
Put m b id t (put_changed, b') =
    IsFilled b'
    × Holds b' id t
    × Keeps (opened b) b.item_count id b'
    × Comes (opened b) b.item_count id b'
    × (b'.render_dirty ≡ (if b.live then true else b.render_dirty))
Put m b id t (put_evicted, b') =
    IsFilled b'
    × Holds b' id t
    × (b.item_count ≡ b.max_items)
    × Keeps (opened b) (b.item_count - 1) id b'
    × Comes (opened b) b.item_count id b'
    × (b'.render_dirty ≡ (if b.live then true else b.render_dirty))
Put m b id t (put_full, b') =
    (b' ≡ opened b)
    × (b.item_count ≡ b.max_items)
    × ((i : ℕ) → i < b.item_count → Less (ids_of (opened b) i) id)
Put m b id t (put_failed, b') =
    ((b' ≡ b) × (b.allocated ≡ false) × (m.calloc ≡ false))
    ⊎ ((b' ≡ opened b)
        × ((position : ℕ) × (e : StateError) × (materialize_item m (opened b) true position
                (item_view id t)
              ≡ err e)))

pub Result-cases {ℓ} :
    {A : Type ℓ} (r : Result A) → ((a : A) × (r ≡ ok a)) ⊎ ((e : StateError) × (r ≡ err e))
Result-cases (ok a) = inl (a, refl)
Result-cases (err e) = inr (e, refl)

-- What an item that is made holds.
pub materialize_item-holds :
    (m : Memory) (b : Block Content) (position : ℕ) (v : StateView) (item : Item Content)
    → v.min_width_is_string ≡ false
    → materialize_item m b true position v ≡ ok item
    → (item.id ≡ v.id)
      × ((content : Content) × (item.content ≡ some content)
          × (state_matches_view content.state v ≡ true))
unfolding materialize_item
materialize_item-holds m b position v item plain h =
    elim (Result-cases (materialize_state m.copies v)) [
      | inr (e, failed) ↦ absurd (ground arith)
      | inl (s, made) ↦ elim (Result-cases (make_fragment m b true position v.id s)) [
        | inr (e, failed) ↦ absurd (ground arith)
        | inl (fragment, serialized) ↦
            let shape : item
                ≡ record { id = v.id; content = some (record { state = s; fragment = fragment }) } =
              ground arith in
            (
              ap (λ (i : Item Content). i.id) shape,
              (
                record { state = s; fragment = fragment },
                ap (λ (i : Item Content). i.content) shape,
                rw (((materialize_state_parts m.copies v s).0 made).2) (copied_matches v plain),
              ),
            )
      ]
    ]

pub item_view-plain : (id : List ℕ) (t : ItemText) → (item_view id t).min_width_is_string ≡ false
unfolding item_view set_text_view
item_view-plain id t = ground arith

pub item_view-id : (id : List ℕ) (t : ItemText) → (item_view id t).id ≡ some id
unfolding item_view set_text_view
item_view-id id t = ground arith

pub changed-Put :
    (m : Memory) (b : Block Content) (id : List ℕ) (t : ItemText) (x : PutResult × Block Content)
    → x.0 ≡ put_changed
    → Put m b id t (put_changed, x.1)
    → Put m b id t x
changed-Put m b id t (put_changed, b') e h = h
changed-Put m b id t (put_unchanged, b') e h = absurd (ground arith)
changed-Put m b id t (put_evicted, b') e h = absurd (ground arith)
changed-Put m b id t (put_full, b') e h = absurd (ground arith)
changed-Put m b id t (put_failed, b') e h = absurd (ground arith)

pub evicted-Put :
    (m : Memory) (b : Block Content) (id : List ℕ) (t : ItemText) (x : PutResult × Block Content)
    → x.0 ≡ put_evicted
    → Put m b id t (put_evicted, x.1)
    → Put m b id t x
evicted-Put m b id t (put_evicted, b') e h = h
evicted-Put m b id t (put_unchanged, b') e h = absurd (ground arith)
evicted-Put m b id t (put_changed, b') e h = absurd (ground arith)
evicted-Put m b id t (put_full, b') e h = absurd (ground arith)
evicted-Put m b id t (put_failed, b') e h = absurd (ground arith)

pub place_item_kept :
    (b : Block Content) (found : Bool) (position : ℕ) (item : Item Content)
    → ((place_item b found position item).1.max_items ≡ b.max_items)
      × ((place_item b found position item).1.allocated ≡ b.allocated)
unfolding place_item
place_item_kept b true position item = (refl, refl)
place_item_kept b false position item = (refl, refl)

pub content_matches-some :
    (stored : Option Content) (v : StateView)
    → content_matches stored v ≡ true
    → (content : Content) × (stored ≡ some content) × (state_matches_view content.state v ≡ true)
content_matches-some none v h = cc
content_matches-some (some content) v h = (content, refl, h)

pub opened-IsFilled : (b : Block Content) → IsFilled b → IsFilled (opened b)
opened-IsFilled b filled = elim (Bool-cases b.allocated) [
  | inl yes_it_is ↦ record {
    sorted = rw yes_it_is filled.sorted;
    bounded = filled.bounded;
    unallocated = λ no_array. absurd (ground arith);
  }
  | inr none_yet ↦
      let nothing = filled.unallocated none_yet in
      record {
        sorted = λ i j p q. absurd (omega (arith, nothing));
        bounded = filled.bounded;
        unallocated = λ no_array. absurd (ground arith);
      }
]
