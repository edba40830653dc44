-- ===== src/Producer/Putting.antt =====
-- What i3sd_block_put_item of src/main.c makes of a block.
use mathlib.Core.Path.{subst}
use i3sd.Common.{
  ℕ, ◌+◌, ◌-◌, ◌<◌, ◌≡◌, ◌≢◌, inl, inr, refl, sym, ap, ◌∙◌, Bool, true, false, not, ◌&&◌, ◌==◌, ltb,
  some, List, Bool-cases, arith,
}
use i3sd.Items.{Item, Block, id_of, ids_of, find_item, place_item}
use i3sd.Items.Search.{Located, find_item-Located}
use i3sd.Items.Placing.{Placed, kept, place_item-Placed}
use i3sd.State.{state_matches_view}
use i3sd.Instance.{Content}
use i3sd.Producer.{
  Memory, materialize_item, ItemText, item_view, opened, content_matches, place_made, put_at,
  put_item,
}
use i3sd.Producer.Outcome.{
  Comes, Holds, IsFilled, Keeps, Put, Result-cases, changed-Put, content_matches-some, evicted-Put,
  item_view-id, item_view-plain, materialize_item-holds, opened-IsFilled, place_item_kept,
}

module _ (m : Memory) (b : Block Content) (id : List ℕ) (t : ItemText)
    (filled : IsFilled (opened b)) where
  module _ (item : Item Content) (named : item.id ≡ some id) (content : Content)
      (stored : item.content ≡ some content)
      (shows_text : state_matches_view content.state (item_view id t) ≡ true) where
    same_name : id_of item ≡ id
    same_name = rw named refl

    placed :
        (found : Bool) (position : ℕ)
        → find_item (ids_of (opened b)) b.item_count id ≡ (found, position)
        → (found ≡ false → position ≡ b.item_count → b.item_count ≢ b.max_items)
        → Placed (opened b) item (found, position) (place_item (opened b) found position item)
    placed found position e guard =
        let at : find_item (ids_of (opened b)) b.item_count (id_of item) ≡ (found, position) =
          ap (find_item (ids_of (opened b)) b.item_count) same_name ∙ e in
        subst (λ r. Placed (opened b) item r (place_item (opened b) r.0 r.1 item)) at
          (place_item-Placed (opened b) item filled.sorted filled.bounded (λ h k.
            guard (sym (ap (λ (r : Bool × ℕ). r.0) at) ∙ h)
              (sym (ap (λ (r : Bool × ℕ). r.1) at) ∙ k)))

    holds :
        (b' : Block Content) (position : ℕ)
        → position < b'.item_count
        → b'.items position ≡ item
        → Holds b' id t
    holds b' position inside here = record {
      position = position;
      inside = inside;
      same_id = ap id_of here ∙ same_name;
      content = content;
      stored = ap (λ (i : Item Content). i.content) here ∙ stored;
      shows_text = shows_text;
    }

    place_found :
        (position : ℕ)
        → find_item (ids_of (opened b)) b.item_count id ≡ (true, position)
        → Put m b id t (place_item (opened b) true position item)
    place_found position e =
        let after = place_item (opened b) true position item in
        let (r, count, dirty, sorted, here, others) =
          placed true position e (λ h. absurd (ground arith)) in
        let same = place_item_kept (opened b) true position item in
        let there : Located (ids_of (opened b)) b.item_count id (true, position) =
          subst (Located (ids_of (opened b)) b.item_count id) e
            (find_item-Located (ids_of (opened b)) b.item_count id filled.sorted) in
        changed-Put m b id t after r (
          record {
            sorted = sorted;
            bounded = rw (count, same.0) filled.bounded;
            unallocated = λ no_array. absurd (ground arith);
          },
          holds after.1 position (rw count there.0) here,
          (λ i inside other. (i, rw count inside, others i (λ at. other (rw at there.1)))),
          (λ i inside. elim (Bool-cases (i == position)) [
            | inl at ↦
                let e' : position ≡ i = ground arith in
                inl (ap (ids_of after.1) (sym e') ∙ ap id_of here ∙ same_name)
            | inr other ↦ inr (i, omega (arith, inside, count), others i (λ at. ground arith))
          ]),
          dirty,
        )

    place_new :
        (position : ℕ)
        → find_item (ids_of (opened b)) b.item_count id ≡ (false, position)
        → (position ≡ b.item_count → b.item_count ≢ b.max_items)
        → Put m b id t (place_item (opened b) false position item)
    place_new position e guard =
        let after = place_item (opened b) false position item in
        let (r, count, dirty, bounded, sorted, here, before, later) =
          placed false position e (λ h. guard) in
        let same = place_item_kept (opened b) false position item in
        let good : IsFilled after.1 = record {
          sorted = sorted;
          bounded = rw same.0 bounded;
          unallocated = λ no_array. absurd (ground arith);
        } in
        let there : Located (ids_of (opened b)) b.item_count id (false, position) =
          subst (Located (ids_of (opened b)) b.item_count id) e
            (find_item-Located (ids_of (opened b)) b.item_count id filled.sorted) in
        let limit = filled.bounded in
        let within : position < after.1.item_count = rw count (ground arith) in
        let keeps : Keeps (opened b) (kept (opened b)) id after.1 = λ i inside other.
          elim (Bool-cases (ltb i position)) [
            | inl first ↦ (i, rw count (omega arith), before i (ground arith))
            | inr rest ↦ (i + 1, rw count (omega arith), later i (ground arith) inside)
          ] in
        let comes : Comes (opened b) b.item_count id after.1 = λ i inside.
          elim (Bool-cases (ltb i position)) [
            | inl first ↦ inr (i, ground (arith, there.0), before i (ground arith))
            | inr rest ↦ elim (Bool-cases (i == position)) [
              | inl at ↦
                  let e' : position ≡ i = ground arith in
                  inl (ap (ids_of after.1) (sym e') ∙ ap id_of here ∙ same_name)
              | inr behind ↦
                  let later_on : position < i = ground arith in
                  let next : i - 1 + 1 ≡ i = omega arith in
                  let low : i - 1 < kept (opened b) = omega (arith, inside, count) in
                  let moved = later (i - 1) (omega arith) low in
                  inr (i - 1, ground arith, rw next at moved)
            ]
          ] in
        elim (Bool-cases (b.item_count == b.max_items)) [
          | inl full ↦ evicted-Put m b id t after (r ∙ rw full refl) (
            good,
            holds after.1 position within here,
            ground arith,
            rw full at keeps,
            comes,
            dirty,
          )
          | inr space ↦
              changed-Put m b id t after (r ∙ rw space refl)
                (good, holds after.1 position within here, rw space at keeps, comes, dirty)
        ]

  place_either :
      (item : Item Content)
      → item.id ≡ some id
      → (content : Content) → item.content ≡ some content
      → state_matches_view content.state (item_view id t) ≡ true
      → (found : Bool) (position : ℕ)
      → find_item (ids_of (opened b)) b.item_count id ≡ (found, position)
      → (found ≡ false → position ≡ b.item_count → b.item_count ≢ b.max_items)
      → Put m b id t (place_item (opened b) found position item)
  place_either item named content stored shows_text true position e guard =
      place_found item named content stored shows_text position e
  place_either item named content stored shows_text false position e guard =
      place_new item named content stored shows_text position e (guard refl)

  place_made-Put :
      (found : Bool) (position : ℕ)
      → find_item (ids_of (opened b)) b.item_count id ≡ (found, position)
      → (found ≡ false → position ≡ b.item_count → b.item_count ≢ b.max_items)
      → Put m b id t (
          place_made
            (opened b)
            found
            position
            (materialize_item m (opened b) true position (item_view id t)))
  unfolding place_made
  place_made-Put found position e guard =
      elim (Result-cases (materialize_item m (opened b) true position (item_view id t))) [
        | inr (error, failed) ↦ rw failed (inr (refl, (position, error, failed)))
        | inl (item, made) ↦
            let (named, (content, stored, shows_text)) =
              materialize_item-holds m (opened b) position (item_view id t) item
                (item_view-plain id t) made in
            rw made (
              place_either item (named ∙ item_view-id id t) content stored shows_text found position
                e guard)
      ]

  put_at-Put :
      (found : Bool) (position : ℕ)
      → find_item (ids_of (opened b)) b.item_count id ≡ (found, position)
      → Put m b id t (put_at m (opened b) (item_view id t) found position)
  unfolding put_at
  put_at-Put true position e =
      elim (Bool-cases (content_matches ((opened b).items position).content (item_view id t))) [
        | inl same ↦
            let there : Located (ids_of (opened b)) b.item_count id (true, position) =
              subst (Located (ids_of (opened b)) b.item_count id) e
                (find_item-Located (ids_of (opened b)) b.item_count id filled.sorted) in
            let (content, stored, shows_text) =
              content_matches-some ((opened b).items position).content (item_view id t) same in
            rw same (
              refl,
              record {
                position = position;
                inside = there.0;
                same_id = there.1;
                content = content;
                stored = stored;
                shows_text = shows_text;
              },
            )
        | inr other ↦ rw other (place_made-Put true position e (λ h. absurd (ground arith)))
      ]
  put_at-Put false position e =
      elim (Bool-cases (b.item_count == b.max_items && position == b.item_count)) [
        | inl full ↦
            let there : Located (ids_of (opened b)) b.item_count id (false, position) =
              subst (Located (ids_of (opened b)) b.item_count id) e
                (find_item-Located (ids_of (opened b)) b.item_count id filled.sorted) in
            rw full (refl, ground arith, λ i inside. there.1 i (ground arith))
        | inr space ↦
            rw space (place_made-Put false position e (λ h last all. absurd (ground arith)))
      ]

pub put_item-Put :
    (m : Memory) (b : Block Content) (id : List ℕ) (t : ItemText)
    → IsFilled b
    → Put m b id t (put_item m b id t)
unfolding put_item
put_item-Put m b id t filled = elim (Bool-cases (not b.allocated && not m.calloc)) [
  | inl failed ↦ rw failed (inl (refl, ground arith, ground arith))
  | inr allocated ↦ rw allocated (
      put_at-Put m b id t (opened-IsFilled b filled)
        (find_item (ids_of (opened b)) b.item_count id).0
        (find_item (ids_of (opened b)) b.item_count id).1 refl)
]
