-- ===== src/Directory/Names/Collecting.antt =====
-- The loop of src/directory_feed.c over a directory keeps the first names of the listing.
use mathlib.Core.Path.{subst}
use i3sd.Common.{
  ℕ, ◌-◌, ◌≤◌, ◌<◌, ◌≡◌, ◌≢◌, ◌⊎◌, inl, inr, refl, sym, ap, ◌∙◌, Bool, true, false, not, ◌||◌, List,
  ltb, ◌==◌, Bool-cases, arith,
}
use i3sd.Items.{find_item}
use i3sd.Items.Compare.{Less}
use i3sd.Items.Search.{Sorted, Located, find_item-Located, Compares-eq}
use i3sd.Directory.Names.{NameList, place_between, add_name_at, name_list_add}
use i3sd.Directory.Names.Listing.{
  place_between-find, Listed, kept_names, added_count, added_capacity, added_answer, added-Sorted,
  added_from, added_keeps, added_new, added_below,
}

-- The list holds in order the first of the names that `P` says are seen, as many as its capacity
-- allows; the flag says whether one is missing.
pub record Firsts (P : List ℕ → Type 0) (l : NameList) (overflowed : Bool) : Type 0 where
  pub sorted : Sorted l.names l.count
  pub bounded : l.count ≤ l.capacity
  pub seen : (i : ℕ) → i < l.count → P (l.names i)
  pub all :
      (name : List ℕ)
      → P name
      → Listed l name ⊎ ((l.count ≡ l.capacity) × ((i : ℕ) → i < l.count → Less (l.names i) name))
  pub none_missing : overflowed ≡ false → (name : List ℕ) → P name → Listed l name
  pub one_missing :
      overflowed ≡ true
      → (l.count ≡ l.capacity)
        × ((name : List ℕ) × P name × ((i : ℕ) → i < l.count → Less (l.names i) name))

pub Firsts-iff :
    (P Q : List ℕ → Type 0) (l : NameList) (overflowed : Bool)
    → ((name : List ℕ) → P name → Q name)
    → ((name : List ℕ) → Q name → P name)
    → Firsts P l overflowed
    → Firsts Q l overflowed
Firsts-iff P Q l overflowed to from f = record {
  sorted = f.sorted;
  bounded = f.bounded;
  seen = λ i p. to (l.names i) (f.seen i p);
  all = λ name q. f.all name (from name q);
  none_missing = λ e name q. f.none_missing e name (from name q);
  one_missing =
      λ e. let (full, (name, p, above)) = f.one_missing e in (full, (name, to name p, above));
}

or_true : (b : Bool) → (b || true) ≡ true
or_true true = refl
or_true false = refl

module _ (P : List ℕ → Type 0) (l : NameList) (overflowed : Bool) (name : List ℕ)
    (f : Firsts P l overflowed) (new : P name → ⊥) where
  abbrev low : ℕ
  low = place_between l.count l.names name 0 l.count

  low-Located : Located l.names l.count name (false, low)
  unfolding find_item
  low-Located =
      subst (Located l.names l.count name)
        (place_between-find l.count l.names name 0 l.count l.count (omega arith)
          (λ i p same. new (subst P (Compares-eq (l.names i) name same) (f.seen i p))))
        (find_item-Located l.names l.count name f.sorted)

  refused : low ≡ l.capacity → Firsts (λ x. P x ⊎ (x ≡ name)) l true
  refused e =
      let (within, below, above) = low-Located in
      let b = f.bounded in
      let full : l.count ≡ l.capacity = omega arith in
      let all_below : (i : ℕ) → i < l.count → Less (l.names i) name =
        λ i p. below i (omega arith) in
      record {
        sorted = f.sorted;
        bounded = f.bounded;
        seen = λ i p. inl (f.seen i p);
        all = λ x q. elim q [ inl old ↦ f.all x old | inr own ↦ inr (full, rw own all_below) ];
        none_missing = λ e. absurd (ground arith);
        one_missing = λ e. (full, (name, inr refl, all_below));
      }

  refusal : low ≡ l.capacity → add_name_at l name low ≡ (false, l)
  unfolding add_name_at
  refusal e = ground arith

  module _ (other : low ≢ l.capacity) (space : l.count ≢ l.capacity) where
    whole : kept_names l ≡ l.count
    whole = ground arith

    fits : low ≤ kept_names l
    fits = let (within, below, above) = low-Located in omega (arith, whole)

    none_yet : overflowed ≡ false
    none_yet = elim (Bool-cases overflowed) [
      | inl missing ↦ absurd (space (f.one_missing missing).0)
      | inr complete ↦ complete
    ]

    still-Listed : (x : List ℕ) → P x ⊎ (x ≡ name) → Listed (add_name_at l name low).1 x
    still-Listed x (inl old) =
        let (i, p, e) = f.none_missing none_yet x old in
        subst (Listed (add_name_at l name low).1) e (
          added_keeps l name low f.bounded fits other f.sorted low-Located i (omega (arith, whole)))
    still-Listed x (inr own) =
        subst (Listed (add_name_at l name low).1) (sym own)
          (added_new l name low f.bounded fits other f.sorted low-Located)

    inserted_space :
        Firsts
          (λ x. P x ⊎ (x ≡ name))
          (add_name_at l name low).1
          (overflowed || not (add_name_at l name low).0)
    inserted_space =
        let b = f.bounded in
        let answer = added_answer l name low f.bounded fits other in
        let count = added_count l name low f.bounded fits other in
        let capacity = added_capacity l name low f.bounded fits other in
        record {
          sorted = added-Sorted l name low f.bounded fits other f.sorted low-Located;
          bounded = ground (arith, whole);
          seen = λ i p.
              elim (added_from l name low f.bounded fits other f.sorted low-Located i
                (omega (arith, p, count))) [
                  | inl own ↦ inr own
                  | inr (j, q, e) ↦ inl (rw e (f.seen j (omega (arith, whole))))
                ];
          all = λ x q. inl (still-Listed x q);
          none_missing = λ e x q. still-Listed x q;
          one_missing = λ e. absurd (ground (arith, none_yet));
        }

  module _ (other : low ≢ l.capacity) (full : l.count ≡ l.capacity) where
    less_one : kept_names l ≡ l.count - 1
    less_one = ground arith

    some_name : 0 < l.count
    some_name = let (within, below, above) = low-Located in omega arith

    makes_room : low ≤ kept_names l
    makes_room = let (within, below, above) = low-Located in omega (arith, less_one)

    same_count : (add_name_at l name low).1.count ≡ l.count
    same_count =
        omega (arith, added_count l name low f.bounded makes_room other, less_one, some_name)

    last : List ℕ
    last = l.names (l.count - 1)

    below_last :
        (i : ℕ)
        → i < (add_name_at l name low).1.count
        → Less ((add_name_at l name low).1.names i) last
    unfolding last
    below_last i p =
        elim (added_from l name low f.bounded makes_room other f.sorted low-Located i
          (omega (arith, p, same_count, less_one, some_name))) [
            | inl own ↦ rw own (
                low-Located.2 (l.count - 1) (omega (arith, makes_room, less_one))
                  (omega (arith, some_name)))
            | inr (j, q, e) ↦
                rw e (f.sorted j (l.count - 1) (omega (arith, less_one)) (omega (arith, some_name)))
          ]

    still_known :
        (x : List ℕ)
        → P x ⊎ (x ≡ name)
        → Listed (add_name_at l name low).1 x
          ⊎ ((i : ℕ)
              → i < (add_name_at l name low).1.count
              → Less ((add_name_at l name low).1.names i) x)
    unfolding last
    still_known x (inr own) = inl (
        subst (Listed (add_name_at l name low).1) (sym own)
          (added_new l name low f.bounded makes_room other f.sorted low-Located))
    still_known x (inl old) = elim (f.all x old) [
      | inr (all_full, above) ↦ inr (
          added_below l name low f.bounded makes_room other f.sorted low-Located x some_name above
            full)
      | inl (i, p, e) ↦ elim (Bool-cases (ltb i (l.count - 1))) [
        | inl first ↦ inl (
            subst (Listed (add_name_at l name low).1) e (
              added_keeps l name low f.bounded makes_room other f.sorted low-Located i
                (ground (arith, less_one))))
        | inr ends ↦
            let at : l.count - 1 ≡ i = ground arith in
            inr (
              subst
                (λ z.
                  (k : ℕ)
                  → k < (add_name_at l name low).1.count
                  → Less ((add_name_at l name low).1.names k) z)
                (ap l.names at ∙ e) below_last)
      ]
    ]

    inserted_full :
        Firsts
          (λ x. P x ⊎ (x ≡ name))
          (add_name_at l name low).1
          (overflowed || not (add_name_at l name low).0)
    unfolding last
    inserted_full =
        let answer = added_answer l name low f.bounded makes_room other in
        let capacity = added_capacity l name low f.bounded makes_room other in
        let full' : (add_name_at l name low).1.count ≡ (add_name_at l name low).1.capacity =
          same_count ∙ full ∙ sym capacity in
        record {
          sorted = added-Sorted l name low f.bounded makes_room other f.sorted low-Located;
          bounded = omega (arith, full');
          seen = λ i p.
              elim (added_from l name low f.bounded makes_room other f.sorted low-Located i
                (omega (arith, p, same_count, less_one, some_name))) [
                  | inl own ↦ inr own
                  | inr (j, q, e) ↦ inl (rw e (f.seen j (omega (arith, less_one))))
                ];
          all = λ x q. elim (still_known x q) [
            | inl listed ↦ inl listed
            | inr above ↦ inr (full', above)
          ];
          none_missing = λ e. absurd (ground arith);
          one_missing = λ e.
              (full', (last, inl (f.seen (l.count - 1) (omega (arith, some_name))), below_last));
        }

  inserted :
      low ≢ l.capacity
      → Firsts
          (λ x. P x ⊎ (x ≡ name))
          (add_name_at l name low).1
          (overflowed || not (add_name_at l name low).0)
  inserted other =
      let there = low-Located in
      elim (Bool-cases (l.count == l.capacity)) [
        | inl full ↦ inserted_full other (ground arith)
        | inr space ↦ inserted_space other (ground arith)
      ]

  -- What name_list_add makes of the first names: the first names with one more.
  pub name_list_add-Firsts :
      Firsts
        (λ x. P x ⊎ (x ≡ name))
        (name_list_add l name).1
        (overflowed || not (name_list_add l name).0)
  unfolding name_list_add
  name_list_add-Firsts = elim (Bool-cases (low == l.capacity)) [
    | inr other ↦ inserted (ground arith)
    | inl last ↦
        let e : low ≡ l.capacity = ground arith in
        rw (refusal e)
          (subst (Firsts (λ x. P x ⊎ (x ≡ name)) l) (sym (or_true overflowed)) (refused e))
  ]
