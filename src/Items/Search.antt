-- ===== src/Items/Search.antt =====
-- find_item of src/main.c: the binary search over items that are sorted by id.
use Prim.Native.Nat.{Ordering}
use mathlib.Core.Path.{subst}
use i3sd.Common.{
  ℕ, zero, suc, ◌+◌, ◌-◌, ◌/◌, ◌≤◌, ◌<◌, ◌≡◌, ◌⊎◌, inl, inr, refl, Bool, true, false, ltb, List,
  Bool-cases, arith,
}
use i3sd.Items.{compare_item_ids, find_between, find_item}
use i3sd.Items.Compare.{Less, Less-trans, Compares, compare_item_ids-Compares}

-- Each of the first `n` ids is less than the next ones.
abbrev pub Sorted : (ℕ → List ℕ) → ℕ → Type 0
Sorted ids n = (i j : ℕ) → i < j → j < n → Less (ids i) (ids j)

-- The id stands at the position; or no item has it, and the position is between the items with smaller
-- ids and those with greater ones.
abbrev pub Located : (ℕ → List ℕ) → ℕ → List ℕ → Bool × ℕ → Type 0
Located ids n id (true, p) = (p < n) × (ids p ≡ id)
Located ids n id (false, p) =
    (p ≤ n) × ((i : ℕ) → i < p → Less (ids i) id) × ((i : ℕ) → p ≤ i → i < n → Less id (ids i))

Ordering-cases : (o : Ordering) → (o ≡ Ordering.lt) ⊎ ((o ≡ Ordering.eq) ⊎ (o ≡ Ordering.gt))
Ordering-cases Ordering.lt = inl refl
Ordering-cases Ordering.eq = inr (inl refl)
Ordering-cases Ordering.gt = inr (inr refl)

Compares-lt : (xs ys : List ℕ) → compare_item_ids xs ys ≡ Ordering.lt → Less xs ys
unfolding Compares
Compares-lt xs ys e = subst (Compares xs ys) e (compare_item_ids-Compares xs ys)

pub Compares-eq : (xs ys : List ℕ) → compare_item_ids xs ys ≡ Ordering.eq → xs ≡ ys
unfolding Compares
Compares-eq xs ys e = subst (Compares xs ys) e (compare_item_ids-Compares xs ys)

Compares-gt : (xs ys : List ℕ) → compare_item_ids xs ys ≡ Ordering.gt → Less ys xs
unfolding Compares
Compares-gt xs ys e = subst (Compares xs ys) e (compare_item_ids-Compares xs ys)

-- The rounds of the loop.
module _ (ids : ℕ → List ℕ) (id : List ℕ) where
  find_between-none : (low high : ℕ) → find_between zero ids id low high ≡ (false, low)
  unfolding find_between
  find_between-none low high = refl

  find_between-met :
      (fuel low high : ℕ)
      → ltb low high ≡ false
      → find_between (suc fuel) ids id low high ≡ (false, low)
  unfolding find_between
  find_between-met fuel low high e = rw e refl

  find_between-less :
      (fuel low high : ℕ)
      → ltb low high ≡ true
      → compare_item_ids (ids (low + (high - low) / 2)) id ≡ Ordering.lt
      → find_between (suc fuel) ids id low high
        ≡ find_between fuel ids id (low + (high - low) / 2 + 1) high
  unfolding find_between
  find_between-less fuel low high e c = ground arith

  find_between-equal :
      (fuel low high : ℕ)
      → ltb low high ≡ true
      → compare_item_ids (ids (low + (high - low) / 2)) id ≡ Ordering.eq
      → find_between (suc fuel) ids id low high ≡ (true, low + (high - low) / 2)
  unfolding find_between
  find_between-equal fuel low high e c = ground arith

  find_between-greater :
      (fuel low high : ℕ)
      → ltb low high ≡ true
      → compare_item_ids (ids (low + (high - low) / 2)) id ≡ Ordering.gt
      → find_between (suc fuel) ids id low high
        ≡ find_between fuel ids id low (low + (high - low) / 2)
  unfolding find_between
  find_between-greater fuel low high e c = ground arith

module _ (ids : ℕ → List ℕ) (n : ℕ) (id : List ℕ) (sorted : Sorted ids n) where
  left_of : (m i : ℕ) → m < n → Less (ids m) id → i < m + 1 → Less (ids i) id
  left_of m i p l q = elim (Bool-cases (ltb i m)) [
    | inl below ↦ Less-trans (ids i) (ids m) id (sorted i m (ground arith) p) l
    | inr last ↦ let e : i ≡ m = ground arith in rw e l
  ]

  right_of : (m i : ℕ) → i < n → Less id (ids m) → m ≤ i → Less id (ids i)
  right_of m i p l q = elim (Bool-cases (ltb m i)) [
    | inl above ↦ Less-trans id (ids m) (ids i) l (sorted m i (ground arith) p)
    | inr first ↦ let e : i ≡ m = ground arith in rw e l
  ]

  -- No id is left between the two ends.
  ends-Located :
      (low high : ℕ)
      → low ≤ high
      → high ≤ low
      → high ≤ n
      → ((i : ℕ) → i < low → Less (ids i) id)
      → ((i : ℕ) → high ≤ i → i < n → Less id (ids i))
      → Located ids n id (false, low)
  ends-Located low high order met bound below above =
      (omega arith, below, λ i p q. above i (omega arith) q)

  find_between-Located :
      (fuel low high : ℕ)
      → low ≤ high
      → high ≤ n
      → high ≤ low + fuel
      → ((i : ℕ) → i < low → Less (ids i) id)
      → ((i : ℕ) → high ≤ i → i < n → Less id (ids i))
      → Located ids n id (find_between fuel ids id low high)
  find_between-Located zero low high order bound short below above =
      rw (find_between-none ids id low high)
        (ends-Located low high order (omega arith) bound below above)
  find_between-Located (suc fuel) low high order bound short below above =
      let middle = low + (high - low) / 2 in
      elim (Bool-cases (ltb low high)) [
        | inr met ↦
            rw (find_between-met ids id fuel low high met)
              (ends-Located low high order (ground arith) bound below above)
        | inl open_yet ↦
            let some_left : low < high = ground arith in
            elim (Ordering-cases (compare_item_ids (ids middle) id)) [
              | inl e ↦ rw (find_between-less ids id fuel low high open_yet e) (
                  find_between-Located fuel (middle + 1) high (omega arith) bound (omega arith)
                    (λ i q. left_of middle i (omega arith) (Compares-lt (ids middle) id e) q) above)
              | inr (inl e) ↦
                  rw (find_between-equal ids id fuel low high open_yet e)
                    (omega arith, Compares-eq (ids middle) id e)
              | inr (inr e) ↦ rw (find_between-greater ids id fuel low high open_yet e) (
                  find_between-Located fuel low middle (omega arith) (omega arith) (omega arith)
                    below (λ i q r. right_of middle i r (Compares-gt (ids middle) id e) q))
            ]
      ]

  -- Over items sorted by id the binary search ends at the item with the id; or, where no item has it, at
  -- the position that keeps the order, with all smaller ids before it and all greater ones from it on.
  pub find_item-Located : Located ids n id (find_item ids n id)
  unfolding find_item
  find_item-Located =
      find_between-Located n 0 n (omega arith) (omega arith) (omega arith) (λ i p. elim p [ ])
        (λ i p q. absurd (omega arith))
