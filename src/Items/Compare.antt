-- ===== src/Items/Compare.antt =====
-- The order of item ids in src/main.c is the lexicographic order, which is total.
use Prim.Native.Nat.{Ordering, compare}
use Prim.Native.Nat.compare
use i3sd.Common.{
  ℕ, suc, ◌<◌, ◌≡◌, ◌⊎◌, inl, inr, refl, sym, ◌∙◌, min, List, [], ◌∷◌, length, ltb, Bool-cases,
  arith,
}
use i3sd.Items.{then_by, memcmp, compare_item_ids}

-- A proper prefix is less; else the first byte that differs decides.
unfoldable pub Less : List ℕ → List ℕ → Type 0
Less xs [] = ⊥
Less [] (y ∷ ys) = Unit {0}
Less (x ∷ xs) (y ∷ ys) = (x < y) ⊎ ((x ≡ y) × Less xs ys)

pub Less-trans : (xs ys zs : List ℕ) → Less xs ys → Less ys zs → Less xs zs
unfolding Less
Less-trans [] [] zs p q = elim p [ ]
Less-trans [] (y ∷ ys) [] p q = elim q [ ]
Less-trans (x ∷ xs) [] zs p q = elim p [ ]
Less-trans (x ∷ xs) (y ∷ ys) [] p q = elim q [ ]
Less-trans [] (y ∷ ys) (z ∷ zs) p q = tt
Less-trans (x ∷ xs) (y ∷ ys) (z ∷ zs) (inl p) (inl q) = inl (omega arith)
Less-trans (x ∷ xs) (y ∷ ys) (z ∷ zs) (inl p) (inr (e, q)) = inl (omega arith)
Less-trans (x ∷ xs) (y ∷ ys) (z ∷ zs) (inr (e, p)) (inl q) = inl (omega arith)
Less-trans (x ∷ xs) (y ∷ ys) (z ∷ zs) (inr (e, p)) (inr (d, q)) =
    inr (e ∙ d, Less-trans xs ys zs p q)

pub Less-irreflexive : (xs : List ℕ) → Less xs xs → ⊥
unfolding Less
Less-irreflexive [] p = elim p [ ]
Less-irreflexive (x ∷ xs) (inl p) = absurd (omega arith)
Less-irreflexive (x ∷ xs) (inr (e, p)) = Less-irreflexive xs p

-- What the comparison says of the two ids.
unfoldable pub Compares : List ℕ → List ℕ → Ordering → Type 0
Compares xs ys Ordering.lt = Less xs ys
Compares xs ys Ordering.eq = xs ≡ ys
Compares xs ys Ordering.gt = Less ys xs

ends_together : Compares [] [] (compare_item_ids [] [])
unfolding Compares compare_item_ids memcmp
ends_together = refl

ends_first : (y : ℕ) (ys : List ℕ) → Compares [] (y ∷ ys) (compare_item_ids [] (y ∷ ys))
unfolding Compares compare_item_ids memcmp Less
ends_first y ys =
    let none : min 0 (suc (length ys)) ≡ 0 = omega arith in
    let c : compare 0 (suc (length ys)) ≡ Ordering.lt = ground arith in
    rw (compare_item_ids, none, c) tt

ends_second : (x : ℕ) (xs : List ℕ) → Compares (x ∷ xs) [] (compare_item_ids (x ∷ xs) [])
unfolding Compares compare_item_ids memcmp Less
ends_second x xs =
    let none : min (suc (length xs)) 0 ≡ 0 = omega arith in
    let c : compare (suc (length xs)) 0 ≡ Ordering.gt = ground arith in
    rw (compare_item_ids, none, c) tt

less_first : (x y : ℕ) (xs ys : List ℕ) → x < y → Compares (x ∷ xs) (y ∷ ys) Ordering.lt
unfolding Compares Less
less_first x y xs ys p = inl p

greater_first : (x y : ℕ) (xs ys : List ℕ) → y < x → Compares (x ∷ xs) (y ∷ ys) Ordering.gt
unfolding Compares Less
greater_first x y xs ys p = inl p

Compares-after :
    (x y : ℕ) (xs ys : List ℕ)
    → x ≡ y
    → (o : Ordering) → Compares xs ys o
    → Compares (x ∷ xs) (y ∷ ys) o
unfolding Compares Less
Compares-after x y xs ys e Ordering.lt c = inr (e, c)
Compares-after x y xs ys e Ordering.eq c = cc
Compares-after x y xs ys e Ordering.gt c = inr (sym e, c)

then_by_assoc : (a b c : Ordering) → then_by (then_by a b) c ≡ then_by a (then_by b c)
then_by_assoc Ordering.lt b c = refl
then_by_assoc Ordering.eq b c = refl
then_by_assoc Ordering.gt b c = refl

module _ (x y : ℕ) (xs ys : List ℕ) where
  compare_step : compare_item_ids (x ∷ xs) (y ∷ ys) ≡ then_by (compare x y) (compare_item_ids xs ys)
  unfolding compare_item_ids memcmp
  compare_step =
      let longer : min (suc (length xs)) (suc (length ys)) ≡ suc (min (length xs) (length ys)) =
        omega arith in
      rw (compare_item_ids, longer, compare.suc-suc (length xs) (length ys))
        (then_by_assoc (compare x y) (memcmp (min (length xs) (length ys)) xs ys)
          (compare (length xs) (length ys)))

  first_less : x < y → compare_item_ids (x ∷ xs) (y ∷ ys) ≡ Ordering.lt
  first_less p = let c : compare x y ≡ Ordering.lt = ground arith in compare_step ∙ rw c refl

  first_greater : y < x → compare_item_ids (x ∷ xs) (y ∷ ys) ≡ Ordering.gt
  first_greater p = let c : compare x y ≡ Ordering.gt = ground arith in compare_step ∙ rw c refl

  first_same : x ≡ y → compare_item_ids (x ∷ xs) (y ∷ ys) ≡ compare_item_ids xs ys
  first_same e = let c : compare x y ≡ Ordering.eq = ground arith in compare_step ∙ rw c refl

-- i3sd_compare_item_ids answers less, equal or greater as the first id is less than the second in the
-- lexicographic order of the bytes, the same, or greater.
pub compare_item_ids-Compares : (xs ys : List ℕ) → Compares xs ys (compare_item_ids xs ys)
compare_item_ids-Compares [] [] = ends_together
compare_item_ids-Compares [] (y ∷ ys) = ends_first y ys
compare_item_ids-Compares (x ∷ xs) [] = ends_second x xs
compare_item_ids-Compares (x ∷ xs) (y ∷ ys) = elim (Bool-cases (ltb x y)) [
  | inl less ↦ rw (first_less x y xs ys (ground arith)) (less_first x y xs ys (ground arith))
  | inr more ↦ elim (Bool-cases (ltb y x)) [
    | inl greater ↦
        rw (first_greater x y xs ys (ground arith)) (greater_first x y xs ys (ground arith))
    | inr same ↦
        let e : x ≡ y = ground arith in
        rw (first_same x y xs ys e)
          (Compares-after x y xs ys e (compare_item_ids xs ys) (compare_item_ids-Compares xs ys))
  ]
]
