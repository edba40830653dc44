-- ===== src/IdSet/Model.antt =====
-- What the set of src/id_set.c promises: a bounded map that keeps the first value of each key.
use i3sd.Common.{
  write, ℕ, zero, suc, ◌≤◌, ◌<◌, ◌≡◌, ◌≢◌, inl, inr, refl, sym, ap, ◌∙◌, true, false, Option, none,
  some, List, [], ◌∷◌, ◌==◌, if◌then◌else◌, length, list_eq, list_eq_sound, list_eq_refl,
  Bool-cases, arith,
}
use i3sd.IdSet.{IdSet, Entry, InsertResult, inserted, duplicate, full, capacity}

abbrev pub Pairs : Type 0
Pairs = List (List ℕ × ℕ)

unfoldable pub lookup : List ℕ → Pairs → Option ℕ
lookup key [] = none
lookup key ((k, v) ∷ m) = if list_eq k key then some v else lookup key m

unfoldable pub put : List ℕ → ℕ → Pairs → InsertResult × Pairs
put key value m = elim (lookup key m) [
  | some _ ↦ (duplicate, m)
  | none ↦ if length m == capacity then (full, m) else (inserted, (key, value) ∷ m)
]

-- The entries, the newest first.
unfoldable pub contents : (ℕ → Entry) → ℕ → Pairs
contents entries zero = []
contents entries (suc n) = ((entries n).key, (entries n).value) ∷ contents entries n

unfoldable pub model : IdSet → Pairs
model s = contents s.entries s.count

pub length-contents : (entries : ℕ → Entry) (n : ℕ) → length (contents entries n) ≡ n
unfolding contents
length-contents entries zero = refl
length-contents entries (suc n) = ap suc (length-contents entries n)

pub contents-write :
    (entries : ℕ → Entry) (i : ℕ) (e : Entry) (n : ℕ)
    → n ≤ i
    → contents (write entries i e) n ≡ contents entries n
unfolding contents
contents-write entries i e zero h = refl
contents-write entries i e (suc n) h =
    let ih = contents-write entries i e n (omega arith) in
    let other : write entries i e n ≡ entries n = ground arith in rw (ih, other)

pub list_eq_no : (xs ys : List ℕ) → xs ≢ ys → list_eq xs ys ≡ false
list_eq_no xs ys h = elim (Bool-cases (list_eq xs ys)) [
  | inl e ↦ absurd (h (list_eq_sound xs ys e))
  | inr e ↦ e
]

pub lookup-absent :
    (entries : ℕ → Entry) (n : ℕ) (key : List ℕ)
    → ((i : ℕ) → i < n → (entries i).key ≢ key)
    → lookup key (contents entries n) ≡ none
unfolding lookup contents
lookup-absent entries zero key h = refl
lookup-absent entries (suc n) key h =
    rw (list_eq_no (entries n).key key (h n (omega arith)))
      (lookup-absent entries n key (λ i p. h i (omega arith)))

not_last :
    (entries : ℕ → Entry) (n i : ℕ) (key : List ℕ)
    → (entries i).key ≡ key
    → list_eq (entries n).key key ≡ false
    → i ≢ n
not_last entries n i key e other last =
    let same : (entries n).key ≡ key = ap (λ k. (entries k).key) (sym last) ∙ e in
    let equal : list_eq (entries n).key key ≡ true = rw same (list_eq_refl key) in cc

pub lookup-held :
    (entries : ℕ → Entry) (n i : ℕ) (key : List ℕ)
    → i < n
    → (entries i).key ≡ key
    → ((j : ℕ) → j < n → (entries i).key ≡ (entries j).key → i ≡ j)
    → lookup key (contents entries n) ≡ some (entries i).value
unfolding lookup contents
lookup-held entries zero i key h e unique = elim h [ ]
lookup-held entries (suc n) i key h e unique = elim (Bool-cases (list_eq (entries n).key key)) [
  | inl same ↦
      let last = unique n (omega arith) (e ∙ sym (list_eq_sound (entries n).key key same)) in
      rw (same, last)
  | inr other ↦
      let old = not_last entries n i key e other in
      rw other
        (lookup-held entries n i key (omega (arith, old)) e (λ j p k. unique j (omega arith) k))
]

pub put-held :
    (key : List ℕ) (value : ℕ) (m : Pairs) {v : ℕ}
    → lookup key m ≡ some v
    → put key value m ≡ (duplicate, m)
unfolding put
put-held key value m h = ground arith

pub put-full :
    (key : List ℕ) (value : ℕ) (m : Pairs)
    → lookup key m ≡ none
    → length m ≡ 256
    → put key value m ≡ (full, m)
unfolding put
put-full key value m h size = ground arith

pub put-room :
    (key : List ℕ) (value : ℕ) (m : Pairs)
    → lookup key m ≡ none
    → length m < 256
    → put key value m ≡ (inserted, (key, value) ∷ m)
unfolding put
put-room key value m h size = ground arith
