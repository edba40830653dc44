-- ===== src/IdSet/Filling.antt =====
-- A set of src/id_set.c that is filled from a list of pairs, as a caller indexes its items.
use i3sd.Common.{
  ℕ, suc, ◌+◌, ◌≤◌, ◌<◌, ◌≡◌, inl, inr, refl, sym, ap, ◌∙◌, Option, none, some, List, [], ◌∷◌,
  if◌then◌else◌, length, list_eq, list_eq_sound, Bool-cases, Option-cases, arith,
}
use i3sd.IdSet.{IdSet, init, insert, find}
use i3sd.IdSet.Invariant.{Table}
use i3sd.IdSet.Adding.{init-Table}
use i3sd.IdSet.Model.{Pairs, lookup, put, model, contents, put-held, put-room}
use i3sd.IdSet.Refinement.{insert-put, find-lookup}

abbrev pub or_else : Option ℕ → Option ℕ → Option ℕ
or_else (some v) other = some v
or_else none other = other

model-init : (s : IdSet) → model (init s) ≡ []
unfolding model init contents
model-init s = refl

or_else-none : (o : Option ℕ) → or_else o none ≡ o
or_else-none none = refl
or_else-none (some v) = refl

-- A first value stands before what was put later, for the same key or another.
or_else_put :
    (k : List ℕ) (v : ℕ) (m : Pairs) (key : List ℕ) {w : ℕ}
    → lookup k m ≡ some w
    → or_else (lookup key m) (if list_eq k key then some v else none) ≡ lookup key m
or_else_put k v m key {w = w} held = elim (Bool-cases (list_eq k key)) [
  | inl same ↦
      let e = list_eq_sound k key same in
      let found : lookup key m ≡ some w = rw (← e) held in rw (same, found) refl
  | inr other ↦ rw other (or_else-none (lookup key m))
]

-- A key that was not held: its own value, or what the map held.
lookup-new :
    (k : List ℕ) (v : ℕ) (m : Pairs) (key : List ℕ)
    → lookup k m ≡ none
    → lookup key ((k, v) ∷ m) ≡ or_else (lookup key m) (if list_eq k key then some v else none)
unfolding lookup
lookup-new k v m key fresh = elim (Bool-cases (list_eq k key)) [
  | inl same ↦
      let e = list_eq_sound k key same in
      let missing : lookup key m ≡ none = rw (← e) fresh in rw (same, missing) refl
  | inr other ↦ rw other (sym (or_else-none (lookup key m)))
]

lookup-put :
    (k : List ℕ) (v : ℕ) (m : Pairs) (key : List ℕ)
    → length m < 256
    → lookup key (put k v m).1 ≡ or_else (lookup key m) (if list_eq k key then some v else none)
lookup-put k v m key room = elim (Option-cases (lookup k m)) [
  | inl fresh ↦ rw (put-room k v m fresh room) (lookup-new k v m key fresh)
  | inr (w, held) ↦ rw (put-held k v m held) (sym (or_else_put k v m key held))
]

length-put : (k : List ℕ) (v : ℕ) (m : Pairs) → length (put k v m).1 ≤ suc (length m)
unfolding put
length-put k v m = ground arith

or_else_assoc : (a b c : Option ℕ) → or_else (or_else a b) c ≡ or_else a (or_else b c)
or_else_assoc (some v) b c = refl
or_else_assoc none b c = refl

-- The pair's own value, or what the rest of the pairs say.
lookup-step :
    (k : List ℕ) (v : ℕ) (pairs : Pairs) (key : List ℕ)
    → or_else (if list_eq k key then some v else none) (lookup key pairs)
      ≡ lookup key ((k, v) ∷ pairs)
unfolding lookup
lookup-step k v pairs key = ground arith

module _ (hash64 : List ℕ → ℕ) where
  -- Each pair is inserted in turn; `none` if an insertion does not end.
  pub fill : IdSet → Pairs → Option IdSet
  fill s [] = some s
  fill s ((k, v) ∷ pairs) = elim (insert hash64 s k v) [ none ↦ none | some (_, t) ↦ fill t pairs ]

  fill-model :
      (pairs : Pairs) (s : IdSet)
      → Table hash64 s
      → length (model s) + length pairs ≤ 256
      → (t : IdSet) × (fill s pairs ≡ some t)
        × Table hash64 t
        × ((key : List ℕ)
            → lookup key (model t) ≡ or_else (lookup key (model s)) (lookup key pairs))
  unfolding fill lookup
  fill-model [] s table room = (s, refl, table, λ key. sym (or_else-none (lookup key (model s))))
  fill-model ((k, v) ∷ pairs) s table room =
      let (t, inserts, keeps, holds) = insert-put hash64 s table k v in
      let small : length (model t) + length pairs ≤ 256 =
        rw holds (omega (arith, length-put k v (model s))) in
      let (u, fills, kept, says) = fill-model pairs t keeps small in
      (
        u,
        ground arith,
        kept,
        λ key.
            says key
            ∙ rw holds (
                rw (lookup-put k v (model s) key (omega arith)) (
                  or_else_assoc (lookup key (model s)) (if list_eq k key then some v else none)
                    (lookup key pairs)
                  ∙ ap (or_else (lookup key (model s))) (lookup-step k v pairs key))),
      )

  -- At most 256 pairs, put one after another into a set that was just initialised, are all taken up:
  -- the filling ends, and a search for any key ends with the value of its first pair, or with none
  -- where no pair has the key.
  pub fill-find :
      (pairs : Pairs) (s : IdSet)
      → length pairs ≤ 256
      → (t : IdSet) × (fill (init s) pairs ≡ some t)
        × ((key : List ℕ) → find hash64 t key ≡ some (lookup key pairs))
  unfolding lookup
  fill-find pairs s room =
      let (t, fills, table, says) =
        fill-model pairs (init s) (init-Table hash64 s) (ground (arith, model-init s)) in
      (
        t,
        fills,
        λ key. find-lookup hash64 t table key ∙ ap some (says key ∙ rw (model-init s) refl),
      )
