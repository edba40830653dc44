-- ===== src/IdSet/Tests.antt =====
-- Runs of src/id_set.c, and its theorems at concrete inputs. Keys are hashed by their length, so that
-- keys of one length share a home slot.
use i3sd.Common.{write, ℕ, ◌≡◌, refl, none, some, List, [], ◌∷◌, length, arith}
use i3sd.IdSet.{
  IdSet, inserted, duplicate, init, insert, insert_at, find, probe, probe_from, same, value_at,
}
use i3sd.IdSet.Invariant.{Table}
use i3sd.IdSet.Adding.{init-Table}
use i3sd.IdSet.Model.{Pairs, lookup, put, model}
use i3sd.IdSet.Refinement.{insert-put, find-lookup}
use i3sd.IdSet.Filling.{fill, fill-find}

abbrev by_length : List ℕ → ℕ
by_length = length

abbrev blank : IdSet
blank = record {
  slots = λ _. 9;
  entries = λ _. record { key = []; hash = 0; value = 0 };
  count = 3;
}

abbrev cat : List ℕ
cat = b'c' ∷ b'a' ∷ b't' ∷ []

abbrev dog : List ℕ
dog = b'd' ∷ b'o' ∷ b'g' ∷ []

abbrev one_item : IdSet
one_item = record {
  slots = write (λ _. 0) 3 1;
  entries =
      write (λ _. record { key = []; hash = 0; value = 0 }) 0
        (record { key = cat; hash = 3; value = 7 });
  count = 1;
}

insert_first : insert by_length (init blank) cat 7 ≡ some (inserted, one_item)
unfolding insert probe probe_from insert_at init
insert_first = refl

-- Equal homes: the second key takes the next slot.
collision : probe one_item dog 3 ≡ some 4
unfolding probe probe_from same
collision = refl

insert_again : insert by_length one_item cat 8 ≡ some (duplicate, one_item)
unfolding insert probe probe_from same insert_at
insert_again = refl

find_missing : find by_length one_item dog ≡ some none
unfolding find probe probe_from same value_at
find_missing = refl

one_item-Table : Table by_length one_item
one_item-Table =
    let r = insert-put by_length (init blank) (init-Table by_length blank) cat 7 in
    let same_set : r.0 ≡ one_item = cc (r.1, insert_first) in rw (← same_set) r.2

insert-put_example :
    (t : IdSet) × (insert by_length one_item dog 5 ≡ some ((put dog 5 (model one_item)).0, t))
    × Table by_length t
    × (model t ≡ (put dog 5 (model one_item)).1)
insert-put_example = insert-put by_length one_item one_item-Table dog 5

find-lookup_example : find by_length one_item cat ≡ some (lookup cat (model one_item))
find-lookup_example = find-lookup by_length one_item one_item-Table cat

abbrev animals : Pairs
animals = (cat, 1) ∷ (dog, 2) ∷ (cat, 3) ∷ []

fill-find_example :
    (t : IdSet) × (fill by_length (init blank) animals ≡ some t)
    × ((key : List ℕ) → find by_length t key ≡ some (lookup key animals))
fill-find_example = fill-find by_length animals blank (omega arith)
