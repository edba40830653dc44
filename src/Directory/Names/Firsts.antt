-- ===== src/Directory/Names/Firsts.antt =====
-- A whole listing of src/directory_feed.c: the list that is collected from an empty one.
use i3sd.Common.{
  ℕ, ◌≡◌, ◌⊎◌, inl, inr, refl, Bool, true, false, not, ◌&&◌, ◌||◌, List, [], ◌∷◌, Bool-cases, arith,
}
use i3sd.Directory.Names.{NameList, name_list_add, DirEntry, collect, feed_name}
use i3sd.Directory.Names.Collecting.{Firsts, Firsts-iff, name_list_add-Firsts}

abbrev pub is_wanted : DirEntry → Bool
is_wanted entry = entry.may_be_file && feed_name entry.name

-- The names that the listing offers.
abbrev pub Offered : List DirEntry → List ℕ → Type 0
Offered [] name = ⊥
Offered (entry ∷ entries) name =
    ((is_wanted entry ≡ true) × (name ≡ entry.name)) ⊎ Offered entries name

-- No name is listed twice.
abbrev pub IsDistinct : List DirEntry → Type 0
IsDistinct [] = Unit
IsDistinct (entry ∷ entries) = (Offered entries entry.name → ⊥) × IsDistinct entries

or_false : (b : Bool) → (b || false) ≡ b
or_false true = refl
or_false false = refl

module _ (l : NameList) (overflowed : Bool) (entry : DirEntry) (entries : List DirEntry) where
  collect-wanted :
      is_wanted entry ≡ true
      → collect l overflowed (entry ∷ entries)
        ≡ collect
            (name_list_add l entry.name).1
            (overflowed || not (name_list_add l entry.name).0)
            entries
  unfolding collect
  collect-wanted wanted = rw wanted refl

  collect-skipped :
      is_wanted entry ≡ false
      → collect l overflowed (entry ∷ entries) ≡ collect l overflowed entries
  unfolding collect
  collect-skipped skipped = rw (skipped, or_false overflowed) refl

collect-more :
    (P : List ℕ → Type 0) (l : NameList) (overflowed : Bool) (entries : List DirEntry)
    → Firsts P l overflowed
    → IsDistinct entries
    → ((name : List ℕ) → Offered entries name → P name → ⊥)
    → Firsts
        (λ name. P name ⊎ Offered entries name)
        (collect l overflowed entries).1
        (collect l overflowed entries).0
unfolding collect
collect-more P l overflowed [] f distinct new =
    Firsts-iff P (λ name. P name ⊎ ⊥) l overflowed (λ name p. inl p)
      (λ name q. elim q [ inl p ↦ p | inr impossible ↦ absurd impossible ]) f
collect-more P l overflowed (entry ∷ entries) f (apart, distinct) new =
    elim (Bool-cases (is_wanted entry)) [
      | inl wanted ↦
          let added =
            name_list_add-Firsts P l overflowed entry.name f
              (new entry.name (inl (wanted, refl))) in
          let rest =
            collect-more (λ name. P name ⊎ (name ≡ entry.name)) (name_list_add l entry.name).1
              (overflowed || not (name_list_add l entry.name).0) entries added distinct
              (λ name offered q. elim q [
                | inl p ↦ new name (inr offered) p
                | inr own ↦ apart (rw own at offered)
              ]) in
          rw (collect-wanted l overflowed entry entries wanted) (
            Firsts-iff (λ name. (P name ⊎ (name ≡ entry.name)) ⊎ Offered entries name)
              (λ name. P name ⊎ Offered (entry ∷ entries) name) _ _
              (λ name q. elim q [
                | inl (inl p) ↦ inl p
                | inl (inr own) ↦ inr (inl (wanted, own))
                | inr offered ↦ inr (inr offered)
              ])
              (λ name q. elim q [
                | inl p ↦ inl (inl p)
                | inr (inl (yes_it_is, own)) ↦ inl (inr own)
                | inr (inr offered) ↦ inr offered
              ])
              rest)
      | inr other ↦
          let rest =
            collect-more P l overflowed entries f distinct
              (λ name offered p. new name (inr offered) p) in
          rw (collect-skipped l overflowed entry entries other) (
            Firsts-iff (λ name. P name ⊎ Offered entries name)
              (λ name. P name ⊎ Offered (entry ∷ entries) name) _ _
              (λ name q. elim q [ inl p ↦ inl p | inr offered ↦ inr (inr offered) ])
              (λ name q. elim q [
                | inl p ↦ inl p
                | inr (inl (wanted, own)) ↦ absurd (ground arith)
                | inr (inr offered) ↦ inr offered
              ])
              rest)
    ]

-- A listing without double names, collected from an empty list of some capacity: the list holds, in
-- strict order, names of files that the listing offers and that may be shown; and each such name is in
-- the list, or the list is full and holds only lesser names. The flag of an overflow says whether one
-- of them is missing.
pub collect-Firsts :
    (names : ℕ → List ℕ) (capacity : ℕ) (entries : List DirEntry)
    → IsDistinct entries
    → Firsts
        (Offered entries)
        (collect (record { names = names; count = 0; capacity = capacity }) false entries).1
        (collect (record { names = names; count = 0; capacity = capacity }) false entries).0
collect-Firsts names capacity entries distinct =
    let empty_list : NameList = record { names = names; count = 0; capacity = capacity } in
    Firsts-iff (λ name. ⊥ ⊎ Offered entries name) (Offered entries) _ _
      (λ name q. elim q [ inl impossible ↦ absurd impossible | inr offered ↦ offered ])
      (λ name offered. inr offered)
      (collect-more (λ name. ⊥) empty_list false entries
        (record {
          sorted = λ i j p q. elim q [ ];
          bounded = omega arith;
          seen = λ i p. elim p [ ];
          all = λ name impossible. absurd impossible;
          none_missing = λ e name impossible. absurd impossible;
          one_missing = λ e. absurd (ground arith);
        })
        distinct (λ name offered impossible. impossible))
