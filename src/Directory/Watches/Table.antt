-- ===== src/Directory/Watches/Table.antt =====
-- The references that the table of watches of src/directory_feed.c holds.
use i3sd.Common.{
  ℕ, zero, suc, ◌+◌, ◌≤◌, ◌<◌, ◌≡◌, ◌≢◌, inl, inr, refl, sym, ap, ◌∙◌, Option, none, some, ◌==◌,
  Bool-cases, Option-cases, arith,
}
use i3sd.Directory.Watches.{max_watches, WatchEntry, WatchTable, find_watch, set_watch}

-- No descriptor has two entries, each entry has a reference, and the table is within its limit.
pub record IsValid (w : WatchTable) : Type 0 where
  pub distinct :
      (i j : ℕ)
      → i < w.watch_count
      → j < w.watch_count
      → (w.watches i).wd ≡ (w.watches j).wd
      → i ≡ j
  pub referenced : (i : ℕ) → i < w.watch_count → 0 < (w.watches i).refs
  pub bounded : w.watch_count ≤ max_watches

abbrev pub refs_at : WatchTable → Option ℕ → ℕ
refs_at w none = 0
refs_at w (some i) = (w.watches i).refs

-- How many references a descriptor has.
abbrev pub refs_of : WatchTable → ℕ → ℕ
refs_of w wd = refs_at w (find_watch w.watches wd 0 w.watch_count)

pub find_watch-none :
    (watches : ℕ → WatchEntry) (wd index left : ℕ)
    → find_watch watches wd index left ≡ none
    → (i : ℕ) → index ≤ i
    → i < index + left
    → (watches i).wd ≢ wd
unfolding find_watch
find_watch-none watches wd index zero h i p q = absurd (omega arith)
find_watch-none watches wd index (suc left) h i p q = elim (Bool-cases ((watches index).wd == wd)) [
  | inl same ↦ absurd (ground arith)
  | inr other ↦ elim (Bool-cases (index == i)) [
    | inl at ↦ let e : index ≡ i = ground arith in rw (← e) (ground arith)
    | inr later ↦
        find_watch-none watches wd (index + 1) left (ground arith) i (ground arith) (omega arith)
  ]
]

pub find_watch-some :
    (watches : ℕ → WatchEntry) (wd index left i : ℕ)
    → find_watch watches wd index left ≡ some i
    → (i < index + left) × ((watches i).wd ≡ wd)
unfolding find_watch
find_watch-some watches wd index zero i h = absurd (ground arith)
find_watch-some watches wd index (suc left) i h = elim (Bool-cases ((watches index).wd == wd)) [
  | inl same ↦ let e : index ≡ i = ground arith in (omega arith, rw (← e) (ground arith))
  | inr other ↦
      let later = find_watch-some watches wd (index + 1) left i (ground arith) in
      (omega (arith, later.0), later.1)
]

module _ (w : WatchTable) (v : IsValid w) where
  pub refs_of-at :
      (i wd : ℕ) → i < w.watch_count → (w.watches i).wd ≡ wd → refs_of w wd ≡ (w.watches i).refs
  refs_of-at i wd p e = elim (Option-cases (find_watch w.watches wd 0 w.watch_count)) [
    | inl missing ↦
        absurd
          (find_watch-none w.watches wd 0 w.watch_count missing i (omega arith) (omega arith) e)
    | inr (j, found) ↦
        let (q, d) = find_watch-some w.watches wd 0 w.watch_count j found in
        let same : j ≡ i = v.distinct j i (omega arith) p (d ∙ sym e) in
        rw found (ap (λ (k : ℕ). (w.watches k).refs) same)
  ]

pub refs_of-absent :
    (w : WatchTable) (wd : ℕ)
    → ((i : ℕ) → i < w.watch_count → (w.watches i).wd ≢ wd)
    → refs_of w wd ≡ 0
refs_of-absent w wd absent = elim (Option-cases (find_watch w.watches wd 0 w.watch_count)) [
  | inl missing ↦ rw missing refl
  | inr (j, found) ↦
      let (q, d) = find_watch-some w.watches wd 0 w.watch_count j found in
      absurd (absent j (omega arith) d)
]

-- A table with the same descriptors at the same places.
pub set_watch-IsValid :
    (w : WatchTable) (i : ℕ) (refs : ℕ)
    → IsValid w
    → 0 < refs
    → IsValid (set_watch w i (record (w.watches i) { refs = refs }))
set_watch-IsValid w i refs v positive =
    let w' = set_watch w i (record (w.watches i) { refs = refs }) in
    let same : (k : ℕ) → (w'.watches k).wd ≡ (w.watches k).wd = λ k. elim (Bool-cases (i == k)) [
      | inl here ↦ let e : i ≡ k = ground arith in rw here (ap (λ (n : ℕ). (w.watches n).wd) e)
      | inr other ↦ rw other refl
    ] in
    record {
      distinct = λ j k p q e. v.distinct j k p q (sym (same j) ∙ e ∙ same k);
      referenced = λ k p. elim (Bool-cases (i == k)) [
        | inl here ↦ rw here positive
        | inr other ↦ rw other (v.referenced k p)
      ];
      bounded = v.bounded;
    }

-- An entry for the descriptor in one table is one in the other.
abbrev Carries : ℕ → WatchTable → WatchTable → Type 0
Carries wd w w' =
    (i : ℕ)
    → i < w.watch_count
    → (w.watches i).wd ≡ wd
    → (j : ℕ) × (j < w'.watch_count) × (w'.watches j ≡ w.watches i)

pub refs_of-carried :
    (wd : ℕ) (w w' : WatchTable)
    → IsValid w
    → IsValid w'
    → Carries wd w w'
    → Carries wd w' w
    → refs_of w' wd ≡ refs_of w wd
refs_of-carried wd w w' v v' there back =
    elim (Option-cases (find_watch w.watches wd 0 w.watch_count)) [
      | inl missing ↦ rw missing (
          refs_of-absent w' wd (λ j p e.
            let (i, q, same) = back j p e in
            find_watch-none w.watches wd 0 w.watch_count missing i (omega arith) (omega arith)
              (ap (λ (x : WatchEntry). x.wd) same ∙ e)))
      | inr (i, found) ↦
          let (q, d) = find_watch-some w.watches wd 0 w.watch_count i found in
          let (j, p, same) = there i (omega arith) d in
          rw found (
            refs_of-at w' v' j wd p (ap (λ (x : WatchEntry). x.wd) same ∙ d)
            ∙ ap (λ (x : WatchEntry). x.refs) same)
    ]
