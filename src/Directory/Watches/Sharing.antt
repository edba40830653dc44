-- ===== src/Directory/Watches/Sharing.antt =====
-- The watches of src/directory_feed.c are shared: what acquire, release and forget do to the references.
use i3sd.Common.{
  ℕ, ◌+◌, ◌-◌, ◌<◌, ◌≡◌, ◌≢◌, inl, inr, refl, ◌∙◌, false, Option, none, some, ◌∷◌, ◌==◌,
  if◌then◌else◌, Bool-cases, Option-cases, arith,
}
use i3sd.Directory.Watches.{
  max_watches, WatchTable, find_watch, drop_watch, add_watch, acquire_found, acquire, release_at,
  release_found, release, forget_found, forget,
}
use i3sd.Directory.Watches.Table.{
  IsValid, refs_of, find_watch-none, find_watch-some, refs_of-at, refs_of-absent, set_watch-IsValid,
}
use i3sd.Directory.Watches.Counting.{
  set_watch-refs, drop_watch-IsValid, drop_watch-refs, appended-IsValid, appended-refs,
}

-- How acquire ends for a descriptor: it has one more reference; or the table is full and the descriptor,
-- which nobody else holds, is given back to the kernel.
abbrev pub Acquired : WatchTable → ℕ → Option ℕ × WatchTable → Type 0
Acquired w wd (none, w') =
    (w.watch_count ≡ max_watches)
    × (refs_of w wd ≡ 0)
    × (w'.removed ≡ wd ∷ w.removed)
    × ((wd' : ℕ) → refs_of w' wd' ≡ refs_of w wd')
Acquired w wd (some answer, w') =
    (answer ≡ wd)
    × (w'.removed ≡ w.removed)
    × ((wd' : ℕ) → refs_of w' wd' ≡ (if wd == wd' then refs_of w wd + 1 else refs_of w wd'))

acquire-Acquired :
    (w : WatchTable) (wd : ℕ)
    → IsValid w
    → IsValid (acquire w (some wd)).1 × Acquired w wd (acquire w (some wd))
unfolding acquire acquire_found add_watch
acquire-Acquired w wd v = elim (Option-cases (find_watch w.watches wd 0 w.watch_count)) [
  | inl missing ↦
      let new = find_watch-none w.watches wd 0 w.watch_count missing in
      let absent : (i : ℕ) → i < w.watch_count → (w.watches i).wd ≢ wd =
        λ i p. new i (omega arith) (omega arith) in
      let zero_refs = refs_of-absent w wd absent in
      elim (Bool-cases (w.watch_count == max_watches)) [
        | inl full ↦
            rw (missing, acquire_found)
              (rw full (
                record { distinct = v.distinct; referenced = v.referenced; bounded = v.bounded },
                (ground arith, zero_refs, refl, λ wd'. refl),
              ))
        | inr space ↦
            let room : w.watch_count ≢ max_watches = ground arith in
            rw (missing, acquire_found)
              (rw space (
                appended-IsValid w v wd absent room,
                (refl, refl, λ wd'. appended-refs w v wd absent wd' room ∙ rw zero_refs refl),
              ))
      ]
  | inr (i, found) ↦
      let (p, own) = find_watch-some w.watches wd 0 w.watch_count i found in
      let count : refs_of w wd ≡ (w.watches i).refs = refs_of-at w v i wd (omega arith) own in
      rw (found, acquire_found)
        (
          set_watch-IsValid w i ((w.watches i).refs + 1) v (omega arith),
          (
            refl,
            refl,
            λ wd'.
                set_watch-refs w v i (omega arith) ((w.watches i).refs + 1) wd' (omega arith)
                ∙ rw (own, count) refl,
          ),
        )
]

-- How release and forget end.
abbrev pub Released : WatchTable → ℕ → WatchTable → Type 0
Released w wd w' =
    (w'.removed ≡ (if refs_of w wd == 1 then wd ∷ w.removed else w.removed))
    × ((wd' : ℕ) → refs_of w' wd' ≡ (if wd == wd' then refs_of w wd - 1 else refs_of w wd'))

abbrev pub Forgotten : WatchTable → ℕ → WatchTable → Type 0
Forgotten w wd w' =
    (w'.removed ≡ w.removed)
    × ((wd' : ℕ) → refs_of w' wd' ≡ (if wd == wd' then 0 else refs_of w wd'))

release-Released :
    (w : WatchTable) (wd : ℕ) → IsValid w → IsValid (release w wd) × Released w wd (release w wd)
unfolding release release_found release_at
release-Released w wd v = elim (Option-cases (find_watch w.watches wd 0 w.watch_count)) [
  | inl missing ↦
      rw (missing, release_found)
        (
          v,
          (
            refl,
            λ wd'. elim (Bool-cases (wd == wd')) [
              | inl same ↦
                  let e : wd ≡ wd' = ground arith in
                  let none_left : refs_of w wd ≡ 0 = rw missing refl in rw same (rw (← e) none_left)
              | inr other ↦ rw other refl
            ],
          ),
        )
  | inr (i, found) ↦
      let (p, own) = find_watch-some w.watches wd 0 w.watch_count i found in
      let positive = v.referenced i (omega arith) in
      elim (Bool-cases ((w.watches i).refs - 1 == 0)) [
        | inl last ↦
            let one : (w.watches i).refs ≡ 1 = ground arith in
            let w2 = record w { removed = wd ∷ w.removed } in
            let v2 : IsValid w2 = record {
              distinct = v.distinct;
              referenced = v.referenced;
              bounded = v.bounded;
            } in
            rw (found, release_found)
              (rw last (
                drop_watch-IsValid w2 v2 i (omega arith),
                (
                  unfold drop_watch in rw one refl,
                  λ wd'. drop_watch-refs w2 v2 i (omega arith) wd' ∙ rw (own, one) refl,
                ),
              ))
        | inr more ↦
            let several : ((w.watches i).refs == 1) ≡ false = ground arith in
            rw (found, release_found)
              (rw more (
                set_watch-IsValid w i ((w.watches i).refs - 1) v (ground arith),
                (
                  rw several refl,
                  λ wd'.
                      set_watch-refs w v i (omega arith) ((w.watches i).refs - 1) wd' (ground arith)
                      ∙ rw own refl,
                ),
              ))
      ]
]

forget-Forgotten :
    (w : WatchTable) (wd : ℕ) → IsValid w → IsValid (forget w wd) × Forgotten w wd (forget w wd)
unfolding forget forget_found
forget-Forgotten w wd v = elim (Option-cases (find_watch w.watches wd 0 w.watch_count)) [
  | inl missing ↦
      rw (missing, forget_found)
        (
          v,
          (
            refl,
            λ wd'. elim (Bool-cases (wd == wd')) [
              | inl same ↦
                  let e : wd ≡ wd' = ground arith in
                  let none_left : refs_of w wd ≡ 0 = rw missing refl in rw same (rw (← e) none_left)
              | inr other ↦ rw other refl
            ],
          ),
        )
  | inr (i, found) ↦
      let (p, own) = find_watch-some w.watches wd 0 w.watch_count i found in
      rw (found, forget_found)
        (
          drop_watch-IsValid w v i (omega arith),
          (unfold drop_watch in refl, λ wd'. drop_watch-refs w v i (omega arith) wd' ∙ rw own refl),
        )
]

-- In a table without double entries, which the operations keep so and within its limit: acquire gives a
-- descriptor that the kernel answers one more reference, or, where the table is full and nobody has the
-- descriptor, removes it from inotify again; release takes one reference away, and removes the
-- descriptor from inotify exactly if it was the last; forget takes all references of a descriptor that
-- the kernel has dropped, and removes nothing from inotify. No reference of another descriptor changes.
pub watches_shared :
    (w : WatchTable) (wd : ℕ)
    → IsValid w
    → (IsValid (acquire w (some wd)).1 × Acquired w wd (acquire w (some wd)))
      × (IsValid (release w wd) × Released w wd (release w wd))
      × (IsValid (forget w wd) × Forgotten w wd (forget w wd))
watches_shared w wd v = (acquire-Acquired w wd v, release-Released w wd v, forget-Forgotten w wd v)
