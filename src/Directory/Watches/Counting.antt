-- ===== src/Directory/Watches/Counting.antt =====
-- What the table of watches of src/directory_feed.c counts.
use i3sd.Common.{
  ℕ, ◌+◌, ◌-◌, ◌<◌, ◌≡◌, ◌≢◌, ◌⊎◌, inl, inr, refl, sym, ap, ◌∙◌, true, false, ◌==◌, ltb,
  if◌then◌else◌, write, Bool-cases, arith,
}
use i3sd.Directory.Watches.{max_watches, WatchEntry, WatchTable, set_watch, drop_watch}
use i3sd.Directory.Watches.Table.{
  IsValid, refs_of, refs_of-absent, refs_of-at, refs_of-carried, set_watch-IsValid,
}

module _ (w : WatchTable) (v : IsValid w) (i : ℕ) (inside : i < w.watch_count) where
  -- An entry for another descriptor is not the one that is written.
  write_other :
      (entry : WatchEntry) (wd k : ℕ)
      → ((w.watches i).wd == wd) ≡ false
      → (w.watches k).wd ≡ wd
      → write w.watches i entry k ≡ w.watches k
  write_other entry wd k other e = elim (Bool-cases (i == k)) [
    | inl same ↦
        let at : i ≡ k = ground arith in
        let own : (w.watches i).wd ≡ wd = ap (λ (n : ℕ). (w.watches n).wd) at ∙ e in
        absurd (ground arith)
    | inr apart ↦ rw apart refl
  ]

  -- Nor does the written entry have it.
  written_other :
      (entry : WatchEntry) (wd k : ℕ)
      → (entry.wd == wd) ≡ false
      → (write w.watches i entry k).wd ≡ wd
      → write w.watches i entry k ≡ w.watches k
  written_other entry wd k other e = elim (Bool-cases (i == k)) [
    | inl same ↦ absurd (ground arith)
    | inr apart ↦ rw apart refl
  ]

  pub set_watch-refs :
      (refs wd : ℕ)
      → 0 < refs
      → refs_of (set_watch w i (record (w.watches i) { refs = refs })) wd
        ≡ (if (w.watches i).wd == wd then refs else refs_of w wd)
  set_watch-refs refs wd positive =
      let w' = set_watch w i (record (w.watches i) { refs = refs }) in
      let v' = set_watch-IsValid w i refs v positive in
      let here : w'.watches i ≡ record (w.watches i) { refs = refs } = ground arith in
      elim (Bool-cases ((w.watches i).wd == wd)) [
        | inl own ↦ rw own (
            refs_of-at w' v' i wd inside (ap (λ (x : WatchEntry). x.wd) here ∙ ground arith)
            ∙ ap (λ (x : WatchEntry). x.refs) here)
        | inr other ↦ rw other (
            refs_of-carried wd w w' v v'
              (λ k p e. (k, p, write_other (record (w.watches i) { refs = refs }) wd k other e))
              (λ k p e.
                (k, p, sym (written_other (record (w.watches i) { refs = refs }) wd k other e))))
      ]

  -- What an entry was before another one was dropped.
  drop_watch-was :
      (k : ℕ)
      → k < w.watch_count - 1
      → (j : ℕ) × (j < w.watch_count)
        × (j ≢ i)
        × ((drop_watch w i).watches k ≡ w.watches j)
        × ((j ≡ k) ⊎ ((k ≡ i) × (j ≡ w.watch_count - 1)))
  unfolding drop_watch
  drop_watch-was k p = elim (Bool-cases (i == k)) [
    | inl here ↦ (
      w.watch_count - 1,
      omega arith,
      (λ e. ground arith),
      rw here refl,
      inr (ground arith, refl),
    )
    | inr other ↦ (k, omega arith, (λ e. ground arith), rw other refl, inl refl)
  ]

  -- Where an entry is when another one was dropped.
  drop_watch-now :
      (k : ℕ)
      → k < w.watch_count
      → k ≢ i
      → (j : ℕ) × (j < w.watch_count - 1) × ((drop_watch w i).watches j ≡ w.watches k)
  unfolding drop_watch
  drop_watch-now k p other = elim (Bool-cases (k == w.watch_count - 1)) [
    | inl last ↦
        let e : w.watch_count - 1 ≡ k = ground arith in
        let here : (i == i) ≡ true = ground arith in (i, omega arith, rw here (ap w.watches e))
    | inr before ↦ let apart : (i == k) ≡ false = ground arith in (k, ground arith, rw apart refl)
  ]

  drop_watch-count : (drop_watch w i).watch_count ≡ w.watch_count - 1
  unfolding drop_watch
  drop_watch-count = refl

  pub drop_watch-IsValid : IsValid (drop_watch w i)
  drop_watch-IsValid = record {
    distinct = λ j k p q e.
        let (j', jp, jo, je, jw) = drop_watch-was j (omega (arith, p, drop_watch-count)) in
        let (k', kp, ko, ke, kw) = drop_watch-was k (omega (arith, q, drop_watch-count)) in
        let same : j' ≡ k' =
          v.distinct j' k' jp kp
            (sym (ap (λ (x : WatchEntry). x.wd) je) ∙ e ∙ ap (λ (x : WatchEntry). x.wd) ke) in
        let short_j = drop_watch-count in ground arith;
    referenced = λ k p.
        let (j, jp, jo, je, jw) = drop_watch-was k (omega (arith, p, drop_watch-count)) in
        rw je (v.referenced j jp);
    bounded = let b = v.bounded in omega (arith, drop_watch-count);
  }

  pub drop_watch-refs :
      (wd : ℕ) → refs_of (drop_watch w i) wd ≡ (if (w.watches i).wd == wd then 0 else refs_of w wd)
  drop_watch-refs wd = elim (Bool-cases ((w.watches i).wd == wd)) [
    | inl own ↦ rw own (
        refs_of-absent (drop_watch w i) wd (λ k p e.
          let (j, q, other, same, how) = drop_watch-was k (omega (arith, p, drop_watch-count)) in
          let d : (w.watches j).wd ≡ wd = sym (ap (λ (x : WatchEntry). x.wd) same) ∙ e in
          let mine : (w.watches i).wd ≡ wd = ground arith in
          other (v.distinct j i q inside (d ∙ sym mine))))
    | inr other ↦ rw other (
        refs_of-carried wd w (drop_watch w i) v drop_watch-IsValid
          (λ k p e.
            let (j, q, same) = drop_watch-now k p (λ here.
              let mine : (w.watches i).wd ≡ wd = sym (ap (λ (n : ℕ). (w.watches n).wd) here) ∙ e in
              ground arith) in
            (j, omega (arith, q, drop_watch-count), same))
          (λ k p e.
            let (j, q, apart, same, how) = drop_watch-was k (omega (arith, p, drop_watch-count)) in
            (j, q, sym same)))
  ]

module _ (w : WatchTable) (v : IsValid w) (wd : ℕ)
    (new : (i : ℕ) → i < w.watch_count → (w.watches i).wd ≢ wd) where
  abbrev pub appended : WatchTable
  appended = record w {
    watches = write w.watches w.watch_count (record { wd = wd; refs = 1 });
    watch_count = w.watch_count + 1;
  }

  appended-old : (i : ℕ) → i < w.watch_count → appended.watches i ≡ w.watches i
  appended-old i p = ground arith

  appended-new : (i : ℕ) → i ≡ w.watch_count → appended.watches i ≡ record { wd = wd; refs = 1 }
  appended-new i e = ground arith

  appended-distinct :
      (i j : ℕ)
      → i < w.watch_count + 1
      → j < w.watch_count + 1
      → (appended.watches i).wd ≡ (appended.watches j).wd
      → i ≡ j
  appended-distinct i j p q e = elim (Bool-cases (ltb i w.watch_count)) [
    | inl old ↦ elim (Bool-cases (ltb j w.watch_count)) [
      | inl both ↦ v.distinct i j (ground arith) (ground arith) (
          sym (ap (λ (x : WatchEntry). x.wd) (appended-old i (ground arith)))
          ∙ e
          ∙ ap (λ (x : WatchEntry). x.wd) (appended-old j (ground arith)))
      | inr last ↦ absurd (
          new i (ground arith) (
            sym (ap (λ (x : WatchEntry). x.wd) (appended-old i (ground arith)))
            ∙ e
            ∙ ap (λ (x : WatchEntry). x.wd) (appended-new j (ground arith))))
    ]
    | inr last ↦ elim (Bool-cases (ltb j w.watch_count)) [
      | inl old ↦ absurd (
          new j (ground arith) (
            sym (ap (λ (x : WatchEntry). x.wd) (appended-old j (ground arith)))
            ∙ sym e
            ∙ ap (λ (x : WatchEntry). x.wd) (appended-new i (ground arith))))
      | inr both ↦ ground arith
    ]
  ]

  pub appended-IsValid : w.watch_count ≢ max_watches → IsValid appended
  appended-IsValid space = record {
    distinct = appended-distinct;
    referenced = λ i p. elim (Bool-cases (ltb i w.watch_count)) [
      | inl old ↦ rw (appended-old i (ground arith)) (v.referenced i (ground arith))
      | inr last ↦ rw (appended-new i (ground arith)) (omega arith)
    ];
    bounded = let b = v.bounded in ground arith;
  }

  pub appended-refs :
      (wd' : ℕ)
      → w.watch_count ≢ max_watches
      → refs_of appended wd' ≡ (if wd == wd' then 1 else refs_of w wd')
  appended-refs wd' space = elim (Bool-cases (wd == wd')) [
    | inl own ↦
        let here = appended-new w.watch_count refl in
        rw own (
          refs_of-at appended (appended-IsValid space) w.watch_count wd' (omega arith)
            (ap (λ (x : WatchEntry). x.wd) here ∙ ground arith)
          ∙ ap (λ (x : WatchEntry). x.refs) here)
    | inr other ↦ rw other (
        refs_of-carried wd' w appended v (appended-IsValid space)
          (λ k p e. (k, omega arith, appended-old k p))
          (λ k p e. elim (Bool-cases (ltb k w.watch_count)) [
            | inl old ↦ (k, ground arith, sym (appended-old k (ground arith)))
            | inr last ↦
                let d : wd ≡ wd' =
                  sym (ap (λ (x : WatchEntry). x.wd) (appended-new k (ground arith))) ∙ e in
                absurd (ground arith)
          ]))
  ]
