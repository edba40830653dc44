-- ===== src/Directory/Watches.antt =====
-- src/directory_feed.c, the inotify watches that several consumers share: acquire, release, forget.
pub mod Counting
pub mod Table
pub mod Sharing
use i3sd.Common.{
  ℕ, zero, suc, ◌+◌, ◌-◌, Bool, true, false, Option, none, some, List, [], ◌∷◌, ◌==◌, if◌then◌else◌,
  write,
}

abbrev pub max_watches : ℕ
max_watches = 1024

pub record WatchEntry : Type 0 where
  pub wd : ℕ
  pub refs : ℕ

-- The table, and the descriptors that inotify_rm_watch was called with, the latest first.
pub record WatchTable : Type 0 where
  pub watches : ℕ → WatchEntry
  pub watch_count : ℕ
  pub removed : List ℕ

-- The loop over the entries from `index`.
unfoldable pub find_watch : (ℕ → WatchEntry) → ℕ → ℕ → ℕ → Option ℕ
find_watch watches wd index zero = none
find_watch watches wd index (suc left) =
    let rest = find_watch watches wd (index + 1) left in
    if (watches index).wd == wd then some index else rest

abbrev pub set_watch : WatchTable → ℕ → WatchEntry → WatchTable
set_watch w i entry = record w { watches = write w.watches i entry }

-- The last entry takes the place of the one that goes.
unfoldable pub drop_watch : WatchTable → ℕ → WatchTable
drop_watch w i = record w {
  watches = write w.watches i (w.watches (w.watch_count - 1));
  watch_count = w.watch_count - 1;
}

unfoldable pub add_watch : WatchTable → ℕ → Option ℕ × WatchTable
add_watch w wd =
    if w.watch_count == max_watches then (none, record w { removed = wd ∷ w.removed }) else (
      some wd,
      record w {
        watches = write w.watches w.watch_count (record { wd = wd; refs = 1 });
        watch_count = w.watch_count + 1;
      },
    )

unfoldable pub acquire_found : WatchTable → ℕ → Option ℕ → Option ℕ × WatchTable
acquire_found w wd none = add_watch w wd
acquire_found w wd (some i) =
    (some wd, set_watch w i (record (w.watches i) { refs = (w.watches i).refs + 1 }))

-- The descriptor that inotify_add_watch answers, or none on an error.
unfoldable pub acquire : WatchTable → Option ℕ → Option ℕ × WatchTable
acquire w none = (none, w)
acquire w (some wd) = acquire_found w wd (find_watch w.watches wd 0 w.watch_count)

unfoldable pub release_at : WatchTable → ℕ → ℕ → WatchTable
release_at w wd i =
    let refs = (w.watches i).refs - 1 in
    if refs == 0
    then drop_watch (record w { removed = wd ∷ w.removed }) i
    else set_watch w i (record (w.watches i) { refs = refs })

unfoldable pub release_found : WatchTable → ℕ → Option ℕ → WatchTable
release_found w wd none = w
release_found w wd (some i) = release_at w wd i

unfoldable pub release : WatchTable → ℕ → WatchTable
release w wd = release_found w wd (find_watch w.watches wd 0 w.watch_count)

unfoldable pub forget_found : WatchTable → Option ℕ → WatchTable
forget_found w none = w
forget_found w (some i) = drop_watch w i

unfoldable pub forget : WatchTable → ℕ → WatchTable
forget w wd = forget_found w (find_watch w.watches wd 0 w.watch_count)
