-- ===== src/Directory/Feed.antt =====
-- src/directory_feed.c, a feed: refresh of a file, rescan, activation and events.
pub mod Cleaning
pub mod Clean
pub mod Printed
use i3sd.Common.{
  ℕ, zero, suc, ◌+◌, ◌-◌, Bool, true, false, not, ◌&&◌, ◌||◌, Option, none, some, List, [], ◌∷◌,
  ltb, ◌==◌, if◌then◌else◌, take,
}
use i3sd.Items.{
  Block, ids_of, remove_item, clear_items, PutResult, put_unchanged, put_changed, put_evicted,
  put_full, put_failed,
}
use i3sd.Instance.{Content}
use i3sd.Producer.{Memory, put_item}
use i3sd.Directory.Names.{feed_name, NameList, name_list_contains, DirEntry, collect}
use i3sd.Directory.Lines.{file_text}
use i3sd.Directory.Watches.{WatchTable, acquire, release}

-- The watch descriptor is none where it is negative.
pub record Feed : Type 0 where
  pub block : Block Content
  pub max_bytes : ℕ
  pub wd : Option ℕ
  pub overflowed : Bool
  pub scanning : Bool
  pub cancelled : Bool

-- What a file answers: it cannot be opened or is not regular; or it cannot be read; or the size that is
-- reported, and the bytes that reads give until the end.
pub data FileAnswer : Type 0 where
  unusable unreadable : FileAnswer
  contents : ℕ → List ℕ → FileAnswer

-- What the system answers while an operation runs; the listing is none where the directory cannot be
-- listed or the list finds no memory.
pub record World : Type 0 where
  pub memory : Memory
  pub file : List ℕ → FileAnswer
  pub listing : Option (List DirEntry)

unfoldable pub put_result : Feed → PutResult → Feed
put_result f put_evicted = record f { overflowed = true }
put_result f put_full = record f { overflowed = true }
put_result f put_unchanged = f
put_result f put_changed = f
put_result f put_failed = f

unfoldable pub remove_file : (Feed → Feed) → Feed → List ℕ → Feed
remove_file rescanned f name =
    let (removed, block) = remove_item f.block name in
    let f' = record f { block = block } in
    if (removed && f'.overflowed) && not f'.scanning then rescanned f' else f'

-- The answer of a file is used; `rescanned` is the function that lists the directory again.
unfoldable pub use_file : (Feed → Feed) → Memory → Feed → List ℕ → FileAnswer → Feed
use_file rescanned m f name unusable = remove_file rescanned f name
use_file rescanned m f name unreadable = f
use_file rescanned m f name (contents size bytes) =
    let wanted = if ltb size f.max_bytes then size else f.max_bytes in
    let (result, block) = put_item m f.block name (file_text name size (take wanted bytes)) in
    put_result (record f { block = block }) result

unfoldable pub refresh_file : (Feed → Feed) → World → Feed → List ℕ → Feed
refresh_file rescanned w f name = use_file rescanned w.memory f name (w.file name)

-- The items from the last one on whose file is not listed are removed.
unfoldable pub remove_unlisted : NameList → Block Content → ℕ → Block Content
remove_unlisted l b zero = b
remove_unlisted l b (suc index) =
    let id = ids_of b index in
    remove_unlisted l (if not (name_list_contains l id) then (remove_item b id).1 else b) index

-- The listed files from `index` on are refreshed. No listing is nested, as a scan is running.
unfoldable pub refresh_all : World → NameList → Feed → ℕ → ℕ → Feed
refresh_all w l f index zero = f
refresh_all w l f index (suc left) =
    refresh_all w l (refresh_file (λ same. same) w f (l.names index)) (index + 1) left

abbrev pub empty_names : Feed → NameList
empty_names f = record { names = λ i. []; count = 0; capacity = f.block.max_items }

unfoldable pub rescan_listing : World → Feed → List DirEntry → Feed
rescan_listing w f entries =
    let (overflowed, l) = collect (empty_names f) false entries in
    let kept = remove_unlisted l f.block f.block.item_count in
    let f' = record f { overflowed = overflowed; scanning = true; block = kept } in
    record (refresh_all w l f' 0 l.count) { scanning = false }

abbrev pub is_watching : Feed → Bool
is_watching f = elim f.wd [ none ↦ false | some wd ↦ true ]

unfoldable pub rescan : World → Feed → Feed
rescan w f =
    if f.cancelled || not (is_watching f)
    then f
    else elim w.listing [ none ↦ f | some entries ↦ rescan_listing w f entries ]

unfoldable pub release_wd : WatchTable → Option ℕ → WatchTable
release_wd t none = t
release_wd t (some wd) = release t wd

unfoldable pub close_feed : WatchTable → Feed → WatchTable × Feed
close_feed t f = (release_wd t f.wd, record f { wd = none })

-- What the calls of an activation answer: the directory is made or there, it is opened, it is owned by
-- this user and not writable by others, its watch descriptor if there is one, and the path still leads
-- to it.
pub record Opened : Type 0 where
  pub made : Bool
  pub opened : Bool
  pub owned : Bool
  pub watch : Option ℕ
  pub same_directory : Bool

unfoldable pub watch_feed : World → Opened → WatchTable → Feed → Bool × WatchTable × Feed
watch_feed w o t f =
    let (wd, t') = acquire t o.watch in
    let f' = record f { wd = wd } in
    if not (is_watching f')
    then (false, (close_feed t' f').0, (close_feed t' f').1)
    else if not o.same_directory
    then (false, (close_feed t' f').0, (close_feed t' f').1)
    else (true, t', rescan w f')

unfoldable pub activate : World → Opened → WatchTable → Feed → Bool × WatchTable × Feed
activate w o t f =
    if (not o.made || not o.opened) || not o.owned
    then (false, (close_feed t f).0, (close_feed t f).1)
    else watch_feed w o t f

unfoldable pub lose_directory : World → Opened → WatchTable → Feed → Bool → WatchTable × Feed
lose_directory w o t f forgotten =
    let (t', f') = close_feed t (if forgotten then record f { wd = none } else f) in
    let (done, t'', f'') = activate w o t' (record f' { block = clear_items f'.block }) in
    (t'', f'')

-- An inotify event, with the bits of its mask that are looked at; its name is empty if it has none.
pub record Event : Type 0 where
  pub wd : ℕ
  pub ignored : Bool
  pub self_gone : Bool
  pub removed : Bool
  pub written : Bool
  pub name : List ℕ

abbrev pub is_for : Feed → Event → Bool
is_for f e = elim f.wd [ none ↦ false | some wd ↦ e.wd == wd ]

unfoldable pub file_event : World → Feed → Event → Feed
file_event w f e =
    let (removed, block) = remove_item f.block e.name in
    let f' = record f { block = block } in
    if not (feed_name e.name)
    then f
    else if e.removed
    then (if removed && f'.overflowed then rescan w f' else f')
    else if e.written
    then refresh_file (rescan w) w f e.name
    else f

unfoldable pub feed_event : World → Opened → WatchTable → Feed → Event → WatchTable × Feed
feed_event w o t f e =
    if f.cancelled || not (is_for f e)
    then (t, f)
    else if e.ignored
    then lose_directory w o t f true
    else if e.self_gone
    then lose_directory w o t f false
    else (t, file_event w f e)
