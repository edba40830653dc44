-- ===== src/Lib.antt =====
-- Verification library of i3sd, an event-driven status generator for i3bar (C, with Lua modules).
--
-- The program. src/main.c runs one epoll loop over event sources (signals, click input, the output
-- pipe, inotify, D-Bus, timers, child processes) and calls Lua callbacks, which set the items of
-- blocks. The loop renders the items of all blocks into a JSON frame, at a limited rate, and writes
-- the frames to i3bar; click events come back on stdin. The components below are the native core that
-- the loop rests on. They call one another as follows: the click framer, the output and the child
-- processes keep growable buffers; the loop asks the limiter before it renders, hands the frame to the
-- output, and flushes it when the pipe takes bytes; a directory feed lists the names of files and puts
-- their texts as items of its block, through the same comparison and validation as the states that Lua
-- sets, where texts are checked as UTF-8; a click finds its item by the instance that was rendered.
--
-- The files.
--   Common        shared names; Tests (Boolean tests), Lists (lists by native numbers), Bits (bit
--                 operations by arithmetic).
--   Buffer        src/buffer.c. The state is `bytes`, the first `len` bytes of `data`, and `cap`.
--                 `grow` is the loop of reserve; its fuel is 64, which is enough since a round that
--                 goes on doubles a size that stays below 2 ^ 64. Bounds: reserve and append.
--   RenderLimiter src/render_limiter.c, with the 64-bit wrap written out. Rate: the token bucket.
--   Utf8          src/utf8.c. `sequence` is a round of the loop, `scan` the loop; a round takes a
--                 byte at least, so the length of the text is fuel enough. Bytes, Encoding, Decoding:
--                 the masks as arithmetic, and both directions against the encoding of code points.
--   Click         src/click.c. `step` is a round of the loop of i3sd_click_framer_feed, `feed_from`
--                 the loop, `feed` the function. Inside, Bytes, Text, Events: whole events; Chunks:
--                 cuts of the input; Invariant: what always holds.
--   Output        src/output.c. The write function is a list of answers, one for each call; an answer
--                 takes between one and all of the bytes that it is given, or is an error. `none` as
--                 the result of `flush` says that the list was too short. Stream, Flushing, Frames:
--                 the bytes written so far; Progress: flush returns.
--   IdSet         src/id_set.c. The hash function is a parameter, as a third-party library provides
--                 it. `probe_from` is the probe loop with 512 rounds of fuel, enough since a table of
--                 at most 256 entries has an empty slot. Probing: where the loop ends; Invariant,
--                 Adding: the table; Model, Refinement, Filling: the map that it implements.
--   Timer         src/timer.c. The timers live in a store by number, as the heap holds pointers to
--                 them. Sift loops have the index or the length as fuel. Order: the heap order over
--                 numbers; Links: the array and the back indices; Sifting, Up, Down, Ending: the
--                 loops; Invariant; Pushing, Adding, Cancelling, Queue, Rescheduling: the operations;
--                 Lifetime: destroy and the heaps that calls reach.
--   Items         src/main.c: find_item with the order of item ids, remove_item, clear_items, the
--                 array part of put_item (`place_item`), and valid_color. The interval of the binary
--                 search shrinks, so the number of items is fuel enough. Compare, Search, Arrays,
--                 Placing, Colours: one for each.
--   State         src/main.c: the state of an item. Views: a Lua table, as the list of its members, is
--                 read into a view (parse_state_view); a Lua value is what the code asks of it.
--                 State: state_matches_view and materialize_state; a copy answers whether it finds
--                 memory. Making, Forms, Accepting, Matching, Parsing: what they accept and when
--                 they agree.
--   Instance      src/main.c: format_instance and find_clicked_item. `digits` is `%zu`, with one more
--                 round of fuel than the number, which each round divides by ten. Decimal, Routing:
--                 from an item to its instance and back.
--   Producer      src/main.c: serialize_block, materialize_item and i3sd_block_put_item. The JSON
--                 library is a record of answers. Outcome, Putting: the five results of put_item.
--   Spawn         src/spawn.c. The slots are a function of the index; the answers of system calls are
--                 arguments, Input (write_input, start_child), Opening (i3sd_spawn_open), Reading
--                 (i3sd_spawn_read). The log lists what happens outside of the slots. What a Lua
--                 callback makes of the slots is an argument. Slots, Accounts, Ending, Lifetime: the
--                 accounts of callback references; Output, Draining: the kept output; Passing, Expiring:
--                 deadlines.
--   Directory     src/directory_feed.c. Names: feed_name, utf8_prefix, the sorted list of names, with
--                 its length as the fuel of both searches; Lines: the text of a file, with the length
--                 of the options as fuel, since a round takes a byte; Feed: refresh, rescan,
--                 activation, events, with the answers of the file system in a record; a rescan within
--                 a scan does nothing, so none is nested; Watches: the shared inotify watches.
--                 Names.Listing, Collecting, Firsts, Cutting, Feed.Clean, Cleaning, Lines.Printing,
--                 Feed.Printed, Watches.Table, Counting, Sharing: proofs.
--   PowerSupply   src/power_supply_events.c. The answers of recvfrom are a list, the budget of 256 rounds
--                 is the fuel of `drain`; the fields of an event are scanned with its size as fuel, as a
--                 round takes a byte. What a Lua callback makes of the source is an argument. Fields,
--                 Retrying: one for each.
--
-- Where a component allocates, `realloc` is a parameter: a function that answers whether memory of a
-- size is found. A pointer that is only passed on, such as the user data of a timer, is a number.
--
-- Not modelled. src/main.c beyond the above (the Lua binding with the reconciliation of ctx:set, the
-- loading of a configuration, rendering of frames, reload, event loop), src/dbus.c, src/realtime.c,
-- src/systemd.c, src/power_profiles.c, src/pipewire.c, src/nvidia.c,
-- src/collectors.c: they stand on Lua, the system's files and buses. Messages on stderr. lua/ holds
-- presentation in Lua. vendor/yyjson is another project.
pub mod Common
pub mod Buffer
pub mod RenderLimiter
pub mod Utf8
pub mod Click
pub mod Output
pub mod IdSet
pub mod Timer
pub mod Items
pub mod State
pub mod Instance
pub mod Producer
pub mod Spawn
pub mod Directory
pub mod PowerSupply
