-- ===== src/Timer.antt =====
-- src/timer.c: a binary heap of timers by deadline, in which each timer knows its place.
mod Order
mod Links
mod Sifting
mod Up
mod Down
mod Ending
pub mod Invariant
mod Pushing
mod Adding
mod Cancelling
mod Queue
mod Rescheduling
pub mod Lifetime
mod Tests
use i3sd.Common.{
  ℕ, zero, suc, ◌+◌, ◌-◌, ◌*◌, ◌/◌, ◌%◌, Bool, true, false, not, ◌&&◌, ◌||◌, Option, none, some,
  ltb, leb, ◌==◌, if◌then◌else◌, write, u64_mod, u64_max,
}

-- `userdata` is the number of what it points at.
pub record Timer : Type 0 where
  pub deadline_ns : ℕ
  pub interval_ns : ℕ
  pub sequence : ℕ
  pub heap_index : ℕ
  pub userdata : ℕ
  pub active : Bool

-- The heap holds pointers, here numbers, to timers that its callers own: `timers` is their store. The
-- array of pointers is a function of the index.
pub record TimerHeap : Type 0 where
  pub timers : ℕ → Timer
  pub items : ℕ → ℕ
  pub len : ℕ
  pub cap : ℕ
  pub next_sequence : ℕ

abbrev pub set_index : (ℕ → Timer) → ℕ → ℕ → ℕ → Timer
set_index timers t index = write timers t (record (timers t) { heap_index = index })

abbrev pub set_idle : (ℕ → Timer) → ℕ → ℕ → Timer
set_idle timers t = write timers t (record (timers t) { active = false })

unfoldable pub timer_before : Timer → Timer → Bool
timer_before left right =
    ltb left.deadline_ns right.deadline_ns
    || ((left.deadline_ns == right.deadline_ns) && ltb left.sequence right.sequence)

-- The timer at a place of the array.
abbrev pub timer_at : TimerHeap → ℕ → Timer
timer_at h index = h.timers (h.items index)

unfoldable pub timer_swap : TimerHeap → ℕ → ℕ → TimerHeap
timer_swap h left right =
    let items = write (write h.items left (h.items right)) right (h.items left) in
    record h {
      items = items;
      timers = set_index (set_index h.timers (items left) left) (items right) right;
    }

-- The loop halves the index, which is fuel enough.
unfoldable pub sift_up : ℕ → TimerHeap → ℕ → TimerHeap
sift_up zero h index = h
sift_up (suc fuel) h index =
    let parent = (index - 1) / 2 in
    let rest = sift_up fuel (timer_swap h index parent) parent in
    if ltb 0 index
    then (if timer_before (timer_at h index) (timer_at h parent) then rest else h)
    else h

unfoldable pub timer_sift_up : TimerHeap → ℕ → TimerHeap
timer_sift_up h index = sift_up index h index

-- `candidate` if it is in the heap and earlier, else `earliest`.
unfoldable pub earlier : TimerHeap → ℕ → ℕ → ℕ
earlier h candidate earliest =
    if ltb candidate h.len && timer_before (timer_at h candidate) (timer_at h earliest)
    then candidate
    else earliest

-- The index grows in each round that goes on, so the length is fuel enough.
unfoldable pub sift_down : ℕ → TimerHeap → ℕ → TimerHeap
sift_down zero h index = h
sift_down (suc fuel) h index =
    let earliest = earlier h (index * 2 + 2) (earlier h (index * 2 + 1) index) in
    let rest = sift_down fuel (timer_swap h index earliest) earliest in
    if earliest == index then h else rest

unfoldable pub timer_sift_down : TimerHeap → ℕ → TimerHeap
timer_sift_down h index = sift_down h.len h index

-- The loop of destroy, over the first `count` places.
unfoldable pub deactivate : ℕ → (ℕ → ℕ) → (ℕ → Timer) → ℕ → Timer
deactivate zero items timers = timers
deactivate (suc count) items timers = set_idle (deactivate count items timers) (items count)

unfoldable pub destroy : TimerHeap → TimerHeap
destroy h = record {
  timers = deactivate h.len h.items h.timers;
  items = λ _. 0;
  len = 0;
  cap = 0;
  next_sequence = 0;
}

abbrev pub pointer_bytes : ℕ
pointer_bytes = 8

-- Room for one more pointer. `realloc` answers whether it finds memory for a size.
unfoldable pub make_room : (ℕ → Bool) → TimerHeap → Option TimerHeap
make_room realloc h =
    let next = if h.cap == 0 then 16 else h.cap * 2 % u64_mod in
    if h.len == h.cap
    then (if ltb next h.cap || ltb (u64_max / pointer_bytes) next
        then none
        else if realloc (next * pointer_bytes)
        then some (record h { cap = next })
        else none)
    else some h

-- `add` once there is room.
unfoldable pub push : TimerHeap → ℕ → ℕ → ℕ → ℕ → Bool × TimerHeap
push h t deadline interval userdata =
    let sequence = (h.next_sequence + 1) % u64_mod in
    let timer : Timer = record {
      deadline_ns = deadline;
      interval_ns = interval;
      sequence = sequence;
      heap_index = h.len;
      userdata = userdata;
      active = true;
    } in
    let placed = record h {
      next_sequence = sequence;
      timers = write h.timers t timer;
      items = write h.items h.len t;
      len = h.len + 1;
    } in
    if sequence == 0
    then (false, record h { next_sequence = sequence })
    else (true, timer_sift_up placed (placed.timers t).heap_index)

unfoldable pub add : (ℕ → Bool) → TimerHeap → ℕ → ℕ → ℕ → ℕ → Bool × TimerHeap
add realloc h t deadline interval userdata =
    if (h.timers t).active then (false, h) else elim (make_room realloc h) [
      | none ↦ (false, h)
      | some room ↦ push room t deadline interval userdata
    ]

-- `cancel` once the timer is idle and the length is one less: its place goes to the last timer.
unfoldable pub refill : TimerHeap → ℕ → TimerHeap
refill h index =
    let last = h.items h.len in
    let moved = record h {
      items = write h.items index last;
      timers = set_index h.timers last index;
    } in
    if index == h.len
    then h
    else if ltb 0 index && timer_before (timer_at moved index) (timer_at moved ((index - 1) / 2))
    then timer_sift_up moved index
    else timer_sift_down moved index

unfoldable pub cancel : TimerHeap → ℕ → TimerHeap
cancel h t =
    let idle = record h { timers = set_idle h.timers t; len = h.len - 1 } in
    if (h.timers t).active then refill idle (h.timers t).heap_index else h

unfoldable pub peek : TimerHeap → Option ℕ
peek h = if h.len == 0 then none else some (h.items 0)

unfoldable pub pop_due : TimerHeap → ℕ → Option ℕ × TimerHeap
pop_due h now = elim (peek h) [
  | none ↦ (none, h)
  | some t ↦ if ltb now (h.timers t).deadline_ns then (none, h) else (some t, cancel h t)
]

-- The number of whole intervals up to the next deadline.
unfoldable pub periods : ℕ → ℕ → ℕ → ℕ
periods previous interval now =
    if leb previous now then ((now - previous) / interval + 1) % u64_mod else 1

unfoldable pub reschedule_fixed : (ℕ → Bool) → TimerHeap → ℕ → ℕ → Bool × TimerHeap
reschedule_fixed realloc h t now =
    let previous = (h.timers t).deadline_ns in
    let interval = (h.timers t).interval_ns in
    let count = periods previous interval now in
    if (h.timers t).active || (interval == 0)
    then (false, h)
    else if ltb ((u64_max - previous) / interval) count
    then (false, h)
    else add realloc h t (previous + count * interval) interval (h.timers t).userdata
