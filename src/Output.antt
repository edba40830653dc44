-- ===== src/Output.antt =====
-- src/output.c: the writer of the i3bar protocol. It keeps one frame that is being written and the last
-- one that was completed, and survives partial writes.
pub mod Stream
pub mod Flushing
pub mod Frames
pub mod Progress
mod Tests
use i3sd.Common.{
  ℕ, suc, ◌+◌, ◌-◌, ◌*◌, min, Bool, true, false, not, ◌&&◌, ◌||◌, Option, none, some, List, [], ◌∷◌,
  ◌++◌, ltb, ◌==◌, if◌then◌else◌, length, take, drop, list_eq,
}
use i3sd.Buffer.{Buffer, len, empty, clear, append}

abbrev pub frame_max_bytes : ℕ
frame_max_bytes = 2 * 1024 * 1024

abbrev pub comma : ℕ
comma = 0x2c

pub data FlushResult : Type 0 where
  drained blocked closed error : FlushResult

pub record Output : Type 0 where
  pub last_completed : Buffer
  pub current : Buffer
  pub offset : ℕ
  pub first_frame : Bool
  pub prefix_written : Bool
  pub render_dirty : Bool

unfoldable pub init : Output
init = record {
  last_completed = empty;
  current = empty;
  offset = 0;
  first_frame = true;
  prefix_written = false;
  render_dirty = false;
}

unfoldable pub destroy : Output → Output
destroy o = record init { first_frame = false }

-- The part of set_frame behind the append, with its answer and the buffer that it leaves.
unfoldable pub keep_frame : Output → Bool × Buffer → Bool × Output
keep_frame o (appended, current) =
    let same = list_eq o.last_completed.bytes current.bytes in
    if not appended then (false, record o { current = current }) else (
      true,
      record o { current = if same then clear current else current; render_dirty = false },
    )

unfoldable pub set_frame : (ℕ → Bool) → Output → List ℕ → Bool × Output
set_frame realloc o json =
    if ltb frame_max_bytes (length json)
    then (false, o)
    else if not (o.offset == 0) || o.prefix_written
    then (true, record o { render_dirty = true })
    else keep_frame o (append realloc (clear o.current) json frame_max_bytes)

-- What one call of the write function answers: it takes up to `suc n` of the bytes that it is given,
-- or returns 0, or fails with EINTR, with EAGAIN or EWOULDBLOCK, with EPIPE, or with another errno.
pub data Answer : Type 0 where
  accepts : ℕ → Answer
  hung_up interrupted again broken_pipe : Answer
  failed : ℕ → Answer

-- What a call of flush leaves: the output, its result, `*error_number` if it is set, and the bytes
-- that the write function has taken.
pub record Flush : Type 0 where
  pub output : Output
  pub result : FlushResult
  pub error_number : Option ℕ
  pub sent : List ℕ

abbrev ends : Output → List ℕ → FlushResult → Option Flush
ends o sent result = some (record { output = o; result = result; error_number = none; sent = sent })

-- The end of flush: a frame that is written out becomes the last completed one.
unfoldable pub complete : Output → Output
complete o =
    if o.offset == len o.current && not (len o.current == 0)
    then record o {
      last_completed = o.current;
      current = clear o.last_completed;
      offset = 0;
      first_frame = false;
      prefix_written = false;
    }
    else o

unfoldable pub finish : Output → List ℕ → Option Flush
finish o sent =
    let o' = complete o in ends o' sent (if len o'.current == 0 then drained else blocked)

-- Whether the loop calls the write function again.
abbrev pub pending : Output → ℕ → Bool
pending o budget = ltb o.offset (len o.current) && ltb 0 budget

abbrev pub chunk : Output → ℕ → ℕ → List ℕ
chunk o budget n =
    take (min (suc n) (min (len o.current - o.offset) budget)) (drop o.offset o.current.bytes)

-- The loop, with the bytes taken so far in this call and the answers to come. `none` says that it waits
-- for an answer that is not there.
unfoldable pub flush_loop : Output → ℕ → List ℕ → List Answer → Option Flush
flush_loop o budget sent [] = if pending o budget then none else finish o sent
flush_loop o budget sent (answer ∷ answers) =
    let rest : Option Flush = elim answer [
      | accepts n ↦
          (let written = chunk o budget n in
            flush_loop (record o { offset = o.offset + length written }) (budget - length written)
              (sent ++ written) answers)
      | hung_up ↦ ends o sent closed
      | interrupted ↦ flush_loop o budget sent answers
      | again ↦ ends o sent blocked
      | broken_pipe ↦ ends o sent closed
      | failed errno ↦
          some (record { output = o; result = error; error_number = some errno; sent = sent })
    ] in
    if pending o budget then rest else finish o sent

-- The write of the comma between two frames, which takes one byte.
unfoldable pub flush_prefix : Output → ℕ → Answer → List Answer → Option Flush
flush_prefix o budget (accepts n) answers =
    flush_loop (record o { prefix_written = true }) (budget - 1) (comma ∷ []) answers
flush_prefix o budget hung_up answers = ends o [] closed
flush_prefix o budget interrupted answers = ends o [] blocked
flush_prefix o budget again answers = ends o [] blocked
flush_prefix o budget broken_pipe answers = ends o [] closed
flush_prefix o budget (failed errno) answers =
    some (record { output = o; result = error; error_number = some errno; sent = [] })

abbrev pub wants_prefix : Output → ℕ → Bool
wants_prefix o budget =
    not o.first_frame && not o.prefix_written && not (len o.current == 0) && ltb 0 budget

unfoldable pub flush : Output → ℕ → List Answer → Option Flush
unfolding flush_loop flush_prefix finish complete
flush o budget [] = if wants_prefix o budget then none else flush_loop o budget [] []
flush o budget (answer ∷ answers) =
    if wants_prefix o budget
    then flush_prefix o budget answer answers
    else flush_loop o budget [] (answer ∷ answers)

unfoldable pub has_pending : Output → Bool
has_pending o = ltb o.offset (len o.current)
