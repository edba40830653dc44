-- ===== src/Click.antt =====
-- src/click.c: cuts the stream of i3bar click events, an endless JSON array, into single events.
pub mod Inside
pub mod Bytes
pub mod Text
pub mod Events
pub mod Chunks
pub mod Invariant
mod Tests
use i3sd.Common.{
  ℕ, suc, ◌+◌, ◌-◌, ◌*◌, ◌%◌, Bool, true, false, not, ◌&&◌, ◌||◌, List, [], ◌∷◌, ltb, leb, ◌==◌,
  if◌then◌else◌, length, u32_mod,
}
use i3sd.Buffer.{Buffer, len, empty, clear, append_char}

abbrev pub click_max_bytes : ℕ
click_max_bytes = 64 * 1024

abbrev pub click_max_depth : ℕ
click_max_depth = 32

abbrev pub quote : ℕ
quote = 0x22

abbrev pub backslash : ℕ
backslash = 0x5c

pub data ClickResult : Type 0 where
  none event dropped fatal_framing : ClickResult

pub record Framer : Type 0 where
  pub event : Buffer
  pub depth : ℕ
  pub outer_seen : Bool
  pub in_event : Bool
  pub in_string : Bool
  pub escaped : Bool
  pub discarding : Bool
  pub irrecoverable : Bool

-- The framer of all zeros, as declared and as left by `destroy`.
unfoldable pub destroy : Framer
destroy = record {
  event = empty;
  depth = 0;
  outer_seen = false;
  in_event = false;
  in_string = false;
  escaped = false;
  discarding = false;
  irrecoverable = false;
}

unfoldable pub reset_event : Framer → Framer
reset_event f = record f {
  event = clear f.event;
  depth = 0;
  in_event = false;
  in_string = false;
  escaped = false;
  discarding = false;
}

-- `isspace` in the C locale.
unfoldable pub is_space : ℕ → Bool
is_space byte = byte == 0x20 || leb 0x09 byte && leb byte 0x0d

-- How one round of the loop ends: by `continue`, or by a `return`.
pub data Outcome : Type 0 where
  go_on : Framer → Outcome
  stop : Framer → ClickResult → Outcome

unfoldable pub fail : Framer → Outcome
fail f = stop (record f { irrecoverable = true }) fatal_framing

-- The append of the byte to the event.
unfoldable pub store : (ℕ → Bool) → Framer → ℕ → Framer
store realloc f byte =
    let (stored, buffer) = append_char realloc f.event byte click_max_bytes in
    if f.discarding
    then f
    else if stored
    then record f { event = buffer }
    else record f { event = buffer; discarding = true }

-- A byte inside a string.
unfoldable pub string_byte : Framer → ℕ → Framer
string_byte f byte =
    if f.escaped
    then record f { escaped = false }
    else if byte == backslash
    then record f { escaped = true }
    else if byte == quote
    then record f { in_string = false }
    else f

unfoldable pub open_bracket : Framer → ℕ → Framer
open_bracket f byte =
    let deeper =
      if not (byte == b'{') || not (f.depth == 1) || not (len f.event == 1)
      then record f { depth = (f.depth + 1) % u32_mod }
      else f in
    if ltb click_max_depth deeper.depth then record deeper { discarding = true } else deeper

unfoldable pub close_bracket : Framer → Outcome
close_bracket f =
    let g = record f { depth = f.depth - 1 } in
    if f.depth == 0
    then fail f
    else if not (g.depth == 0)
    then go_on g
    else if g.discarding
    then stop (reset_event g) dropped
    else stop (record g { in_event = false }) event

-- The round behind the append.
unfoldable pub classify : Framer → ℕ → Outcome
classify f byte =
    if f.in_string
    then go_on (string_byte f byte)
    else if byte == quote
    then go_on (record f { in_string = true })
    else if byte == b'{' || byte == b'['
    then go_on (open_bracket f byte)
    else if not (byte == b'}') && not (byte == b']')
    then go_on f
    else close_bracket f

unfoldable pub step : (ℕ → Bool) → Framer → ℕ → Outcome
step realloc f byte =
    if not f.outer_seen
    then (if is_space byte
        then go_on f
        else if not (byte == b'[')
        then fail f
        else go_on (record f { outer_seen = true }))
    else if not f.in_event
    then (if is_space byte || byte == b','
        then go_on f
        else if byte == b']'
        then go_on f
        else if not (byte == b'{')
        then fail f
        else (let g = record f { event = clear f.event; in_event = true; depth = 1 } in
            classify (store realloc g byte) byte))
    else classify (store realloc f byte) byte

-- What a call returns: the framer, its result, `*consumed`, and `*event` up to `*event_len`.
pub record Feed : Type 0 where
  pub framer : Framer
  pub result : ClickResult
  pub consumed : ℕ
  pub event : List ℕ

unfoldable pub delivered : ClickResult → Framer → List ℕ
delivered event f = f.event.bytes
delivered _ f = []

-- The loop. `realloc index` answers the allocations made at the byte with that index.
unfoldable pub feed_from : (ℕ → ℕ → Bool) → Framer → ℕ → List ℕ → Feed
feed_from realloc f index [] = record { framer = f; result = none; consumed = index; event = [] }
feed_from realloc f index (byte ∷ bytes) = elim (step (realloc index) f byte) [
  | go_on g ↦ feed_from realloc g (suc index) bytes
  | stop g result ↦ record {
    framer = g;
    result = result;
    consumed = suc index;
    event = delivered result g;
  }
]

unfoldable pub feed : (ℕ → ℕ → Bool) → Framer → List ℕ → Feed
unfolding feed_from delivered step classify close_bracket open_bracket string_byte store fail
    is_space reset_event
feed realloc f bytes =
    if f.irrecoverable
    then record { framer = f; result = fatal_framing; consumed = length bytes; event = [] }
    else feed_from realloc f 0 bytes
