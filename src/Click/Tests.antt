-- ===== src/Click/Tests.antt =====
-- Runs of src/click.c, and its theorems at them.
use i3sd.Common.{ℕ, suc, ◌+◌, ◌*◌, ◌≡◌, refl, true, false, List, [], ◌∷◌, ◌++◌, arith}
use i3sd.Buffer.{empty, append_char, append, clear, reserve, grow}
use i3sd.Click.{Framer, none, destroy, is_space, Feed, feed}
use i3sd.Click.Text.{Chars, char, escape, Text, blank, plain, string, nested, nesting, memory}
use i3sd.Click.Events.{IsReady, event_bytes, Delivers, feed-Delivers}
use i3sd.Click.Chunks.{moved, then_feed, feed-append}
use i3sd.Click.Invariant.{IsWell, Kept, feed-Kept}

-- `["a\"":[1]` with the brackets of an object.
abbrev name : Chars
name = char b'a' (omega arith) (omega arith) (escape 0x22 Chars.end)

abbrev text : Text
text = string name (
    plain b':' refl refl (omega arith)
      (nested b'[' b']' refl refl (plain b'1' refl refl (omega arith) blank) blank))

abbrev framer : Framer
framer = record {
  event = record { bytes = []; cap = 0 };
  depth = 0;
  outer_seen = true;
  in_event = false;
  in_string = false;
  escaped = false;
  discarding = false;
  irrecoverable = false;
}

abbrev opened : Feed
opened = feed memory destroy (b' ' ∷ b'[' ∷ b' ' ∷ [])

opened_ready : opened ≡ record { framer = framer; result = none; consumed = 3; event = [] }
unfolding feed destroy empty
opened_ready = refl

abbrev input : List ℕ
input = event_bytes text b'}'

first_event : (feed memory framer (input ++ b',' ∷ [])).event ≡ input
unfolding feed append_char append clear reserve grow
first_event = refl

-- A bracket that closes nothing ends no event, and text between events is fatal.
fatal : (feed memory framer (b']' ∷ b'x' ∷ [])).framer.irrecoverable ≡ true
unfolding feed append_char append clear reserve grow
fatal = refl

framer-IsReady : IsReady framer
framer-IsReady = ground arith

feed-Delivers_example :
    Delivers 1 input (suc (nesting text)) (feed memory framer ((b',' ∷ []) ++ input ++ b',' ∷ []))
feed-Delivers_example =
    feed-Delivers framer (b',' ∷ []) (b',' ∷ []) text b'}' framer-IsReady
      (unfold is_space in refl, tt) refl (omega arith)

feed-append_example :
    feed memory framer ((b'{' ∷ b'[' ∷ []) ++ b']' ∷ b'}' ∷ [])
    ≡ then_feed
        (feed memory framer (b'{' ∷ b'[' ∷ []))
        (λ g. moved 2 (feed (λ k. memory (2 + k)) g (b']' ∷ b'}' ∷ [])))
feed-append_example = feed-append memory framer (b'{' ∷ b'[' ∷ []) (b']' ∷ b'}' ∷ []) refl

framer-IsWell : IsWell 0 framer
framer-IsWell = ground arith

feed-Kept_example : Kept (0 + 2 * 3) 3 (feed memory framer (b'{' ∷ b'}' ∷ b'x' ∷ []))
feed-Kept_example =
    feed-Kept memory 0 framer (b'{' ∷ b'}' ∷ b'x' ∷ []) framer-IsWell refl (omega arith)
