-- ===== src/Output/Tests.antt =====
-- Runs of src/output.c, and its theorems at them.
use i3sd.Common.{ℕ, ◌≡◌, refl, Bool, true, false, none, some, List, [], ◌∷◌, arith}
use i3sd.Buffer.{empty, append, reserve, clear}
use i3sd.Output.{
  Output, init, set_frame, keep_frame, Answer, accepts, interrupted, again, Flush, blocked, flush,
  comma,
}
use i3sd.Output.Stream.{joined, Stream}
use i3sd.Output.Flushing.{Sends, flush-Sends}
use i3sd.Output.Frames.{Keeps, set_frame-Keeps}
use i3sd.Output.Progress.{Returns, flush-Returns}

abbrev plenty : ℕ → Bool
plenty _ = true

abbrev one : List ℕ
one = b'[' ∷ b'1' ∷ b']' ∷ []

abbrev two : List ℕ
two = b'[' ∷ b'2' ∷ b']' ∷ []

-- The output after the frame `one`, with the frame `two` waiting.
abbrev waiting : Output
waiting = record {
  last_completed = record { bytes = one; cap = 256 };
  current = record { bytes = two; cap = 256 };
  offset = 0;
  first_frame = false;
  prefix_written = false;
  render_dirty = false;
}

first_set : (set_frame plenty init one).1.current.bytes ≡ one
unfolding set_frame keep_frame append reserve init empty clear
first_set = refl

repeated_set : (set_frame plenty waiting one).1.current.bytes ≡ []
unfolding set_frame keep_frame append reserve clear
repeated_set = refl

-- The comma, two bytes, an interruption, and no room for the rest.
abbrev answers : List Answer
answers = accepts 0 ∷ accepts 1 ∷ interrupted ∷ again ∷ []

abbrev flushed : Flush
flushed = record {
  output = record waiting { offset = 2; prefix_written = true };
  result = blocked;
  error_number = none;
  sent = comma ∷ b'[' ∷ b'2' ∷ [];
}

half_way : flush waiting 8 answers ≡ some flushed
unfolding flush
half_way = refl

waiting-Stream : Stream (one ∷ []) one waiting
unfolding joined
waiting-Stream = ground arith

flush-Sends_example : Sends (one ∷ []) one two flushed
flush-Sends_example = flush-Sends (one ∷ []) one waiting 8 answers flushed waiting-Stream half_way

set_frame-Keeps_example :
    Keeps plenty (one ∷ []) one waiting one waiting-Stream (set_frame plenty waiting one)
set_frame-Keeps_example = set_frame-Keeps plenty (one ∷ []) one waiting one waiting-Stream

flush-Returns_example : Returns 3 (flush waiting 3 answers)
flush-Returns_example = flush-Returns waiting 3 answers (omega arith)
