-- ===== src/Output/Flushing.antt =====
-- What flush of src/output.c does to the stream of frames.
use mathlib.Core.List.{append_assoc, append-nil}
use mathlib.Core.Path.{subst}
use native.Mathlib.Decide.{dec_lt}
use i3sd.Common.{
  ℕ, suc, ◌+◌, ◌-◌, ◌<◌, min, ◌≡◌, ◌≢◌, refl, sym, ◌∙◌, ◌⊎◌, inl, inr, true, false, some, List, [],
  ◌∷◌, ◌++◌, length, length-take, length-drop, take-all, take-append, drop, Bool-cases, arith,
}
use i3sd.Buffer.{len, clear}
use i3sd.Output.Stream.{joined, Stream}
use i3sd.Output.{
  comma, drained, Output, Answer, accepts, hung_up, interrupted, again, broken_pipe, failed, Flush,
  complete, finish, pending, chunk, flush_loop, flush_prefix, wants_prefix, flush,
}

-- A completed frame is added to the others.
complete-eq :
    (o : Output)
    → o.offset ≡ len o.current
    → 0 < len o.current
    → complete o ≡ record o {
      last_completed = o.current;
      current = clear o.last_completed;
      offset = 0;
      first_frame = false;
      prefix_written = false;
    }
unfolding complete
complete-eq o done some_bytes = ground arith

complete-bytes :
    (frames : List (List ℕ)) (written : List ℕ) (o : Output)
    → Stream frames written o
    → o.offset ≡ len o.current
    → (o.first_frame ≡ true) ⊎ (o.prefix_written ≡ true)
    → written ≡ joined (o.current.bytes ∷ frames)
unfolding joined
complete-bytes [] written o h done begun =
    let whole = take-all o.offset o.current.bytes (omega arith) in
    let plain : o.prefix_written ≡ false = ground (arith, h.first, h.comma_only) in
    h.bytes ∙ simp (plain, whole)
complete-bytes (frame ∷ frames) written o h done begun =
    let whole = take-all o.offset o.current.bytes (omega arith) in
    let behind : o.prefix_written ≡ true = ground (arith, h.first) in h.bytes ∙ simp (behind, whole)

complete-Stream :
    (frames : List (List ℕ)) (written : List ℕ) (o : Output)
    → Stream frames written o
    → o.offset ≡ len o.current
    → 0 < len o.current
    → (o.first_frame ≡ true) ⊎ (o.prefix_written ≡ true)
    → Stream (o.current.bytes ∷ frames) written (complete o)
unfolding clear
complete-Stream frames written o h done some_bytes begun =
    rw (complete-eq o done some_bytes) (record {
      bytes = complete-bytes frames written o h done begun ∙ sym (append-nil _);
      first = refl;
      last = refl;
      within = omega arith;
      begun = inl refl;
      comma_only = λ e. cc;
      fresh = λ e. absurd (omega arith);
      none_repeated = (some_bytes, h.fresh some_bytes, h.none_repeated);
      valid = record { fits = omega arith; word = h.valid_last.word };
      valid_last = h.valid;
    })

-- One answer of the loop moves the frame on.
advance-Stream :
    (frames : List (List ℕ)) (written : List ℕ) (o : Output) (budget n : ℕ)
    → Stream frames written o
    → (o.first_frame ≡ true) ⊎ (o.prefix_written ≡ true)
    → Stream frames
        (written ++ chunk o budget n)
        (record o { offset = o.offset + length (chunk o budget n) })
advance-Stream frames written o budget n h begun =
    let k = min (suc n) (min (len o.current - o.offset) budget) in
    let cut = length-take k (drop o.offset o.current.bytes) in
    let left = length-drop o.offset o.current.bytes in
    let size : length (chunk o budget n) ≡ k = omega arith in
    record {
      bytes =
          rw
            (
              h.bytes,
              take-append o.offset k (o.offset + length (chunk o budget n)) o.current.bytes
                  (omega arith),
            )
            (simp append_assoc);
      first = h.first;
      last = h.last;
      within = omega arith;
      begun = inr begun;
      comma_only = h.comma_only;
      fresh = h.fresh;
      none_repeated = h.none_repeated;
      valid = h.valid;
      valid_last = h.valid_last;
    }

-- How a call of flush has left the stream: still in the middle of the same frame, or behind it.
pub data Sends (frames : List (List ℕ)) (written frame : List ℕ) (r : Flush) : Type 0 where
  underway :
      Stream frames (written ++ r.sent) r.output
      → r.output.current.bytes ≡ frame
      → Sends frames written frame r
  completed :
      Stream (frame ∷ frames) (written ++ r.sent) r.output
      → 0 < length frame
      → r.result ≡ drained
      → Sends frames written frame r

Sends-some :
    (frames : List (List ℕ)) (written frame : List ℕ) (r r' : Flush)
    → some r ≡ some r'
    → Sends frames written frame r
    → Sends frames written frame r'
Sends-some frames written frame r r' e h =
    let same : r ≡ r' = cc in subst (Sends frames written frame) same h

complete-ne : (o : Output) → o.offset ≢ len o.current → complete o ≡ o
unfolding complete
complete-ne o h = ground arith

complete-empty : (o : Output) → len o.current ≡ 0 → complete o ≡ o
unfolding complete
complete-empty o h = ground arith

-- The output is behind a frame, or has not changed.
finish-Sends :
    (frames : List (List ℕ)) (written sent : List ℕ) (o : Output) (r : Flush)
    → Stream frames (written ++ sent) o
    → finish o sent ≡ some r
    → Sends frames written o.current.bytes r
unfolding finish
finish-Sends frames written sent o r h e =
    Sends-some frames written o.current.bytes _ r e (elim (dec_lt o.offset (len o.current)) [
      | yes short ↦ (let same = complete-ne o (omega arith) in rw same (underway h refl))
      | no done ↦ elim (dec_lt 0 (len o.current)) [
        | no nothing ↦ rw (complete-empty o (omega arith)) (underway h refl)
        | yes some_bytes ↦
            (let whole : o.offset ≡ len o.current = omega (arith, h.within) in
              let begun : (o.first_frame ≡ true) ⊎ (o.prefix_written ≡ true) =
                ground (arith, h.begun) in
              completed (complete-Stream frames (written ++ sent) o h whole some_bytes begun)
                some_bytes (rw (complete-eq o whole some_bytes) (unfold clear in refl)))
      ]
    ])

pending_pos :
    (o : Output) (budget : ℕ) → pending o budget ≡ true → (0 < budget) × (0 < len o.current)
pending_pos o budget h = ground arith

-- The loop, from a frame whose comma is out if it needs one.
flush_loop-Sends :
    (frames : List (List ℕ)) (written : List ℕ) (o : Output) (budget : ℕ) (sent : List ℕ)
    (answers : List Answer) (r : Flush)
    → Stream frames (written ++ sent) o
    → (0 < budget → 0 < len o.current → (o.first_frame ≡ true) ⊎ (o.prefix_written ≡ true))
    → flush_loop o budget sent answers ≡ some r
    → Sends frames written o.current.bytes r
unfolding flush_loop
flush_loop-Sends frames written o budget sent [] r h ready e =
    elim (Bool-cases (pending o budget)) [
      | inl more ↦ absurd (ground arith)
      | inr idle ↦ finish-Sends frames written sent o r h (rw idle at e)
    ]
flush_loop-Sends frames written o budget sent (accepts n ∷ answers) r h ready e =
    elim (Bool-cases (pending o budget)) [
      | inr idle ↦ finish-Sends frames written sent o r h (rw idle at e)
      | inl more ↦
          (let begun : (o.first_frame ≡ true) ⊎ (o.prefix_written ≡ true) =
              ready (pending_pos o budget more).0 (pending_pos o budget more).1 in
            let moved = advance-Stream frames (written ++ sent) o budget n h begun in
            flush_loop-Sends frames written
              (record o { offset = o.offset + length (chunk o budget n) })
              (budget - length (chunk o budget n)) (sent ++ chunk o budget n) answers r
              (rw append_assoc at moved) (λ _ _. begun) (rw more at e))
    ]
flush_loop-Sends frames written o budget sent (interrupted ∷ answers) r h ready e =
    elim (Bool-cases (pending o budget)) [
      | inr idle ↦ finish-Sends frames written sent o r h (rw idle at e)
      | inl more ↦ flush_loop-Sends frames written o budget sent answers r h ready (rw more at e)
    ]
flush_loop-Sends frames written o budget sent (hung_up ∷ answers) r h ready e =
    elim (Bool-cases (pending o budget)) [
      | inr idle ↦ finish-Sends frames written sent o r h (rw idle at e)
      | inl more ↦ Sends-some frames written o.current.bytes _ r (rw more at e) (underway h refl)
    ]
flush_loop-Sends frames written o budget sent (again ∷ answers) r h ready e =
    elim (Bool-cases (pending o budget)) [
      | inr idle ↦ finish-Sends frames written sent o r h (rw idle at e)
      | inl more ↦ Sends-some frames written o.current.bytes _ r (rw more at e) (underway h refl)
    ]
flush_loop-Sends frames written o budget sent (broken_pipe ∷ answers) r h ready e =
    elim (Bool-cases (pending o budget)) [
      | inr idle ↦ finish-Sends frames written sent o r h (rw idle at e)
      | inl more ↦ Sends-some frames written o.current.bytes _ r (rw more at e) (underway h refl)
    ]
flush_loop-Sends frames written o budget sent (failed errno ∷ answers) r h ready e =
    elim (Bool-cases (pending o budget)) [
      | inr idle ↦ finish-Sends frames written sent o r h (rw idle at e)
      | inl more ↦ Sends-some frames written o.current.bytes _ r (rw more at e) (underway h refl)
    ]

comma-Stream :
    (frames : List (List ℕ)) (written : List ℕ) (o : Output)
    → Stream frames written o
    → o.first_frame ≡ false
    → o.prefix_written ≡ false
    → 0 < len o.current
    → Stream frames (written ++ comma ∷ []) (record o { prefix_written = true })
comma-Stream frames written o h p q some_bytes =
    let start : o.offset ≡ 0 = ground (arith, h.begun) in
    let clean : written ≡ joined frames = h.bytes ∙ simp (q, start, append-nil) in
    record {
      bytes = rw clean (simp start);
      first = h.first;
      last = h.last;
      within = h.within;
      begun = inl start;
      comma_only = λ _. (p, some_bytes);
      fresh = h.fresh;
      none_repeated = h.none_repeated;
      valid = h.valid;
      valid_last = h.valid_last;
    }

wants :
    (o : Output) (budget : ℕ)
    → wants_prefix o budget ≡ true
    → (o.first_frame ≡ false) × (o.prefix_written ≡ false) × (0 < len o.current)
wants o budget h = ground arith

no_wants :
    (o : Output) (budget : ℕ)
    → wants_prefix o budget ≡ false
    → 0 < budget
    → 0 < len o.current
    → (o.first_frame ≡ true) ⊎ (o.prefix_written ≡ true)
no_wants o budget h p q = elim (Bool-cases o.first_frame) [
  | inl first ↦ inl first
  | inr later ↦ elim (Bool-cases o.prefix_written) [
    | inl out ↦ inr out
    | inr clean ↦ absurd (ground arith)
  ]
]

written-nil :
    {frames : List (List ℕ)} {written : List ℕ} {o : Output}
    → Stream frames written o
    → Stream frames (written ++ []) o
written-nil {written = written} h = rw (append-nil written) h

flush_prefix-Sends :
    (frames : List (List ℕ)) (written : List ℕ) (o : Output) (budget : ℕ) (answer : Answer)
    (answers : List Answer) (r : Flush)
    → Stream frames written o
    → wants_prefix o budget ≡ true
    → flush_prefix o budget answer answers ≡ some r
    → Sends frames written o.current.bytes r
unfolding flush_prefix
flush_prefix-Sends frames written o budget (accepts n) answers r h w e =
    let (first, clear, some_bytes) = wants o budget w in
    flush_loop-Sends frames written (record o { prefix_written = true }) (budget - 1) (comma ∷ [])
      answers r (comma-Stream frames written o h first clear some_bytes) (λ _ _. inr refl) e
flush_prefix-Sends frames written o budget hung_up answers r h w e =
    Sends-some frames written o.current.bytes _ r e (underway (written-nil h) refl)
flush_prefix-Sends frames written o budget interrupted answers r h w e =
    Sends-some frames written o.current.bytes _ r e (underway (written-nil h) refl)
flush_prefix-Sends frames written o budget again answers r h w e =
    Sends-some frames written o.current.bytes _ r e (underway (written-nil h) refl)
flush_prefix-Sends frames written o budget broken_pipe answers r h w e =
    Sends-some frames written o.current.bytes _ r e (underway (written-nil h) refl)
flush_prefix-Sends frames written o budget (failed errno) answers r h w e =
    Sends-some frames written o.current.bytes _ r e (underway (written-nil h) refl)

-- From an output that is in the middle of the stream of some completed frames, a flush that returns,
-- with any budget and any answers of the write function, keeps the stream in order: all the bytes
-- written so far are the completed frames with a comma between any two, then the comma and the part
-- of the frame in progress that are out. Either the frame in progress is still the same, or it has
-- been completed, it was not empty, and the flush returns drained.
pub flush-Sends :
    (frames : List (List ℕ)) (written : List ℕ) (o : Output) (budget : ℕ) (answers : List Answer)
    (r : Flush)
    → Stream frames written o
    → flush o budget answers ≡ some r
    → Sends frames written o.current.bytes r
unfolding flush
flush-Sends frames written o budget [] r h e = elim (Bool-cases (wants_prefix o budget)) [
  | inl w ↦ absurd (ground arith)
  | inr w ↦
      flush_loop-Sends frames written o budget [] [] r (written-nil h) (no_wants o budget w)
        (rw w at e)
]
flush-Sends frames written o budget (answer ∷ answers) r h e =
    elim (Bool-cases (wants_prefix o budget)) [
      | inl w ↦ flush_prefix-Sends frames written o budget answer answers r h w (rw w at e)
      | inr w ↦
          flush_loop-Sends frames written o budget [] (answer ∷ answers) r (written-nil h)
            (no_wants o budget w) (rw w at e)
    ]
