-- ===== src/Output/Frames.antt =====
-- What set_frame of src/output.c does to the stream of frames.
use i3sd.Common.{
  ℕ, ◌≤◌, ◌<◌, ◌≡◌, ◌≢◌, refl, sym, ap, ◌∙◌, ◌⊎◌, inl, inr, Bool, true, false, not, ◌||◌, List, [],
  ltb, ◌==◌, length, list_eq, list_eq_sound, list_eq_refl, Bool-cases, arith,
}
use i3sd.Buffer.{Buffer, len, clear, append}
use i3sd.Buffer.Bounds.{IsValid, Appended, added, refused, append-Appended, no_memory-append}
use i3sd.Output.Stream.{latest, Stream}
use i3sd.Output.{frame_max_bytes, Output, keep_frame, set_frame}

-- How set_frame ends: a frame that is too long is refused; while a frame is being written only the
-- render is noted; otherwise the new frame waits, or it is the last one again and is not sent, or
-- there is no memory for it, where a reallocation to its length or more fails, and nothing waits.
pub data FrameSet (realloc : ℕ → Bool) (frames : List (List ℕ)) (o : Output) (json : List ℕ)
    (r : Bool × Output) : Type 0 where
  too_long : frame_max_bytes < length json → r ≡ (false, o) → FrameSet realloc frames o json r
  busy :
      length json ≤ frame_max_bytes
      → (o.offset ≢ 0) ⊎ (o.prefix_written ≡ true)
      → r ≡ (true, record o { render_dirty = true })
      → FrameSet realloc frames o json r
  waits :
      r.0 ≡ true
      → r.1.current.bytes ≡ json
      → json ≢ latest frames
      → r.1.render_dirty ≡ false
      → FrameSet realloc frames o json r
  repeated :
      r.0 ≡ true
      → r.1.current.bytes ≡ []
      → json ≡ latest frames
      → r.1.render_dirty ≡ false
      → FrameSet realloc frames o json r
  no_memory :
      (size : ℕ)
      → length json ≤ size
      → realloc size ≡ false
      → length json ≤ frame_max_bytes
      → r.0 ≡ false
      → r.1.current.bytes ≡ []
      → FrameSet realloc frames o json r

-- A frame that is not begun may be replaced.
replaced-Stream :
    (frames : List (List ℕ)) (written : List ℕ) (o : Output) (current : Buffer) (dirty : Bool)
    → Stream frames written o
    → o.offset ≡ 0
    → o.prefix_written ≡ false
    → IsValid current
    → (0 < len current → current.bytes ≢ latest frames)
    → Stream frames written (record o { current = current; render_dirty = dirty })
replaced-Stream frames written o current dirty h start clean valid fresh = record {
  bytes = h.bytes ∙ simp (clean, start);
  first = h.first;
  last = h.last;
  within = omega arith;
  begun = inl start;
  comma_only = λ e. absurd (ground arith);
  fresh = fresh;
  none_repeated = h.none_repeated;
  valid = valid;
  valid_last = h.valid_last;
}

not_same : (xs ys : List ℕ) → list_eq xs ys ≡ false → xs ≢ ys
not_same xs ys h e = let same : list_eq xs ys ≡ true = rw (← e) (list_eq_refl xs) in ground arith

module _ (realloc : ℕ → Bool) (frames : List (List ℕ)) (written : List ℕ) (o : Output)
    (json : List ℕ) (h : Stream frames written o) where
  dirty_Stream : Stream frames written (record o { render_dirty = true })
  dirty_Stream = record {
    bytes = h.bytes;
    first = h.first;
    last = h.last;
    within = h.within;
    begun = h.begun;
    comma_only = h.comma_only;
    fresh = h.fresh;
    none_repeated = h.none_repeated;
    valid = h.valid;
    valid_last = h.valid_last;
  }

  begun_cases :
      (not (o.offset == 0) || o.prefix_written) ≡ true → (o.offset ≢ 0) ⊎ (o.prefix_written ≡ true)
  begun_cases b = elim (Bool-cases o.prefix_written) [
    | inl out ↦ inr out
    | inr clean ↦ inl (λ e. absurd (ground arith))
  ]

  abbrev pub Keeps : Bool × Output → Type 0
  Keeps r = Stream frames written r.1 × FrameSet realloc frames o json r

  keep_frame-Keeps :
      (r : Bool × Buffer)
      → o.offset ≡ 0
      → o.prefix_written ≡ false
      → IsValid r.1
      → Appended (clear o.current) json frame_max_bytes r
      → length json ≤ frame_max_bytes
      → (r.0 ≡ false → (size : ℕ) × (length json ≤ size) × (realloc size ≡ false))
      → Keeps (keep_frame o r)
  unfolding keep_frame clear
  keep_frame-Keeps r start clean valid (refused ok old) short missing =
      let (size, large, lacking) = missing ok in
      let none_left : r.1.bytes ≡ [] = ap (λ (b : Buffer). b.bytes) old in
      rw ok (
        replaced-Stream frames written o r.1 o.render_dirty h start clean valid
            (λ some_bytes. absurd (omega (arith, ap length none_left))),
        no_memory size large lacking short refl none_left,
      )
  keep_frame-Keeps r start clean valid (added ok grown fits) short missing =
      elim (Bool-cases (list_eq o.last_completed.bytes r.1.bytes)) [
        | inl same ↦
            (let last = list_eq_sound o.last_completed.bytes r.1.bytes same in
              rw (ok, same)
                (
                  replaced-Stream frames written o (clear r.1) false h start clean
                      (record { fits = omega arith; word = valid.word })
                      (λ some_bytes. absurd (omega arith)),
                  repeated refl refl (sym grown ∙ sym last ∙ h.last) refl,
                ))
        | inr other ↦
            (let new : r.1.bytes ≢ latest frames =
                λ e. not_same o.last_completed.bytes r.1.bytes other (h.last ∙ sym e) in
              rw (ok, other)
                (
                  replaced-Stream frames written o r.1 false h start clean valid (λ _. new),
                  waits refl grown (λ e. new (grown ∙ e)) refl,
                ))
      ]

  -- A call of set_frame keeps the stream in order: no byte that is out belongs to a frame that it
  -- replaces. It ends in one of the five ways that FrameSet lists, whatever the allocations answer: it
  -- is refused for want of memory only where a reallocation fails.
  pub set_frame-Keeps : Keeps (set_frame realloc o json)
  unfolding set_frame clear
  set_frame-Keeps = elim (Bool-cases (ltb frame_max_bytes (length json))) [
    | inl long ↦ rw long (h, too_long (ground arith) refl)
    | inr fits ↦ elim (Bool-cases (not (o.offset == 0) || o.prefix_written)) [
      | inl busy_now ↦
          rw (fits, busy_now) (dirty_Stream, busy (ground arith) (begun_cases busy_now) refl)
      | inr idle ↦
          rw (fits, idle)
            (let t =
                append-Appended realloc (clear o.current) json frame_max_bytes
                  (record { fits = omega arith; word = h.valid.word }) (omega arith) in
              keep_frame-Keeps (append realloc (clear o.current) json frame_max_bytes)
                (ground arith) (ground arith) t.0 t.2 (ground arith)
                (λ failed.
                  let (size, large, lacking) =
                    no_memory-append realloc (clear o.current) json frame_max_bytes (omega arith)
                      (ground arith) failed in
                  (size, omega (arith, large), lacking)))
    ]
  ]
