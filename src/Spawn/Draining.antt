-- ===== src/Spawn/Draining.antt =====
-- What one call of i3sd_spawn_read of src/spawn.c does with the answers of `read`.
use i3sd.Common.{
  ℕ, ◌+◌, ◌≤◌, ◌<◌, ◌≡◌, inl, inr, refl, ap, ◌∙◌, Bool, true, false, not, ◌||◌, ltb, Option, some,
  List, [], ◌∷◌, ◌++◌, length, length-append, Bool-cases, arith,
}
use i3sd.Spawn.{Process, Spawns, put, Run, close_output}
use i3sd.Spawn.Slots.{put-put, put-same, put-here}
use i3sd.Spawn.Reading.{
  ReadAnswer, bytes, interrupted, would_block, ended, failed, keep_output, read_loop, read_output,
  read_budget,
}
use i3sd.Spawn.Output.{keep_all, joined, IsBounded, Kept, Cut, keep_all-Kept, keep_all-Cut}

-- The bytes that some answers bring.
abbrev pub chunks : List ReadAnswer → List (List ℕ)
chunks [] = []
chunks (bytes chunk ∷ answers) = chunk ∷ chunks answers
chunks (interrupted ∷ answers) = chunks answers
chunks (would_block ∷ answers) = chunks answers
chunks (ended ∷ answers) = chunks answers
chunks (failed ∷ answers) = chunks answers

abbrev pub amount : List ReadAnswer → ℕ
amount answers = length (joined (chunks answers))

-- Answers after which the loop goes on: bytes or EINTR, while less than the budget is consumed.
abbrev pub Drawn : ℕ → List ReadAnswer → Type 0
Drawn consumed [] = Unit {0}
Drawn consumed (bytes chunk ∷ answers) =
    (consumed < read_budget) × Drawn (consumed + length chunk) answers
Drawn consumed (interrupted ∷ answers) = (consumed < read_budget) × Drawn consumed answers
Drawn consumed (would_block ∷ answers) = ⊥
Drawn consumed (ended ∷ answers) = ⊥
Drawn consumed (failed ∷ answers) = ⊥

abbrev pub end_of : Bool → ReadAnswer
end_of true = failed
end_of false = ended

-- The loop from a process with some bytes consumed, its answers and the result. It pauses where the budget is used up or
-- no more bytes are there; or it closes the output, at its end or for an error.
pub data Drains (run : Run) (realloc : ℕ → Bool) (s : Spawns) (i : ℕ) (p : Process) (consumed : ℕ)
    (answers : List ReadAnswer) (r : Option Spawns) : Type 0 where
  used_up :
      (before after : List ReadAnswer)
      → before ++ after ≡ answers
      → Drawn consumed before
      → read_budget ≤ consumed + amount before
      → r ≡ some (put s i (keep_all realloc p (chunks before)))
      → Drains run realloc s i p consumed answers r
  waits :
      (before after : List ReadAnswer)
      → before ++ would_block ∷ after ≡ answers
      → Drawn consumed before
      → r ≡ some (put s i (keep_all realloc p (chunks before)))
      → Drains run realloc s i p consumed answers r
  closes :
      (failure : Bool) (before after : List ReadAnswer)
      → before ++ end_of failure ∷ after ≡ answers
      → Drawn consumed before
      → consumed + amount before < read_budget
      → r ≡ some (close_output run (put s i (keep_all realloc p (chunks before))) i failure)
      → Drains run realloc s i p consumed answers r

-- The answers do not run out: they come to one that is neither bytes nor EINTR, or bring the bytes of the budget.
abbrev pub Enough : ℕ → List ReadAnswer → Type 0
Enough consumed [] = read_budget ≤ consumed
Enough consumed (bytes chunk ∷ answers) = Enough (consumed + length chunk) answers
Enough consumed (interrupted ∷ answers) = Enough consumed answers
Enough consumed (would_block ∷ answers) = Unit {0}
Enough consumed (ended ∷ answers) = Unit {0}
Enough consumed (failed ∷ answers) = Unit {0}

module _ (run : Run) (realloc : ℕ → Bool) (s : Spawns) (i : ℕ) (p : Process) (consumed : ℕ)
    (answers : List ReadAnswer) (r : Option Spawns) (more : consumed < read_budget) where
  bytes-Drains :
      (chunk : List ℕ)
      → Drains run realloc s i (keep_output realloc p chunk) (consumed + length chunk) answers r
      → Drains run realloc s i p consumed (bytes chunk ∷ answers) r
  unfolding keep_all
  bytes-Drains chunk (used_up before after e drawn full same) =
      used_up (bytes chunk ∷ before) after (ap (◌∷◌ (bytes chunk)) e) (more, drawn)
        (omega (arith, full, length-append chunk (joined (chunks before)))) same
  bytes-Drains chunk (waits before after e drawn same) =
      waits (bytes chunk ∷ before) after (ap (◌∷◌ (bytes chunk)) e) (more, drawn) same
  bytes-Drains chunk (closes failure before after e drawn room same) =
      closes failure (bytes chunk ∷ before) after (ap (◌∷◌ (bytes chunk)) e) (more, drawn)
        (omega (arith, room, length-append chunk (joined (chunks before)))) same

  interrupted-Drains :
      Drains run realloc s i p consumed answers r
      → Drains run realloc s i p consumed (interrupted ∷ answers) r
  interrupted-Drains (used_up before after e drawn full same) =
      used_up (interrupted ∷ before) after (ap (◌∷◌ interrupted) e) (more, drawn) full same
  interrupted-Drains (waits before after e drawn same) =
      waits (interrupted ∷ before) after (ap (◌∷◌ interrupted) e) (more, drawn) same
  interrupted-Drains (closes failure before after e drawn room same) =
      closes failure (interrupted ∷ before) after (ap (◌∷◌ interrupted) e) (more, drawn) room same

read_loop-Drains :
    (run : Run) (realloc : ℕ → Bool) (answers : List ReadAnswer) (consumed : ℕ) (s : Spawns) (i : ℕ)
    (p : Process)
    → Enough consumed answers
    → Drains run realloc s i p consumed answers
        (read_loop run realloc answers consumed (put s i p) i)
unfolding read_loop keep_all
read_loop-Drains run realloc [] consumed s i p enough =
    used_up [] [] refl tt (omega (arith, enough)) (ground (arith, enough))
read_loop-Drains run realloc (bytes chunk ∷ answers) consumed s i p enough =
    let next : put (put s i p) i (keep_output realloc ((put s i p).spawns i) chunk)
        ≡ put s i (keep_output realloc p chunk) =
      put-put s i p _
      ∙ ap (λ (x : Process). put s i (keep_output realloc x chunk)) (put-here s i p) in
    elim (Bool-cases (ltb consumed read_budget)) [
      | inr full ↦ rw full (used_up [] (bytes chunk ∷ answers) refl tt (ground arith) refl)
      | inl more ↦
          rw (more, next)
            (bytes-Drains run realloc s i p consumed answers _ (ground arith) chunk (
              read_loop-Drains run realloc answers (consumed + length chunk) s i
                (keep_output realloc p chunk) enough))
    ]
read_loop-Drains run realloc (interrupted ∷ answers) consumed s i p enough =
    elim (Bool-cases (ltb consumed read_budget)) [
      | inr full ↦ rw full (used_up [] (interrupted ∷ answers) refl tt (ground arith) refl)
      | inl more ↦ rw more (
          interrupted-Drains run realloc s i p consumed answers _ (ground arith)
            (read_loop-Drains run realloc answers consumed s i p enough))
    ]
read_loop-Drains run realloc (would_block ∷ answers) consumed s i p enough =
    waits [] answers refl tt refl
read_loop-Drains run realloc (ended ∷ answers) consumed s i p enough =
    elim (Bool-cases (ltb consumed read_budget)) [
      | inr full ↦ rw full (used_up [] (ended ∷ answers) refl tt (ground arith) refl)
      | inl more ↦ rw more (closes false [] answers refl tt (ground arith) refl)
    ]
read_loop-Drains run realloc (failed ∷ answers) consumed s i p enough =
    elim (Bool-cases (ltb consumed read_budget)) [
      | inr full ↦ rw full (used_up [] (failed ∷ answers) refl tt (ground arith) refl)
      | inl more ↦ rw more (closes true [] answers refl tt (ground arith) refl)
    ]

-- What one call of i3sd_spawn_read does, whatever `read` answers, from an open slot whose kept output is within its
-- limit: it returns, given answers up to one that is neither bytes nor EINTR or up to 65536 bytes. The bytes that it
-- draws are kept one chunk after the other, until the budget is used up, or no bytes are there, or the output is closed
-- at its end or for an error. Whatever chunks are kept, and over however many calls, the output stays within the limit,
-- and if no overflow is noted none was noted before and every byte is kept in order; where memory is found the output
-- is exactly the old output and the chunks, cut at the limit, and an overflow is noted exactly where a byte is cut.
pub read_output-Drains :
    (run : Run) (realloc : ℕ → Bool) (answers : List ReadAnswer) (s : Spawns) (i : ℕ)
    → (s.spawns i).active ≡ true
    → (s.spawns i).output_fd ≡ true
    → IsBounded (s.spawns i)
    → Enough 0 answers
    → Drains run realloc s i (s.spawns i) 0 answers (read_output run realloc answers s i)
      × ((more : List (List ℕ))
          → Kept (s.spawns i) (joined more) (keep_all realloc (s.spawns i) more))
      × (((size : ℕ) → realloc size ≡ true)
          → (more : List (List ℕ))
          → Cut (s.spawns i) (joined more) (keep_all realloc (s.spawns i) more))
unfolding read_output
read_output-Drains run realloc answers s i active opened bounded enough =
    let p = s.spawns i in
    let loop = read_loop-Drains run realloc answers 0 s i p enough in
    let going : (not p.active || not p.output_fd) ≡ false = ground arith in
    (
      rw going (rw (put-same s i) at loop),
      λ more. keep_all-Kept realloc p more bounded,
      λ found more. keep_all-Cut realloc p more found bounded,
    )
