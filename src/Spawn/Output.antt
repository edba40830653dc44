-- ===== src/Spawn/Output.antt =====
-- The output of a child that src/spawn.c keeps.
use mathlib.Core.List.{append_assoc, append-nil}
use i3sd.Common.{
  ℕ, zero, suc, length-take, ◌+◌, ◌-◌, min, ◌≤◌, ◌<◌, ◌≡◌, ◌⊎◌, inl, inr, refl, sym, ap, ◌∙◌, Bool,
  true, false, ◌||◌, ltb, List, [], ◌∷◌, ◌++◌, length, take, length-append, take-all,
  take-append-past, Bool-cases, u64_mod, arith,
}
use i3sd.Buffer.{Buffer, len, append}
use i3sd.Buffer.Bounds.{IsValid, Appended, added, refused, append-Appended, append-ok}
use i3sd.Spawn.{Process}
use i3sd.Spawn.Reading.{keep_output}

-- Chunks that are read one after the other.
unfoldable pub keep_all : (ℕ → Bool) → Process → List (List ℕ) → Process
keep_all realloc p [] = p
keep_all realloc p (chunk ∷ chunks) = keep_all realloc (keep_output realloc p chunk) chunks

abbrev pub joined : List (List ℕ) → List ℕ
joined [] = []
joined (chunk ∷ chunks) = chunk ++ joined chunks

-- A buffer within the limit of its process.
pub record IsBounded (p : Process) : Type 0 where
  pub valid : IsValid p.output
  pub within : len p.output ≤ p.output_limit
  pub word : p.output_limit < u64_mod

-- What is kept of more output: all of it, within the limit, if no overflow is noted.
pub record Kept (p : Process) (more : List ℕ) (p' : Process) : Type 0 where
  pub bounded : IsBounded p'
  pub same_limit : p'.output_limit ≡ p.output_limit
  pub complete :
      p'.overflow ≡ false → (p.overflow ≡ false) × (p'.output.bytes ≡ p.output.bytes ++ more)

-- What is kept of more output where memory is found: all that lies within the limit, and a cut is noted.
pub record Cut (p : Process) (more : List ℕ) (p' : Process) : Type 0 where
  pub bytes : p'.output.bytes ≡ take p.output_limit (p.output.bytes ++ more)
  pub overflow : p'.overflow ≡ (p.overflow || ltb p.output_limit (len p.output + length more))

Appended-cases :
    (b : Buffer) (chunk : List ℕ) (limit : ℕ) (r : Bool × Buffer)
    → Appended b chunk limit r
    → ((r.0 ≡ true) × (r.1.bytes ≡ b.bytes ++ chunk) × (len r.1 ≤ limit))
      ⊎ ((r.0 ≡ false) × (r.1 ≡ b))
Appended-cases b chunk limit r (added a e l) = inl (a, e, l)
Appended-cases b chunk limit r (refused a e) = inr (a, e)

length-zero : (xs : List ℕ) → length xs ≡ 0 → xs ≡ []
length-zero [] h = refl
length-zero (x ∷ xs) h = absurd (omega arith)

module _ (realloc : ℕ → Bool) (p : Process) (chunk : List ℕ) where
  abbrev retained : ℕ
  retained = min (length chunk) (p.output_limit - len p.output)

  abbrev result : Bool × Buffer
  result = append realloc p.output (take retained chunk) p.output_limit

  nothing_more :
      ltb 0 retained ≡ false
      → ltb retained (length chunk) ≡ false
      → p.output.bytes ≡ p.output.bytes ++ chunk
  nothing_more none_kept none_lost =
      let empty_chunk : chunk ≡ [] = length-zero chunk (ground arith) in
      rw empty_chunk (sym (append-nil p.output.bytes))

  keep_output-Kept : IsBounded p → Kept p chunk (keep_output realloc p chunk)
  unfolding keep_output
  keep_output-Kept b =
      let (valid, cap, how) =
        append-Appended realloc p.output (take retained chunk) p.output_limit b.valid b.word in
      elim (Bool-cases (ltb 0 retained)) [
        | inr nothing ↦ rw nothing (record {
          bounded = record { valid = b.valid; within = b.within; word = b.word };
          same_limit = refl;
          complete = λ clear. (ground arith, nothing_more nothing (ground arith));
        })
        | inl something ↦
            elim (Appended-cases p.output (take retained chunk) p.output_limit result how) [
              | inl (done, same, within) ↦
                  rw (something, done)
                    (record {
                      bounded = record { valid = valid; within = within; word = b.word };
                      same_limit = refl;
                      complete = λ clear. (
                        ground arith,
                        same
                            ∙ ap (λ (xs : List ℕ). p.output.bytes ++ xs)
                                (take-all retained chunk (ground arith)),
                      );
                    })
              | inr (failed, same) ↦
                  rw (something, failed)
                    (record {
                      bounded = record { valid = valid; within = rw same b.within; word = b.word };
                      same_limit = refl;
                      complete = λ clear. absurd (ground arith);
                    })
            ]
      ]

  take-retained : (n : ℕ) → take (min (length chunk) n) chunk ≡ take n chunk
  take-retained n = elim (Bool-cases (ltb n (length chunk))) [
    | inl less ↦ ap (λ m. take m chunk) (ground arith)
    | inr all ↦
        take-all (min (length chunk) n) chunk (ground arith) ∙ sym (take-all n chunk (ground arith))
  ]

  -- With memory, the old output and the chunk are cut at the limit, and a cut is noted.
  keep_output-Cut :
      ((size : ℕ) → realloc size ≡ true) → IsBounded p → Cut p chunk (keep_output realloc p chunk)
  unfolding keep_output
  keep_output-Cut found b =
      let avail = p.output_limit - len p.output in
      let room : p.output_limit ≡ len p.output + avail = omega (arith, b.within) in
      let cut : take p.output_limit (p.output.bytes ++ chunk)
          ≡ p.output.bytes ++ take retained chunk =
        ap (λ n. take n (p.output.bytes ++ chunk)) room
        ∙ take-append-past p.output.bytes chunk avail
        ∙ ap (λ (xs : List ℕ). p.output.bytes ++ xs) (sym (take-retained avail)) in
      let done =
        append-ok realloc p.output (take retained chunk) p.output_limit found b.word
          (omega (arith, room, length-take retained chunk)) in
      let (valid, cap, how) =
        append-Appended realloc p.output (take retained chunk) p.output_limit b.valid b.word in
      record {
        bytes = elim (Bool-cases (ltb 0 retained)) [
          | inl something ↦
              rw something
                (elim (Appended-cases p.output (take retained chunk) p.output_limit result how) [
                  | inl (ok, same, within) ↦ same ∙ sym cut
                  | inr (failed, same) ↦ absurd (ground (arith, done))
                ])
          | inr nothing ↦
              let none_kept : retained ≡ 0 = ground arith in
              rw nothing (
                sym (append-nil p.output.bytes)
                ∙ ap (λ n. p.output.bytes ++ take n chunk) (sym none_kept)
                ∙ sym cut)
        ];
        overflow = ground (arith, done, room);
      }

pub keep_all-Kept :
    (realloc : ℕ → Bool) (p : Process) (chunks : List (List ℕ))
    → IsBounded p
    → Kept p (joined chunks) (keep_all realloc p chunks)
unfolding keep_all
keep_all-Kept realloc p [] b = record {
  bounded = b;
  same_limit = refl;
  complete = λ clear. (clear, sym (append-nil p.output.bytes));
}
keep_all-Kept realloc p (chunk ∷ chunks) b =
    let first = keep_output-Kept realloc p chunk b in
    let rest = keep_all-Kept realloc (keep_output realloc p chunk) chunks first.bounded in
    record {
      bounded = rest.bounded;
      same_limit = rest.same_limit ∙ first.same_limit;
      complete = λ clear.
          let (middle, then_all) = rest.complete clear in
          let (start, then_chunk) = first.complete middle in
          (
            start,
            then_all
                ∙ ap (λ (xs : List ℕ). xs ++ joined chunks) then_chunk
                ∙ append_assoc p.output.bytes chunk (joined chunks),
          );
    }

take-cut : (n : ℕ) (xs ys : List ℕ) → take n (take n xs ++ ys) ≡ take n (xs ++ ys)
take-cut zero xs ys = refl
take-cut (suc n) [] ys = refl
take-cut (suc n) (x ∷ xs) ys = ap (◌∷◌ x) (take-cut n xs ys)

pub keep_all-Cut :
    (realloc : ℕ → Bool) (p : Process) (chunks : List (List ℕ))
    → ((size : ℕ) → realloc size ≡ true)
    → IsBounded p
    → Cut p (joined chunks) (keep_all realloc p chunks)
unfolding keep_all
keep_all-Cut realloc p [] found b = record {
  bytes = sym (
      ap (take p.output_limit) (append-nil p.output.bytes)
      ∙ take-all p.output_limit p.output.bytes b.within);
  overflow = ground (arith, b.within);
}
keep_all-Cut realloc p (chunk ∷ chunks) found b =
    let kept = keep_output-Kept realloc p chunk b in
    let first = keep_output-Cut realloc p chunk found b in
    let p' = keep_output realloc p chunk in
    let rest = keep_all-Cut realloc p' chunks found kept.bounded in
    let limit = p.output_limit in
    let size : len p'.output ≡ min limit (len p.output + length chunk) =
      ap length first.bytes
      ∙ length-take limit (p.output.bytes ++ chunk)
      ∙ ap (min limit) (length-append p.output.bytes chunk) in
    record {
      bytes =
          rest.bytes
          ∙ ap (λ n. take n (p'.output.bytes ++ joined chunks)) kept.same_limit
          ∙ ap (λ (xs : List ℕ). take limit (xs ++ joined chunks)) first.bytes
          ∙ take-cut limit (p.output.bytes ++ chunk) (joined chunks)
          ∙ ap (take limit) (append_assoc p.output.bytes chunk (joined chunks));
      overflow =
          rest.overflow
          ∙ ground
              (arith, first.overflow, size, kept.same_limit, length-append chunk (joined chunks));
    }
