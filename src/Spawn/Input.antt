-- ===== src/Spawn/Input.antt =====
-- src/spawn.c, the calls by which a child starts: write_input and start_child.
use i3sd.Common.{
  ℕ, suc, ◌+◌, ◌≤◌, ◌<◌, ◌≡◌, ◌≢◌, refl, sym, ap, Bool, true, false, not, Option, none, some, List,
  [], ◌∷◌, ◌++◌, ◌==◌, if◌then◌else◌, length, take, drop, take-append-drop, take-append,
  length-drop, ◌∙◌, arith,
}

-- What one `write` answers: up to `suc n` of the bytes that it is given are taken; or EINTR; or nothing
-- is taken, or another error.
pub data WriteAnswer : Type 0 where
  wrote : ℕ → WriteAnswer
  interrupted failed : WriteAnswer

abbrev pub more_written : List ℕ → Option (Bool × List ℕ) → Option (Bool × List ℕ)
more_written front none = none
more_written front (some (done, sent)) = some (done, front ++ sent)

-- The bytes that are left to write, and the answers of the calls: whether all are written, and what is;
-- none where the answers run out.
unfoldable pub write_input : List WriteAnswer → List ℕ → Option (Bool × List ℕ)
write_input answers [] = some (true, [])
write_input [] (b ∷ input) = none
write_input (wrote n ∷ answers) (b ∷ input) =
    more_written (take (suc n) (b ∷ input)) (write_input answers (drop (suc n) (b ∷ input)))
write_input (interrupted ∷ answers) (b ∷ input) = write_input answers (b ∷ input)
write_input (failed ∷ answers) (b ∷ input) = some (false, [])

-- The results of the calls of start_child, 0 where they succeed.
pub record Calls : Type 0 where
  pub init_actions : ℕ
  pub init_attributes : ℕ
  pub dup_input : ℕ
  pub dup_output : ℕ
  pub set_flags : ℕ
  pub set_group : ℕ
  pub set_mask : ℕ
  pub spawn : ℕ

abbrev pub and_then : ℕ → ℕ → ℕ
and_then result next = if result == 0 then next else result

-- The result of start_child: the first that is not 0.
unfoldable pub start_child : Calls → ℕ
start_child calls =
    if not (calls.init_actions == 0)
    then calls.init_actions
    else if not (calls.init_attributes == 0)
    then calls.init_attributes
    else and_then
        (and_then
          (and_then (and_then (and_then calls.dup_input calls.dup_output) calls.set_flags)
            calls.set_group)
          calls.set_mask)
        calls.spawn

-- Whether an answer says that `write` is interrupted.
abbrev pub is_interrupted : WriteAnswer → ℕ
is_interrupted (wrote n) = 0
is_interrupted interrupted = 1
is_interrupted failed = 0

abbrev pub interruptions : List WriteAnswer → ℕ
interruptions [] = 0
interruptions (answer ∷ answers) = is_interrupted answer + interruptions answers

-- The bytes that some answers take, if all of them are still left to write.
abbrev pub accepted : List WriteAnswer → ℕ
accepted [] = 0
accepted (wrote n ∷ answers) = suc n + accepted answers
accepted (interrupted ∷ answers) = accepted answers
accepted (failed ∷ answers) = accepted answers

abbrev pub NoFailure : List WriteAnswer → Type 0
NoFailure [] = Unit {0}
NoFailure (answer ∷ answers) = (answer ≢ failed) × NoFailure answers

-- The calls before a success take the whole input, and none of them fails.
pub record AllWritten (answers : List WriteAnswer) (input sent : List ℕ) : Type 0 where
  pub before : List WriteAnswer
  pub after : List WriteAnswer
  pub calls : before ++ after ≡ answers
  pub working : NoFailure before
  pub enough : length input ≤ accepted before
  pub whole : sent ≡ input

-- The call after some that take a part of the input fails.
pub record GivenUp (answers : List WriteAnswer) (input sent : List ℕ) : Type 0 where
  pub before : List WriteAnswer
  pub after : List WriteAnswer
  pub calls : before ++ failed ∷ after ≡ answers
  pub working : NoFailure before
  pub short : accepted before < length input
  pub front : sent ≡ take (accepted before) input

abbrev pub Written : List WriteAnswer → List ℕ → Option (Bool × List ℕ) → Type 0
Written answers input none = ⊥
Written answers input (some (true, sent)) = AllWritten answers input sent
Written answers input (some (false, sent)) = GivenUp answers input sent

wrote-Written :
    (n : ℕ) (answers : List WriteAnswer) (input : List ℕ) (result : Option (Bool × List ℕ))
    → Written answers (drop (suc n) input) result
    → Written (wrote n ∷ answers) input (more_written (take (suc n) input) result)
wrote-Written n answers input none h = h
wrote-Written n answers input (some (true, sent)) h = record {
  before = wrote n ∷ h.before;
  after = h.after;
  calls = ap (◌∷◌ (wrote n)) h.calls;
  working = (λ e. cc, h.working);
  enough = omega (arith, h.enough, length-drop {0} (suc n) input);
  whole = ap (◌++◌ (take (suc n) input)) h.whole ∙ take-append-drop (suc n) input;
}
wrote-Written n answers input (some (false, sent)) h = record {
  before = wrote n ∷ h.before;
  after = h.after;
  calls = ap (◌∷◌ (wrote n)) h.calls;
  working = (λ e. cc, h.working);
  short = omega (arith, h.short, length-drop {0} (suc n) input);
  front =
      ap (◌++◌ (take (suc n) input)) h.front
      ∙ sym (take-append (suc n) (accepted h.before) (suc n + accepted h.before) input refl);
}

interrupted-Written :
    (answers : List WriteAnswer) (input : List ℕ) (result : Option (Bool × List ℕ))
    → Written answers input result
    → Written (interrupted ∷ answers) input result
interrupted-Written answers input none h = h
interrupted-Written answers input (some (true, sent)) h = record {
  before = interrupted ∷ h.before;
  after = h.after;
  calls = ap (◌∷◌ interrupted) h.calls;
  working = (λ e. cc, h.working);
  enough = h.enough;
  whole = h.whole;
}
interrupted-Written answers input (some (false, sent)) h = record {
  before = interrupted ∷ h.before;
  after = h.after;
  calls = ap (◌∷◌ interrupted) h.calls;
  working = (λ e. cc, h.working);
  short = h.short;
  front = h.front;
}

-- With as many answers as bytes, interruptions not counted, write_input returns. It returns true exactly with the
-- whole input written, by calls none of which fails; or false, where a call fails while a part of the input is left,
-- and what is written is what the calls before it took. An interrupted call is made again.
pub write_input-Written :
    (answers : List WriteAnswer) (input : List ℕ)
    → length input + interruptions answers ≤ length answers
    → Written answers input (write_input answers input)
unfolding write_input
write_input-Written answers [] h = record {
  before = [];
  after = answers;
  calls = refl;
  working = tt;
  enough = omega arith;
  whole = refl;
}
write_input-Written [] (b ∷ input) h = absurd (omega arith)
write_input-Written (wrote n ∷ answers) (b ∷ input) h =
    wrote-Written n answers (b ∷ input) (write_input answers (drop (suc n) (b ∷ input))) (
      write_input-Written answers (drop (suc n) (b ∷ input))
        (omega (arith, length-drop {0} (suc n) (b ∷ input))))
write_input-Written (interrupted ∷ answers) (b ∷ input) h =
    interrupted-Written answers (b ∷ input) (write_input answers (b ∷ input))
      (write_input-Written answers (b ∷ input) (omega arith))
write_input-Written (failed ∷ answers) (b ∷ input) h = record {
  before = [];
  after = answers;
  calls = refl;
  working = tt;
  short = omega arith;
  front = refl;
}
