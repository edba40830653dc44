-- ===== src/Click/Invariant.antt =====
-- What always holds of the framer of src/click.c, whatever the input and the allocations.
use i3sd.Common.{
  ℕ, suc, ◌+◌, ◌*◌, ◌%◌, ◌≤◌, ◌<◌, ◌≡◌, refl, ap, inl, inr, Bool, true, false, List, [], ◌∷◌,
  length, u32_mod, Bool-cases, arith,
}
use i3sd.Buffer.{Buffer, len, clear, append_char}
use i3sd.Buffer.Bounds.{IsValid, added, refused, append-Appended}
use i3sd.Click.{
  Framer, click_max_bytes, ClickResult, none, event, dropped, fatal_framing, Outcome, go_on, stop,
  fail, step, store, string_byte, open_bracket, close_bracket, classify, reset_event, Feed,
  feed_from, feed, delivered,
}
use i3sd.Click.Chunks.{Outcome-cases, feed_from-nil, feed_alive, feed_from-go_on, feed_from-stop}

-- The event buffer is valid and small; between events the framer is in no string and drops nothing;
-- inside one it is at least one bracket deep, and at most `n`.
pub record IsWell (n : ℕ) (f : Framer) : Type 0 where
  pub valid : IsValid f.event
  pub small : len f.event ≤ click_max_bytes
  pub capped : f.event.cap ≤ click_max_bytes
  pub level : f.depth ≤ n
  pub early : f.outer_seen ≡ false → f.in_event ≡ false
  pub quiet : f.in_string ≡ false → f.escaped ≡ false
  pub deep : f.in_event ≡ true → 1 ≤ f.depth
  pub calm :
      f.in_event ≡ false → (f.in_string ≡ false) × (f.escaped ≡ false) × (f.discarding ≡ false)

-- The same, where the round reads a byte of an event.
store-IsWell :
    (realloc : ℕ → Bool) (n : ℕ) (f : Framer) (byte : ℕ)
    → IsWell n f
    → f.in_event ≡ true
    → IsWell n (store realloc f byte) × ((store realloc f byte).in_event ≡ true)
unfolding store append_char
store-IsWell realloc n f byte h e =
    let (valid, capped, result) =
      append-Appended realloc f.event (byte ∷ []) click_max_bytes h.valid (omega arith) in
    elim result [
      | added ok grown fits ↦ ground arith
      | refused ok old ↦
          (let same = ap len old in let cap = ap (λ (b : Buffer). b.cap) old in ground arith)
    ]

-- What a round leaves: the invariant, and no failure from inside an event.
abbrev pub Leaves : ℕ → Outcome → Type 0
Leaves n (go_on g) = IsWell n g
Leaves n (stop g r) = IsWell n g × (r ≡ fatal_framing → g.in_event ≡ false)

string_byte-IsWell :
    (n : ℕ) (f : Framer) (byte : ℕ)
    → IsWell n f
    → f.in_event ≡ true
    → f.in_string ≡ true
    → IsWell (suc n) (string_byte f byte)
unfolding string_byte
string_byte-IsWell n f byte h e s = let deep = h.deep e in ground arith

open_bracket-IsWell :
    (n : ℕ) (f : Framer) (byte : ℕ)
    → IsWell n f
    → f.in_event ≡ true
    → suc n < u32_mod
    → IsWell (suc n) (open_bracket f byte)
unfolding open_bracket
open_bracket-IsWell n f byte h e small =
    let exact : (f.depth + 1) % u32_mod ≡ f.depth + 1 = omega (arith, h.level) in
    let deep = h.deep e in ground arith

close_bracket-IsWell :
    (n : ℕ) (f : Framer)
    → IsWell n f
    → f.in_event ≡ true
    → f.in_string ≡ false
    → Leaves (suc n) (close_bracket f)
unfolding close_bracket fail reset_event clear
close_bracket-IsWell n f h e s = let deep = h.deep e in ground arith

classify-Leaves :
    (n : ℕ) (f : Framer) (byte : ℕ)
    → IsWell n f
    → f.in_event ≡ true
    → suc n < u32_mod
    → Leaves (suc n) (classify f byte)
unfolding classify
classify-Leaves n f byte h e small = elim (Bool-cases f.in_string) [
  | inl inside ↦ simp inside (string_byte-IsWell n f byte h e inside)
  | inr outside ↦
      ground (arith, open_bracket-IsWell n f byte h e small, close_bracket-IsWell n f h e outside)
]

Leaves-suc : (n : ℕ) (o : Outcome) → Leaves n o → Leaves (suc n) o
Leaves-suc n (go_on g) h = ground arith
Leaves-suc n (stop g r) h = ground arith

begun :
    (n : ℕ) (f : Framer)
    → IsWell n f
    → f.outer_seen ≡ true
    → IsWell (suc n) (record f { event = clear f.event; in_event = true; depth = 1 })
unfolding clear
begun n f h seen = ground arith

-- A round keeps the invariant.
step-Leaves :
    (realloc : ℕ → Bool) (n : ℕ) (f : Framer) (byte : ℕ)
    → IsWell n f
    → suc (suc n) < u32_mod
    → Leaves (suc (suc n)) (step realloc f byte)
unfolding step fail
step-Leaves realloc n f byte h small = elim (Bool-cases f.in_event) [
  | inl inside ↦
      (let (k, e) = store-IsWell realloc n f byte h inside in
        let l = classify-Leaves n (store realloc f byte) byte k e (omega arith) in
        let seen : f.outer_seen ≡ true = ground (arith, h.early) in
        simp (inside, seen) (Leaves-suc (suc n) _ l))
  | inr outside ↦ elim (Bool-cases f.outer_seen) [
    | inr unseen ↦ ground (arith, h.calm outside)
    | inl seen ↦
        (let g = record f { event = clear f.event; in_event = true; depth = 1 } in
          let (k, e) = store-IsWell realloc (suc n) g byte (begun n f h seen) refl in
          let l = classify-Leaves (suc n) (store realloc g byte) byte k e small in
          ground (arith, h.calm outside))
  ]
]

-- What a call leaves, after which a framer that was at most `n` deep is at most `n` plus twice the
-- number of bytes deep.
pub record Kept (n limit : ℕ) (r : Feed) : Type 0 where
  pub well : IsWell n r.framer
  pub consumed : r.consumed ≤ limit
  pub outside : r.result ≡ fatal_framing → r.framer.in_event ≡ false
  pub small : length r.event ≤ click_max_bytes

delivered-small :
    (n : ℕ) (r : ClickResult) (g : Framer) → IsWell n g → length (delivered r g) ≤ click_max_bytes
unfolding delivered
delivered-small n event g h = h.small
delivered-small n none g h = omega arith
delivered-small n dropped g h = omega arith
delivered-small n fatal_framing g h = omega arith

IsWell-le : (n m : ℕ) (f : Framer) → n ≤ m → IsWell n f → IsWell m f
IsWell-le n m f p h = ground arith

feed_from-Kept :
    (realloc : ℕ → ℕ → Bool) (n : ℕ) (f : Framer) (index : ℕ) (bytes : List ℕ)
    → IsWell n f
    → n + 2 * length bytes < u32_mod
    → Kept (n + 2 * length bytes) (index + length bytes) (feed_from realloc f index bytes)
feed_from-Kept realloc n f index [] h small = rw (feed_from-nil realloc f index) (record {
  well = IsWell-le n (n + 2 * 0) f (omega arith) h;
  consumed = omega arith;
  outside = λ e. absurd (ground arith);
  small = omega arith;
})
feed_from-Kept realloc n f index (byte ∷ bytes) h small =
    let left = step-Leaves (realloc index) n f byte h (omega arith) in
    elim (Outcome-cases (step (realloc index) f byte)) [
      | inl (g, p) ↦
          (let well : IsWell (suc (suc n)) g = rw p at left in
            let k = feed_from-Kept realloc (suc (suc n)) g (suc index) bytes well (omega arith) in
            rw (feed_from-go_on realloc f g index byte bytes p) (record {
              well = IsWell-le _ _ _ (omega arith) k.well;
              consumed = omega (arith, k.consumed);
              outside = k.outside;
              small = k.small;
            }))
      | inr (g, r, p) ↦
          (let (well, outside) : IsWell (suc (suc n)) g × (r ≡ fatal_framing → g.in_event ≡ false) =
              rw p at left in
            rw (feed_from-stop realloc f g r index byte bytes p) (record {
              well = IsWell-le _ _ _ (omega arith) well;
              consumed = omega arith;
              outside = outside;
              small = delivered-small _ r g well;
            }))
    ]

-- Whatever the bytes and whatever the allocations answer: from a framer that satisfies the
-- invariant at depth n, a call with fewer bytes than could overflow the 32-bit depth counter
-- (n plus twice their number below 2 ^ 32) leaves such a framer again, whose buffer is valid and has
-- at most 65536 bytes of capacity. It consumes no more bytes than it is given, delivers at most
-- 65536, and if the framer could still go on before, fatal framing is reported only outside an event: the
-- test for a depth of zero never fires.
pub feed-Kept :
    (realloc : ℕ → ℕ → Bool) (n : ℕ) (f : Framer) (bytes : List ℕ)
    → IsWell n f
    → f.irrecoverable ≡ false
    → n + 2 * length bytes < u32_mod
    → Kept (n + 2 * length bytes) (length bytes) (feed realloc f bytes)
feed-Kept realloc n f bytes h alive small = rw (feed_alive realloc f bytes alive) (
    let k = feed_from-Kept realloc n f 0 bytes h small in
    record {
      well = k.well;
      consumed = omega (arith, k.consumed);
      outside = k.outside;
      small = k.small;
    })
