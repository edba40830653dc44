-- ===== src/Output/Progress.antt =====
-- That flush of src/output.c ends, within its budget, and writes a frame out if nothing stops it.
use i3sd.Common.{
  ℕ, suc, ◌+◌, ◌-◌, ◌≤◌, ◌<◌, min, ◌≡◌, refl, inl, inr, true, Option, some, List, [], ◌∷◌, ◌++◌,
  length, length-append, length-take, length-drop, drop, Bool-cases, arith,
}
use i3sd.Buffer.{len}
use i3sd.Output.{
  comma, Output, Answer, accepts, hung_up, interrupted, again, broken_pipe, failed, Flush, finish,
  pending, chunk, flush_loop, flush_prefix, wants_prefix, flush,
}

-- The answers other than EINTR, on which the loop only tries again.
abbrev pub steady : List Answer → ℕ
steady [] = 0
steady (interrupted ∷ answers) = steady answers
steady (_ ∷ answers) = suc (steady answers)

-- The call returns, having written `limit` bytes at most.
abbrev pub Returns : ℕ → Option Flush → Type 0
Returns limit x = (r : Flush) × (x ≡ some r) × (length r.sent ≤ limit)

pub length-chunk :
    (o : Output) (budget n : ℕ)
    → length (chunk o budget n) ≡ min (suc n) (min (len o.current - o.offset) budget)
length-chunk o budget n = omega (
  arith,
  length-take (min (suc n) (min (len o.current - o.offset) budget)) (drop o.offset o.current.bytes),
  length-drop o.offset o.current.bytes,
)

pending_iff :
    (o : Output) (budget : ℕ) → pending o budget ≡ true → (o.offset < len o.current) × (0 < budget)
pending_iff o budget h = (ground arith, ground arith)

finish-Returns :
    (o : Output) (sent : List ℕ) (limit : ℕ) → length sent ≤ limit → Returns limit (finish o sent)
unfolding finish
finish-Returns o sent limit h = (_, refl, h)

flush_loop-Returns :
    (o : Output) (budget : ℕ) (sent : List ℕ) (answers : List Answer) (limit : ℕ)
    → budget ≤ steady answers
    → length sent + budget ≤ limit
    → Returns limit (flush_loop o budget sent answers)
unfolding flush_loop
flush_loop-Returns o budget sent [] limit enough h = elim (Bool-cases (pending o budget)) [
  | inl more ↦ absurd (omega (arith, (pending_iff o budget more).1))
  | inr idle ↦ rw idle (finish-Returns o sent limit (omega arith))
]
flush_loop-Returns o budget sent (accepts n ∷ answers) limit enough h =
    elim (Bool-cases (pending o budget)) [
      | inr idle ↦ rw idle (finish-Returns o sent limit (omega arith))
      | inl more ↦
          (let p = pending_iff o budget more in
            let size = length-chunk o budget n in
            let sum = length-append sent (chunk o budget n) in
            rw more (
              flush_loop-Returns (record o { offset = o.offset + length (chunk o budget n) })
                (budget - length (chunk o budget n)) (sent ++ chunk o budget n) answers limit
                (omega arith) (omega arith)))
    ]
flush_loop-Returns o budget sent (interrupted ∷ answers) limit enough h =
    elim (Bool-cases (pending o budget)) [
      | inr idle ↦ rw idle (finish-Returns o sent limit (omega arith))
      | inl more ↦ rw more (flush_loop-Returns o budget sent answers limit enough h)
    ]
flush_loop-Returns o budget sent (hung_up ∷ answers) limit enough h =
    elim (Bool-cases (pending o budget)) [
      | inr idle ↦ rw idle (finish-Returns o sent limit (omega arith))
      | inl more ↦ rw more (_, refl, omega arith)
    ]
flush_loop-Returns o budget sent (again ∷ answers) limit enough h =
    elim (Bool-cases (pending o budget)) [
      | inr idle ↦ rw idle (finish-Returns o sent limit (omega arith))
      | inl more ↦ rw more (_, refl, omega arith)
    ]
flush_loop-Returns o budget sent (broken_pipe ∷ answers) limit enough h =
    elim (Bool-cases (pending o budget)) [
      | inr idle ↦ rw idle (finish-Returns o sent limit (omega arith))
      | inl more ↦ rw more (_, refl, omega arith)
    ]
flush_loop-Returns o budget sent (failed errno ∷ answers) limit enough h =
    elim (Bool-cases (pending o budget)) [
      | inr idle ↦ rw idle (finish-Returns o sent limit (omega arith))
      | inl more ↦ rw more (_, refl, omega arith)
    ]

flush_prefix-Returns :
    (o : Output) (budget : ℕ) (answer : Answer) (answers : List Answer)
    → 0 < budget
    → budget ≤ steady (answer ∷ answers)
    → Returns budget (flush_prefix o budget answer answers)
unfolding flush_prefix
flush_prefix-Returns o budget (accepts n) answers some_budget enough =
    flush_loop-Returns (record o { prefix_written = true }) (budget - 1) (comma ∷ []) answers budget
      (omega arith) (omega arith)
flush_prefix-Returns o budget hung_up answers p enough = (_, refl, omega arith)
flush_prefix-Returns o budget interrupted answers p enough = (_, refl, omega arith)
flush_prefix-Returns o budget again answers p enough = (_, refl, omega arith)
flush_prefix-Returns o budget broken_pipe answers p enough = (_, refl, omega arith)
flush_prefix-Returns o budget (failed errno) answers p enough = (_, refl, omega arith)

wants_budget : (o : Output) (budget : ℕ) → wants_prefix o budget ≡ true → 0 < budget
wants_budget o budget h = ground arith

-- A flush returns once the write function has answered as often as the budget has bytes, not
-- counting EINTR, and it writes no more bytes than its budget, the comma included.
pub flush-Returns :
    (o : Output) (budget : ℕ) (answers : List Answer)
    → budget ≤ steady answers
    → Returns budget (flush o budget answers)
unfolding flush
flush-Returns o budget [] enough = elim (Bool-cases (wants_prefix o budget)) [
  | inl w ↦ absurd (omega (arith, wants_budget o budget w))
  | inr w ↦ rw w (flush_loop-Returns o budget [] [] budget enough (omega arith))
]
flush-Returns o budget (answer ∷ answers) enough = elim (Bool-cases (wants_prefix o budget)) [
  | inl w ↦ rw w (flush_prefix-Returns o budget answer answers (wants_budget o budget w) enough)
  | inr w ↦ rw w (flush_loop-Returns o budget [] (answer ∷ answers) budget enough (omega arith))
]
