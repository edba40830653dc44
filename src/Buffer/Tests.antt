-- ===== src/Buffer/Tests.antt =====
-- Runs of src/buffer.c, and its theorems at them.
use i3sd.Common.{ℕ, ◌≤◌, max, ◌≡◌, refl, Bool, true, false, [], ◌∷◌, ltb, arith}
use i3sd.Buffer.{Buffer, empty, reserve, append, append_char, clear, grow}
use i3sd.Buffer.Bounds.{IsValid, Appended, append-Appended, append-ok, append-full}

abbrev plenty : ℕ → Bool
plenty _ = true

-- At most 512 bytes are to be had.
abbrev scarce : ℕ → Bool
scarce size = ltb size 513

abbrev some_bytes : Buffer
some_bytes = record { bytes = 1 ∷ 2 ∷ []; cap = 256 }

grows : append plenty empty (7 ∷ 8 ∷ []) 1000 ≡ (true, record { bytes = 7 ∷ 8 ∷ []; cap = 256 })
unfolding append reserve grow empty
grows = refl

doubles : reserve plenty some_bytes 600 1500 ≡ (true, record some_bytes { cap = 1024 })
unfolding reserve grow
doubles = refl

stops_at_limit : reserve plenty some_bytes 600 1000 ≡ (true, record some_bytes { cap = 1000 })
unfolding reserve grow
stops_at_limit = refl

no_memory : reserve scarce some_bytes 600 1500 ≡ (false, some_bytes)
unfolding reserve grow
no_memory = refl

cleared : append_char plenty (clear some_bytes) 9 10 ≡ (true, record { bytes = 9 ∷ []; cap = 256 })
unfolding append_char append reserve clear
cleared = refl

abbrev appended : Bool × Buffer
appended = append scarce some_bytes (3 ∷ []) 1000

append-Appended_example :
    IsValid appended.1
    × (appended.1.cap ≤ max (max some_bytes.cap 256) 1000)
    × Appended some_bytes (3 ∷ []) 1000 appended
append-Appended_example =
    append-Appended scarce some_bytes (3 ∷ []) 1000 (omega arith) (omega arith)

append-ok_example : (append plenty some_bytes (3 ∷ 4 ∷ []) 4).0 ≡ true
append-ok_example =
    append-ok plenty some_bytes (3 ∷ 4 ∷ []) 4 (λ _. refl) (omega arith) (omega arith)

append-full_example : append plenty some_bytes (3 ∷ 4 ∷ []) 3 ≡ (false, some_bytes)
append-full_example = append-full plenty some_bytes (3 ∷ 4 ∷ []) 3 (omega arith)
