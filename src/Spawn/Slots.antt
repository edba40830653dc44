-- ===== src/Spawn/Slots.antt =====
-- The slots of src/spawn.c, counted: how many hold a reference, and what the log says of it.
use mathlib.Core.Path.{fun_ext}
use i3sd.Common.{
  ℕ, zero, suc, ◌+◌, ◌≤◌, ◌<◌, ◌≡◌, inl, inr, refl, ap, Bool, true, false, ◌&&◌, ◌==◌, ltb, Option,
  none, some, List, [], ◌∷◌, write, Bool-cases, arith,
}
use i3sd.Spawn.{
  Process, Spawns, Effect, started, killed, output_gone, called, skipped, cancelled, unref, put,
  max_spawns, find_slot, close_fd, kill_group, Signal,
}

abbrev pub same_ref : Option ℕ → Option ℕ → Bool
same_ref none none = true
same_ref none (some r) = false
same_ref (some q) none = false
same_ref (some q) (some r) = q == r

abbrev pub one_if : Bool → ℕ
one_if true = 1
one_if false = 0

-- Whether an active slot holds the reference, as a number.
abbrev pub holding : Option ℕ → Process → ℕ
holding r p = one_if (p.active && same_ref p.callback_ref r)

unfoldable pub sum_slots : (Process → ℕ) → (ℕ → Process) → ℕ → ℕ
sum_slots f spawns zero = 0
sum_slots f spawns (suc n) = f (spawns n) + sum_slots f spawns n

-- How many active slots hold the reference.
abbrev pub held : Option ℕ → Spawns → ℕ
held r s = sum_slots (holding r) s.spawns max_spawns

unfoldable pub total : (Effect → ℕ) → List Effect → ℕ
total f [] = 0
total f (e ∷ log) = f e + total f log

abbrev pub start_of : Option ℕ → Effect → ℕ
start_of r (started q) = one_if (same_ref q r)
start_of r (killed pid signal) = 0
start_of r output_gone = 0
start_of r (called q o) = 0
start_of r (skipped q) = 0
start_of r (cancelled q) = 0
start_of r (unref q) = 0

abbrev pub end_of : Option ℕ → Effect → ℕ
end_of r (started q) = 0
end_of r (killed pid signal) = 0
end_of r output_gone = 0
end_of r (called q o) = one_if (same_ref q r)
end_of r (skipped q) = one_if (same_ref q r)
end_of r (cancelled q) = one_if (same_ref q r)
end_of r (unref q) = 0

abbrev pub unref_of : Option ℕ → Effect → ℕ
unref_of r (started q) = 0
unref_of r (killed pid signal) = 0
unref_of r output_gone = 0
unref_of r (called q o) = 0
unref_of r (skipped q) = 0
unref_of r (cancelled q) = 0
unref_of r (unref q) = one_if (same_ref q r)

-- How often a process was started for the reference, how often it ended, by a call, a skipped call or a
-- cancellation, and how often the reference was given back.
abbrev pub starts : Option ℕ → Spawns → ℕ
starts r s = total (start_of r) s.log

abbrev pub endings : Option ℕ → Spawns → ℕ
endings r s = total (end_of r) s.log

abbrev pub unrefs : Option ℕ → Spawns → ℕ
unrefs r s = total (unref_of r) s.log

sum_slots-above :
    (f : Process → ℕ) (spawns : ℕ → Process) (i n : ℕ) (p : Process)
    → n ≤ i
    → sum_slots f (write spawns i p) n ≡ sum_slots f spawns n
unfolding sum_slots
sum_slots-above f spawns i zero p h = refl
sum_slots-above f spawns i (suc n) p h =
    let other : (i == n) ≡ false = ground arith in
    rw other (ap (λ (t : ℕ). f (spawns n) + t) (sum_slots-above f spawns i n p (omega arith)))

pub sum_slots-write :
    (f : Process → ℕ) (spawns : ℕ → Process) (i n : ℕ) (p : Process)
    → i < n
    → sum_slots f (write spawns i p) n + f (spawns i) ≡ sum_slots f spawns n + f p
unfolding sum_slots
sum_slots-write f spawns i zero p h = elim h [ ]
sum_slots-write f spawns i (suc n) p h = elim (Bool-cases (i == n)) [
  | inl last ↦
      let e : i ≡ n = ground arith in
      let at : f (spawns i) ≡ f (spawns n) = ap (λ (k : ℕ). f (spawns k)) e in
      let below = sum_slots-above f spawns i n p (omega arith) in rw (last, at, below) (omega arith)
  | inr other ↦ rw other (omega (arith, sum_slots-write f spawns i n p (ground arith)))
]

module _ (r : Option ℕ) (s : Spawns) (i : ℕ) where
  pub held-put :
      (p : Process)
      → i < max_spawns
      → held r (put s i p) + holding r (s.spawns i) ≡ held r s + holding r p
  held-put p h = sum_slots-write (holding r) s.spawns i max_spawns p h

-- Effects that are no start, no end and no unref change no count.
pub close_fd_counts :
    (r : Option ℕ) (p : Process) (s : Spawns)
    → (held r (close_fd p s) ≡ held r s)
      × (starts r (close_fd p s) ≡ starts r s)
      × (endings r (close_fd p s) ≡ endings r s)
      × (unrefs r (close_fd p s) ≡ unrefs r s)
      × ((close_fd p s).spawns ≡ s.spawns)
unfolding close_fd total
close_fd_counts r p s = elim (Bool-cases p.output_fd) [
  | inl opened ↦ rw opened (refl, omega arith, omega arith, omega arith, refl)
  | inr closed ↦ rw closed (refl, omega arith, omega arith, omega arith, refl)
]

pub kill_group_counts :
    (r : Option ℕ) (pid : ℕ) (signal : Signal) (s : Spawns)
    → (held r (kill_group pid signal s) ≡ held r s)
      × (starts r (kill_group pid signal s) ≡ starts r s)
      × (endings r (kill_group pid signal s) ≡ endings r s)
      × (unrefs r (kill_group pid signal s) ≡ unrefs r s)
      × ((kill_group pid signal s).spawns ≡ s.spawns)
unfolding kill_group total
kill_group_counts r pid signal s = elim (Bool-cases (ltb 0 pid)) [
  | inl alive ↦ rw alive (refl, omega arith, omega arith, omega arith, refl)
  | inr gone ↦ rw gone (refl, omega arith, omega arith, omega arith, refl)
]

-- A slot that passes the test is found within the range.
pub find_slot_passes :
    (test : Process → Bool) (spawns : ℕ → Process) (index left i : ℕ)
    → find_slot test spawns index left ≡ some i
    → (index ≤ i) × (i < index + left) × (test (spawns i) ≡ true)
unfolding find_slot
find_slot_passes test spawns index zero i h = absurd (ground arith)
find_slot_passes test spawns index (suc left) i h = elim (Bool-cases (test (spawns index))) [
  | inl here ↦ let e : index ≡ i = ground arith in (omega arith, omega arith, rw (← e) here)
  | inr not_here ↦
      let later = find_slot_passes test spawns (index + 1) left i (ground arith) in
      (omega (arith, later.0), omega (arith, later.1), later.2)
]

pub put-put : (s : Spawns) (i : ℕ) (p q : Process) → put (put s i p) i q ≡ put s i q
put-put s i p q =
    ap (λ (f : ℕ → Process). record s { spawns = f })
      (fun_ext
        (λ j. elim (Bool-cases (i == j)) [ inl same ↦ rw same refl | inr other ↦ rw other refl ]))

pub put-same : (s : Spawns) (i : ℕ) → put s i (s.spawns i) ≡ s
put-same s i =
    ap (λ (f : ℕ → Process). record s { spawns = f })
      (fun_ext (λ j. elim (Bool-cases (i == j)) [
        | inl same ↦ let e : i ≡ j = ground arith in rw same (ap s.spawns e)
        | inr other ↦ rw other refl
      ]))

pub put-here : (s : Spawns) (i : ℕ) (p : Process) → (put s i p).spawns i ≡ p
put-here s i p = ground arith
