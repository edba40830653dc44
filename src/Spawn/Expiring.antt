-- ===== src/Spawn/Expiring.antt =====
-- The deadline that src/spawn.c gives to the event loop, and what expires at it.
use i3sd.Common.{
  ℕ, zero, suc, ◌+◌, ◌≤◌, ◌<◌, ◌≡◌, ◌⊎◌, inl, inr, refl, Bool, true, false, not, ◌&&◌, ◌||◌, ◌==◌,
  ltb, leb, if◌then◌else◌, Bool-cases, arith,
}
use i3sd.Spawn.{
  Process, Spawns, max_spawns, Run, each_slot, expire_slot, expire, no_deadline, deadline_from,
  deadline,
}
use i3sd.Spawn.Passing.{Pass, each_slot-Pass}

-- A process that never ran, or one past its deadline.
abbrev pub is_due : ℕ → Process → Bool
is_due now_ns p =
    p.active && (p.finish_pending || (not (p.deadline_ns == 0) && leb p.deadline_ns now_ns))

-- The deadline after one more slot.
abbrev sooner : Process → ℕ → ℕ
sooner p earliest =
    if not p.active
    then earliest
    else if not (p.deadline_ns == 0) && ltb p.deadline_ns earliest
    then p.deadline_ns
    else earliest

module _ (spawns : ℕ → Process) (earliest index left : ℕ) where
  deadline_from-pending :
      ((spawns index).active && (spawns index).finish_pending) ≡ true
      → deadline_from spawns earliest index (suc left) ≡ 0
  unfolding deadline_from
  deadline_from-pending pending = rw pending refl

  deadline_from-running :
      ((spawns index).active && (spawns index).finish_pending) ≡ false
      → deadline_from spawns earliest index (suc left)
        ≡ deadline_from spawns (sooner (spawns index) earliest) (index + 1) left
  unfolding deadline_from
  deadline_from-running running = rw running refl

sooner-quiet :
    (now_ns : ℕ) (p : Process) (earliest : ℕ)
    → (p.active && p.finish_pending) ≡ false
    → now_ns < sooner p earliest
    → (now_ns < earliest) × (is_due now_ns p ≡ false)
sooner-quiet now_ns p earliest running low = (ground arith, ground arith)

sooner-due :
    (now_ns : ℕ) (p : Process) (earliest : ℕ)
    → is_due now_ns p ≡ false
    → sooner p earliest ≤ now_ns
    → earliest ≤ now_ns
sooner-due now_ns p earliest quiet low = ground arith

deadline_from-quiet :
    (spawns : ℕ → Process) (now_ns earliest index left : ℕ)
    → now_ns < deadline_from spawns earliest index left
    → (now_ns < earliest)
      × ((j : ℕ) → index ≤ j → j < index + left → is_due now_ns (spawns j) ≡ false)
deadline_from-quiet spawns now_ns earliest index zero h =
    (unfold deadline_from in h, λ j p q. absurd (omega arith))
deadline_from-quiet spawns now_ns earliest index (suc left) h =
    elim (Bool-cases ((spawns index).active && (spawns index).finish_pending)) [
      | inl pending ↦
          absurd (omega (arith, h, deadline_from-pending spawns earliest index left pending))
      | inr running ↦
          let later : now_ns
              < deadline_from spawns (sooner (spawns index) earliest) (index + 1) left =
            omega (arith, h, deadline_from-running spawns earliest index left running) in
          let (low, rest) =
            deadline_from-quiet spawns now_ns (sooner (spawns index) earliest) (index + 1) left
              later in
          let own : (now_ns < earliest) × (is_due now_ns (spawns index) ≡ false) =
            sooner-quiet now_ns (spawns index) earliest running low in
          (
            own.0,
            λ j p q. elim (Bool-cases (index == j)) [
              | inl same ↦ let e : index ≡ j = ground arith in rw (← e) own.1
              | inr other ↦ rest j (ground arith) (omega arith)
            ],
          )
    ]

deadline_from-due :
    (spawns : ℕ → Process) (now_ns earliest index left : ℕ)
    → deadline_from spawns earliest index left ≤ now_ns
    → (earliest ≤ now_ns) ⊎ ((j : ℕ) × (j < index + left) × (is_due now_ns (spawns j) ≡ true))
deadline_from-due spawns now_ns earliest index zero h = inl (unfold deadline_from in h)
deadline_from-due spawns now_ns earliest index (suc left) h =
    elim (Bool-cases (is_due now_ns (spawns index))) [
      | inl due ↦ inr (index, omega arith, due)
      | inr quiet ↦
          let running : ((spawns index).active && (spawns index).finish_pending) ≡ false =
            ground arith in
          let later : deadline_from spawns (sooner (spawns index) earliest) (index + 1) left
              ≤ now_ns =
            omega (arith, h, deadline_from-running spawns earliest index left running) in
          elim (deadline_from-due spawns now_ns (sooner (spawns index) earliest) (index + 1) left
            later) [
              | inl low ↦ inl (sooner-due now_ns (spawns index) earliest quiet low)
              | inr (j, p, q) ↦ inr (j, omega arith, q)
            ]
    ]

expire_slot-quiet :
    (run : Run) (s : Spawns) (now_ns i : ℕ)
    → is_due now_ns (s.spawns i) ≡ false
    → expire_slot run now_ns s i ≡ s
unfolding expire_slot
expire_slot-quiet run s now_ns i quiet = ground arith

each_slot-quiet :
    (run : Run) (s : Spawns) (now_ns index left : ℕ)
    → ((j : ℕ) → index ≤ j → j < index + left → is_due now_ns (s.spawns j) ≡ false)
    → each_slot (expire_slot run now_ns) s index left ≡ s
unfolding each_slot
each_slot-quiet run s now_ns index zero quiet = refl
each_slot-quiet run s now_ns index (suc left) quiet =
    let same = expire_slot-quiet run s now_ns index (quiet index (omega arith) (omega arith)) in
    rw same
      (each_slot-quiet run s now_ns (index + 1) left (λ j p q. quiet j (omega arith) (omega arith)))

-- At any time expiring goes over all slots in their order: a process that never ran ends, a process at or past its
-- deadline has its group killed and its output closed and counts as timed out, and every other slot stays. Before the
-- deadline that the slots report nothing changes at all; at or after it some active slot is due, so that its process
-- never ran or is at or past its deadline.
pub expire-deadline :
    (run : Run) (s : Spawns) (now_ns : ℕ)
    → now_ns < no_deadline
    → Pass run now_ns s 0 max_spawns (expire run s now_ns)
      × (now_ns < deadline s → expire run s now_ns ≡ s)
      × (deadline s ≤ now_ns → (j : ℕ) × (j < max_spawns) × (is_due now_ns (s.spawns j) ≡ true))
unfolding expire deadline
expire-deadline run s now_ns bounded = (
  each_slot-Pass run now_ns s 0 max_spawns,
  λ early.
      each_slot-quiet run s now_ns 0 max_spawns
        (deadline_from-quiet s.spawns now_ns no_deadline 0 max_spawns early).1,
  λ late. elim (deadline_from-due s.spawns now_ns no_deadline 0 max_spawns late) [
    | inl never ↦ absurd (omega arith)
    | inr found ↦ found
  ],
)
