-- ===== src/Spawn/Lifetime.antt =====
-- The life of a process of src/spawn.c: started once, ended once.
use i3sd.Common.{
  ℕ, ◌+◌, ◌<◌, ◌≡◌, inl, inr, refl, Bool, true, false, not, ◌||◌, ◌==◌, ltb, Option, none, some,
  List, [], ◌∷◌, Bool-cases, Option-cases, arith, length,
}
use i3sd.Spawn.{
  Process, Spawns, Outcome, started, put, note, max_spawns, find_slot, Run, Target, cancel_serial,
  cancel_owned, reaped, expire, shutdown,
}
use i3sd.Spawn.Input.{start_child}
use i3sd.Spawn.Opening.{
  Start, Request, open_spawn, open_slot, watch_output, input_ready, new_process, exec_failed,
  eagain, enomem,
}
use i3sd.Spawn.Reading.{
  ReadAnswer, bytes, interrupted, would_block, ended, failed, keep_output, read_loop, read_output,
  read_budget,
}
use i3sd.Spawn.Slots.{same_ref, one_if, holding, total, held-put, find_slot_passes}
use i3sd.Spawn.Accounts.{Balance, Balance-refl, Balance-trans, Lost-Balance, put-Lost}
use i3sd.Spawn.Ending.{
  cancel_serial-Balance, cancel_owned-Balance, reaped-Balance, close_output-Balance, expire-Balance,
  shutdown-Balance,
}

-- A free slot is taken by a process that is started.
start-Balance :
    (r : Option ℕ) (s : Spawns) (i ref : ℕ) (p : Process)
    → i < max_spawns
    → (s.spawns i).active ≡ false
    → p.active ≡ true
    → p.callback_ref ≡ some ref
    → Balance r s (note (started (some ref)) (put s i p))
unfolding total
start-Balance r s i ref p h idle active named =
    let moved = held-put r s i p h in
    let before : holding r (s.spawns i) ≡ 0 = rw idle refl in
    let after : holding r p ≡ one_if (same_ref (some ref) r) = rw (active, named) refl in
    record { lives = omega (arith, moved, before, after); refs = omega arith }

module _ (r : Option ℕ) (st : Start) (q : Request) (s : Spawns) (i : ℕ) (h : i < max_spawns)
    (idle : (s.spawns i).active ≡ false) where
  watch_output-Balance :
      (p : Process)
      → p.active ≡ true
      → p.callback_ref ≡ some q.callback_ref
      → Balance r s (watch_output st q s i p).1
  unfolding watch_output total
  watch_output-Balance p active named =
      elim (Bool-cases (not st.make_nonblocking || not st.epoll_ctl)) [
        | inl unwatched ↦
            let given_up = record p {
              pid = st.pid;
              deadline_ns = q.deadline_ns;
              block = none;
              callback_ref = none;
              active = false;
            } in
            let b = Lost-Balance r s _ (put-Lost r s i h given_up (rw idle refl)) in
            rw unwatched (record { lives = omega (arith, b.lives); refs = omega (arith, b.refs) })
        | inr watched ↦ rw watched (
            start-Balance r s i q.callback_ref
              (record p { pid = st.pid; deadline_ns = q.deadline_ns; output_fd = true }) h idle
              active named)
      ]

  open_slot-Balance : Balance r s (open_slot st q s i).1
  unfolding open_slot new_process exec_failed
  open_slot-Balance =
      let p = new_process (s.spawns i) q in
      elim (Bool-cases (not (input_ready st q))) [
        | inl unready ↦ rw unready (Balance-refl r s)
        | inr ready ↦ elim (Bool-cases (not st.pipe2)) [
          | inl no_pipe ↦ rw (ready, no_pipe) (Balance-refl r s)
          | inr pipe ↦
              elim (Bool-cases (start_child st.calls == eagain || start_child st.calls == enomem)) [
                | inl exhausted ↦ rw (ready, pipe, exhausted) (Balance-refl r s)
                | inr tried ↦ elim (Bool-cases (not (start_child st.calls == 0))) [
                  | inl missing ↦
                      rw (ready, pipe, tried, missing)
                        (start-Balance r s i q.callback_ref (exec_failed p) h idle refl refl)
                  | inr running ↦
                      rw (ready, pipe, tried, running) (watch_output-Balance p refl refl)
                ]
              ]
        ]
      ]

open_spawn-Balance :
    (r : Option ℕ) (st : Start) (q : Request) (s : Spawns) → Balance r s (open_spawn st q s).1
unfolding open_spawn
open_spawn-Balance r st q s =
    let test = λ (p : Process). not p.active in
    elim (Option-cases (find_slot test s.spawns 0 max_spawns)) [
      | inl busy ↦ rw (busy, open_spawn) (Balance-refl r s)
      | inr (i, found) ↦
          let (low, high, passes) = find_slot_passes test s.spawns 0 max_spawns i found in
          rw (found, open_spawn) (open_slot-Balance r st q s i (omega arith) (ground arith))
    ]

-- The balance up to a state, if there is one.
abbrev After : Option ℕ → Spawns → Option Spawns → Type 0
After r s none = Unit
After r s (some s') = Balance r s s'

After-trans :
    (r : Option ℕ) (s t : Spawns) (u : Option Spawns) → Balance r s t → After r t u → After r s u
After-trans r s t none b c = tt
After-trans r s t (some u) b c = Balance-trans r s t u b c

module _ (run : Run) (r : Option ℕ)
    (runs : (q : Option ℕ) (o : Outcome) (s : Spawns) → Balance r s (run q o s)) where
  read_loop-After :
      (realloc : ℕ → Bool) (answers : List ReadAnswer) (consumed : ℕ) (s : Spawns) (i : ℕ)
      → i < max_spawns
      → After r s (read_loop run realloc answers consumed s i)
  unfolding read_loop
  read_loop-After realloc [] consumed s i h = elim (Bool-cases (ltb consumed read_budget)) [
    | inl more ↦ rw more tt
    | inr spent ↦ rw spent (Balance-refl r s)
  ]
  read_loop-After realloc (bytes chunk ∷ answers) consumed s i h =
      elim (Bool-cases (ltb consumed read_budget)) [
        | inl more ↦
            let p = keep_output realloc (s.spawns i) chunk in
            rw more (
              After-trans r s (put s i p)
                (read_loop run realloc answers (consumed + length chunk) (put s i p) i)
                (Lost-Balance r s (put s i p) (put-Lost r s i h p (unfold keep_output in refl)))
                (read_loop-After realloc answers (consumed + length chunk) (put s i p) i h))
        | inr spent ↦ rw spent (Balance-refl r s)
      ]
  read_loop-After realloc (interrupted ∷ answers) consumed s i h =
      elim (Bool-cases (ltb consumed read_budget)) [
        | inl more ↦ rw more (read_loop-After realloc answers consumed s i h)
        | inr spent ↦ rw spent (Balance-refl r s)
      ]
  read_loop-After realloc (would_block ∷ answers) consumed s i h = Balance-refl r s
  read_loop-After realloc (ended ∷ answers) consumed s i h =
      elim (Bool-cases (ltb consumed read_budget)) [
        | inl more ↦ rw more (close_output-Balance run r runs s i false h)
        | inr spent ↦ rw spent (Balance-refl r s)
      ]
  read_loop-After realloc (failed ∷ answers) consumed s i h =
      elim (Bool-cases (ltb consumed read_budget)) [
        | inl more ↦ rw more (close_output-Balance run r runs s i true h)
        | inr spent ↦ rw spent (Balance-refl r s)
      ]

  read_output-After :
      (realloc : ℕ → Bool) (answers : List ReadAnswer) (s : Spawns) (i : ℕ)
      → i < max_spawns
      → After r s (read_output run realloc answers s i)
  unfolding read_output
  read_output-After realloc answers s i h =
      elim (Bool-cases (not (s.spawns i).active || not (s.spawns i).output_fd)) [
        | inl idle ↦ rw idle (Balance-refl r s)
        | inr open_yet ↦ rw open_yet (read_loop-After realloc answers 0 s i h)
      ]

-- The states that calls reach: each operation, in any order.
pub data Reach (run : Run) (s : Spawns) : Spawns → Type 0 where
  here : Reach run s s
  opens :
      (st : Start) (q : Request) (t : Spawns) → Reach run s t → Reach run s (open_spawn st q t).1
  cancels : (serial : ℕ) (t : Spawns) → Reach run s t → Reach run s (cancel_serial t serial)
  cancels_owned :
      (target : Target) (t : Spawns) → Reach run s t → Reach run s (cancel_owned t target)
  reaps :
      (pid wait_status : ℕ) (t : Spawns)
      → Reach run s t
      → Reach run s (reaped run t pid wait_status)
  reads :
      (realloc : ℕ → Bool) (answers : List ReadAnswer) (i : ℕ) (t u : Spawns)
      → i < max_spawns
      → read_output run realloc answers t i ≡ some u
      → Reach run s t
      → Reach run s u
  expires : (now_ns : ℕ) (t : Spawns) → Reach run s t → Reach run s (expire run t now_ns)
  shuts_down : (t : Spawns) → Reach run s t → Reach run s (shutdown t)

module _ (run : Run) (r : Option ℕ)
    (runs : (q : Option ℕ) (o : Outcome) (s : Spawns) → Balance r s (run q o s)) where
  pub Reach-Balance : (s t : Spawns) → Reach run s t → Balance r s t
  Reach-Balance s t here = Balance-refl r s
  Reach-Balance s _ (opens st q t h) =
      Balance-trans r s t _ (Reach-Balance s t h) (open_spawn-Balance r st q t)
  Reach-Balance s _ (cancels serial t h) =
      Balance-trans r s t _ (Reach-Balance s t h) (cancel_serial-Balance r t serial)
  Reach-Balance s _ (cancels_owned target t h) =
      Balance-trans r s t _ (Reach-Balance s t h) (cancel_owned-Balance r t target)
  Reach-Balance s _ (reaps pid wait_status t h) =
      Balance-trans r s t _ (Reach-Balance s t h) (reaped-Balance run r runs t pid wait_status)
  Reach-Balance s _ (reads realloc answers i t u small e h) =
      Balance-trans r s t u (Reach-Balance s t h)
        (rw e at (read_output-After run r runs realloc answers t i small))
  Reach-Balance s _ (expires now_ns t h) =
      Balance-trans r s t _ (Reach-Balance s t h) (expire-Balance run r runs t now_ns)
  Reach-Balance s _ (shuts_down t h) =
      Balance-trans r s t _ (Reach-Balance s t h) (shutdown-Balance r t)

-- The slots at the start.
pub record IsInitial (s : Spawns) : Type 0 where
  pub all_idle : (i : ℕ) → (s.spawns i).active ≡ false
  pub nothing_done : s.log ≡ []
