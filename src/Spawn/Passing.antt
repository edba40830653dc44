-- ===== src/Spawn/Passing.antt =====
-- A pass of i3sd_spawn_expire of src/spawn.c over the slots.
use i3sd.Common.{
  ℕ, zero, suc, ◌+◌, ◌≤◌, ◌<◌, ◌≡◌, List, [], ◌∷◌, ◌++◌, write, ap, ◌∙◌, inl, inr, refl, Bool, true,
  false, ◌||◌, ◌==◌, ltb, if◌then◌else◌, Bool-cases, arith,
}
use i3sd.Spawn.Slots.{put-put, put-here}
use i3sd.Spawn.{
  Process, Spawns, Run, Effect, killed, sigkill, output_gone, put, note, finish_process, kill_group,
  close_fd, close_output, time_out, finish_unstarted, each_slot, expire_slot,
}

-- What a time-out does to its slot before the process may end: the child's group is killed where the child is not reaped
-- yet, and the output is closed.
abbrev pub kills : Process → List Effect
kills p = if ltb 0 p.pid then killed p.pid sigkill ∷ [] else []

abbrev pub closes : Process → List Effect
closes p = if p.output_fd then output_gone ∷ [] else []

abbrev pub stopped : Spawns → ℕ → Spawns
stopped s i = record s {
  spawns = write s.spawns i (record (s.spawns i) {
    deadline_ns = 0;
    timed_out = true;
    output_fd = false;
    output_closed = true;
  });
  log = closes (s.spawns i) ++ (kills (s.spawns i) ++ s.log);
}

-- One slot of a pass at `now_ns`: idle or not due, it stays; a process that never ran ends; a process past its deadline is
-- stopped, and ends if its child is reaped.
pub data Expired (run : Run) (now_ns : ℕ) (s : Spawns) (i : ℕ) (s' : Spawns) : Type 0 where
  free : (s.spawns i).active ≡ false → s' ≡ s → Expired run now_ns s i s'
  unlimited :
      (s.spawns i).finish_pending ≡ false
      → (s.spawns i).deadline_ns ≡ 0
      → s' ≡ s
      → Expired run now_ns s i s'
  in_time :
      (s.spawns i).finish_pending ≡ false
      → now_ns < (s.spawns i).deadline_ns
      → s' ≡ s
      → Expired run now_ns s i s'
  unstarted :
      (s.spawns i).active ≡ true
      → (s.spawns i).finish_pending ≡ true
      → s' ≡ finish_process run (put s i (record (s.spawns i) { finish_pending = false })) i
      → Expired run now_ns s i s'
  late :
      (s.spawns i).active ≡ true
      → (s.spawns i).finish_pending ≡ false
      → 0 < (s.spawns i).deadline_ns
      → (s.spawns i).deadline_ns ≤ now_ns
      → s' ≡ finish_process run (stopped s i) i
      → Expired run now_ns s i s'

-- A pass over the slots from `index` on.
pub data Pass (run : Run) (now_ns : ℕ) : Spawns → ℕ → ℕ → Spawns → Type 0 where
  over : {s : Spawns} {index : ℕ} → Pass run now_ns s index zero s
  slot :
      {index left : ℕ} {s s' s'' : Spawns}
      → Expired run now_ns s index s'
      → Pass run now_ns s' (index + 1) left s''
      → Pass run now_ns s index (suc left) s''

or_false : (b : Bool) → (b || false) ≡ b
or_false true = refl
or_false false = refl

kill_group-put :
    (s : Spawns) (i : ℕ) (p q : Process)
    → kill_group p.pid sigkill (put s i q) ≡ put (record s { log = kills p ++ s.log }) i q
unfolding kill_group
kill_group-put s i p q = elim (Bool-cases (ltb 0 p.pid)) [ inl e ↦ rw e refl | inr e ↦ rw e refl ]

note_if-put :
    (opened : Bool) (s : Spawns) (i : ℕ) (p q : Process)
    → put (if opened then note output_gone (put s i p) else put s i p) i q
      ≡ put (record s { log = (if opened then output_gone ∷ [] else []) ++ s.log }) i q
note_if-put true s i p q = put-put (record s { log = output_gone ∷ s.log }) i p q
note_if-put false s i p q = put-put s i p q

close_fd-put :
    (s : Spawns) (i : ℕ) (p q : Process)
    → put (close_fd p (put s i p)) i q ≡ put (record s { log = closes p ++ s.log }) i q
unfolding close_fd
close_fd-put s i p q = note_if-put p.output_fd s i p q

close_output-put :
    (run : Run) (s : Spawns) (i : ℕ) (p : Process)
    → close_output run (put s i p) i false
      ≡ finish_process run
          (put
            (record s { log = closes p ++ s.log })
            i
            (record p { output_fd = false; output_closed = true }))
          i
unfolding close_output
close_output-put run s i p =
    let close = λ (q : Process).
      finish_process run
        (put (close_fd q (put s i p)) i
          (record q { output_fd = false; output_closed = true; io_error = q.io_error || false }))
        i in
    ap close (put-here s i p)
    ∙ ap
        (λ (b : Bool).
          finish_process run
            (put (close_fd p (put s i p)) i
              (record p { output_fd = false; output_closed = true; io_error = b }))
            i)
        (or_false p.io_error)
    ∙ ap (λ (u : Spawns). finish_process run u i)
        (close_fd-put s i p (record p { output_fd = false; output_closed = true }))

time_out-stopped :
    (run : Run) (s : Spawns) (i : ℕ) → time_out run s i ≡ finish_process run (stopped s i) i
unfolding time_out
time_out-stopped run s i =
    let p = s.spawns i in
    let q = record p { deadline_ns = 0; timed_out = true } in
    ap (λ (u : Spawns). close_output run u i false) (kill_group-put s i p q)
    ∙ close_output-put run (record s { log = kills p ++ s.log }) i q

expire_slot-Expired :
    (run : Run) (s : Spawns) (now_ns i : ℕ) → Expired run now_ns s i (expire_slot run now_ns s i)
unfolding expire_slot finish_unstarted
expire_slot-Expired run s now_ns i =
    let p = s.spawns i in
    elim (Bool-cases p.active) [
      | inr idle ↦ free idle (rw idle refl)
      | inl active ↦ elim (Bool-cases p.finish_pending) [
        | inl pending ↦ unstarted active pending (rw (active, pending) refl)
        | inr running ↦ elim (Bool-cases (p.deadline_ns == 0)) [
          | inl no_limit ↦ unlimited running (ground arith) (rw (active, running, no_limit) refl)
          | inr limited ↦ elim (Bool-cases (ltb now_ns p.deadline_ns)) [
            | inl early ↦ in_time running (ground arith) (rw (active, running, limited, early) refl)
            | inr past ↦ late active running (ground arith) (ground arith) (
                let over : expire_slot run now_ns s i ≡ time_out run s i =
                  rw (active, running, limited, past) refl in
                over ∙ time_out-stopped run s i)
          ]
        ]
      ]
    ]

pub each_slot-Pass :
    (run : Run) (now_ns : ℕ) (s : Spawns) (index left : ℕ)
    → Pass run now_ns s index left (each_slot (expire_slot run now_ns) s index left)
unfolding each_slot
each_slot-Pass run now_ns s index zero = over
each_slot-Pass run now_ns s index (suc left) =
    slot (expire_slot-Expired run s now_ns index)
      (each_slot-Pass run now_ns (expire_slot run now_ns s index) (index + 1) left)
