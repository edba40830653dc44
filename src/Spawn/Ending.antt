-- ===== src/Spawn/Ending.antt =====
-- The operations of src/spawn.c that end processes keep the accounts.
use i3sd.Common.{
  ℕ, zero, suc, ◌+◌, ◌≤◌, ◌<◌, ◌≡◌, inl, inr, refl, sym, ap, Bool, true, false, not, ◌&&◌, ◌||◌,
  ◌==◌, ltb, if◌then◌else◌, Option, Bool-cases, Option-cases, arith,
}
use i3sd.Spawn.{
  Process, Spawns, Outcome, called, put, note, max_spawns, find_slot, close_fd, release_slot,
  kill_group, sigterm, sigkill, cancel_process, cancel_serial, cancel_owned_slot, owned_by, Target,
  each_slot, cancel_owned, Run, finish_process, owner_live, outcome, reaped, close_output, time_out,
  finish_unstarted, expire_slot, expire, shutdown_slot, shutdown,
}
use i3sd.Spawn.Slots.{holding, total, find_slot_passes, close_fd_counts}
use i3sd.Spawn.Accounts.{
  Balance, Balance-refl, Balance-trans, Lost-Balance, put-Lost, kill_group-Lost, close_fd-Lost,
  release_slot-Lost, active_holding, cancel_process-Balance,
}

each_slot-Balance :
    (r : Option ℕ) (body : Spawns → ℕ → Spawns)
    → ((s : Spawns) (i : ℕ) → i < max_spawns → Balance r s (body s i))
    → (s : Spawns) (index left : ℕ) → index + left ≤ max_spawns
    → Balance r s (each_slot body s index left)
unfolding each_slot
each_slot-Balance r body step s index zero h = Balance-refl r s
each_slot-Balance r body step s index (suc left) h =
    Balance-trans r s (body s index) (each_slot body (body s index) (index + 1) left)
      (step s index (omega arith))
      (each_slot-Balance r body step (body s index) (index + 1) left (omega arith))

pub cancel_serial-Balance :
    (r : Option ℕ) (s : Spawns) (serial : ℕ) → Balance r s (cancel_serial s serial)
unfolding cancel_serial
cancel_serial-Balance r s serial =
    let test = λ (p : Process). p.active && p.serial == serial in
    elim (Option-cases (find_slot test s.spawns 0 max_spawns)) [
      | inl missing ↦ rw (missing, cancel_serial) (Balance-refl r s)
      | inr (i, found) ↦
          let (low, high, passes) = find_slot_passes test s.spawns 0 max_spawns i found in
          rw (found, cancel_serial) (cancel_process-Balance r s i (omega arith) (ground arith))
    ]

cancel_owned_slot-Balance :
    (r : Option ℕ) (target : Target) (s : Spawns) (i : ℕ)
    → i < max_spawns
    → Balance r s (cancel_owned_slot target s i)
unfolding cancel_owned_slot
cancel_owned_slot-Balance r target s i h =
    elim (Bool-cases ((s.spawns i).active && owned_by target (s.spawns i).block)) [
      | inl owned ↦ rw owned (cancel_process-Balance r s i h (ground arith))
      | inr other ↦ rw other (Balance-refl r s)
    ]

pub cancel_owned-Balance :
    (r : Option ℕ) (s : Spawns) (target : Target) → Balance r s (cancel_owned s target)
unfolding cancel_owned
cancel_owned-Balance r s target =
    each_slot-Balance r (cancel_owned_slot target) (cancel_owned_slot-Balance r target) s 0
      max_spawns (omega arith)

cancel_active-Balance :
    (r : Option ℕ) (s : Spawns) (i : ℕ)
    → i < max_spawns
    → Balance r s (if (s.spawns i).active then cancel_process s i else s)
cancel_active-Balance r s i h = elim (Bool-cases (s.spawns i).active) [
  | inl active ↦ rw active (cancel_process-Balance r s i h active)
  | inr idle ↦ rw idle (Balance-refl r s)
]

shutdown_slot-Balance :
    (r : Option ℕ) (s : Spawns) (i : ℕ) → i < max_spawns → Balance r s (shutdown_slot s i)
unfolding shutdown_slot
shutdown_slot-Balance r s i h =
    let s' = if (s.spawns i).active then cancel_process s i else s in
    Balance-trans r s s' (shutdown_slot s i) (cancel_active-Balance r s i h)
      (Lost-Balance r s' (shutdown_slot s i) (put-Lost r s' i h _ refl))

pub shutdown-Balance : (r : Option ℕ) (s : Spawns) → Balance r s (shutdown s)
unfolding shutdown
shutdown-Balance r s =
    each_slot-Balance r shutdown_slot (shutdown_slot-Balance r) s 0 max_spawns (omega arith)

kill_if-Balance :
    (r : Option ℕ) (failed : Bool) (pid : ℕ) (s : Spawns)
    → Balance r s (if failed then kill_group pid sigterm s else s)
kill_if-Balance r true pid s = Lost-Balance r s _ (kill_group-Lost r pid sigterm s)
kill_if-Balance r false pid s = Balance-refl r s

module _ (run : Run) (r : Option ℕ)
    (runs : (q : Option ℕ) (o : Outcome) (s : Spawns) → Balance r s (run q o s)) where
  finish_process-Balance :
      (s : Spawns) (i : ℕ) → i < max_spawns → Balance r s (finish_process run s i)
  unfolding finish_process total
  finish_process-Balance s i h =
      let p = s.spawns i in
      let free = release_slot s i in
      let lost = release_slot-Lost r s i h in
      elim (Bool-cases ((not p.active || not p.output_closed) || not p.exited)) [
        | inl unfinished ↦ rw unfinished (Balance-refl r s)
        | inr finished ↦
            let own = active_holding r p (ground arith) in
            elim (Bool-cases (owner_live s p.block)) [
              | inl live ↦
                  let b =
                    runs p.callback_ref (outcome p)
                      (note (called p.callback_ref (outcome p)) free) in
                  rw (finished, live)
                    (record {
                      lives =
                          omega
                            (arith, b.lives, own, lost.slots, lost.same_starts, lost.same_endings);
                      refs = omega (arith, b.refs, lost.same_endings, lost.same_unrefs);
                    })
              | inr stale ↦
                  rw (finished, stale)
                    (record {
                      lives = omega (arith, own, lost.slots, lost.same_starts, lost.same_endings);
                      refs = omega (arith, lost.same_endings, lost.same_unrefs);
                    })
            ]
      ]

  put_finish :
      (s : Spawns) (i : ℕ) (p : Process)
      → i < max_spawns
      → holding r p ≡ holding r (s.spawns i)
      → Balance r s (finish_process run (put s i p) i)
  put_finish s i p h e =
      Balance-trans r s (put s i p) _ (Lost-Balance r s _ (put-Lost r s i h p e))
        (finish_process-Balance (put s i p) i h)

  pub reaped-Balance :
      (s : Spawns) (pid wait_status : ℕ) → Balance r s (reaped run s pid wait_status)
  unfolding reaped
  reaped-Balance s pid wait_status =
      let test = λ (p : Process). p.active && p.pid == pid in
      elim (Option-cases (find_slot test s.spawns 0 max_spawns)) [
        | inl missing ↦ rw (missing, reaped) (Balance-refl r s)
        | inr (i, found) ↦
            let (low, high, passes) = find_slot_passes test s.spawns 0 max_spawns i found in
            rw (found, reaped) (put_finish s i _ (omega arith) refl)
      ]

  pub close_output-Balance :
      (s : Spawns) (i : ℕ) (failed : Bool)
      → i < max_spawns
      → Balance r s (close_output run s i failed)
  unfolding close_output
  close_output-Balance s i failed h =
      let p = s.spawns i in
      let gone = close_fd p s in
      let (slots, a, b, c, same) = close_fd_counts r p s in
      let p' = record p {
        output_fd = false;
        output_closed = true;
        io_error = p.io_error || failed;
      } in
      let closed = put gone i p' in
      let at : holding r p' ≡ holding r (gone.spawns i) =
        ap (λ (f : ℕ → Process). holding r (f i)) (sym same) in
      let told = if failed then kill_group p.pid sigterm closed else closed in
      Balance-trans r s gone _ (Lost-Balance r s gone (close_fd-Lost r p s)) (
        Balance-trans r gone closed _ (Lost-Balance r gone closed (put-Lost r gone i h p' at)) (
          Balance-trans r closed told _ (kill_if-Balance r failed p.pid closed)
            (finish_process-Balance told i h)))

  finish_unstarted-Balance :
      (s : Spawns) (i : ℕ) → i < max_spawns → Balance r s (finish_unstarted run s i)
  unfolding finish_unstarted
  finish_unstarted-Balance s i h =
      put_finish s i (record (s.spawns i) { finish_pending = false }) h refl

  time_out-Balance : (s : Spawns) (i : ℕ) → i < max_spawns → Balance r s (time_out run s i)
  unfolding time_out
  time_out-Balance s i h =
      let p = s.spawns i in
      let p' = record p { deadline_ns = 0; timed_out = true } in
      let late = put s i p' in
      let told = kill_group p.pid sigkill late in
      Balance-trans r s late _ (Lost-Balance r s late (put-Lost r s i h p' refl)) (
        Balance-trans r late told _
          (Lost-Balance r late told (kill_group-Lost r p.pid sigkill late))
          (close_output-Balance told i false h))

  expire_slot-Balance :
      (now_ns : ℕ) (s : Spawns) (i : ℕ) → i < max_spawns → Balance r s (expire_slot run now_ns s i)
  unfolding expire_slot
  expire_slot-Balance now_ns s i h =
      let p = s.spawns i in
      elim (Bool-cases p.active) [
        | inr idle ↦ rw idle (Balance-refl r s)
        | inl active ↦ elim (Bool-cases p.finish_pending) [
          | inl pending ↦ rw (active, pending) (finish_unstarted-Balance s i h)
          | inr running ↦ elim (Bool-cases (p.deadline_ns == 0 || ltb now_ns p.deadline_ns)) [
            | inl early ↦ rw (active, running, early) (Balance-refl r s)
            | inr over ↦ rw (active, running, over) (time_out-Balance s i h)
          ]
        ]
      ]

  pub expire-Balance : (s : Spawns) (now_ns : ℕ) → Balance r s (expire run s now_ns)
  unfolding expire
  expire-Balance s now_ns =
      each_slot-Balance r (expire_slot run now_ns) (expire_slot-Balance now_ns) s 0 max_spawns
        (omega arith)
