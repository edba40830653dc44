-- ===== src/Spawn/Accounts.antt =====
-- Each operation of src/spawn.c keeps the account of every callback reference.
use i3sd.Common.{ℕ, ◌+◌, ◌<◌, ◌≡◌, refl, ap, true, Option, arith}
use i3sd.Spawn.{
  Process, Spawns, cancelled, unref, put, note, max_spawns, close_fd, released, release_slot,
  kill_group, Signal, sigterm, cancel_process,
}
use i3sd.Spawn.Slots.{
  same_ref, one_if, holding, held, total, starts, endings, unrefs, held-put, close_fd_counts,
  kill_group_counts,
}

-- Between two states the processes that are started for the reference are those that are then active
-- or have ended; and each ended one gives the reference back.
pub record Balance (r : Option ℕ) (s s' : Spawns) : Type 0 where
  pub lives : starts r s' + (held r s + endings r s) ≡ starts r s + (held r s' + endings r s')
  pub refs : unrefs r s' + endings r s ≡ unrefs r s + endings r s'

pub Balance-refl : (r : Option ℕ) (s : Spawns) → Balance r s s
Balance-refl r s = record { lives = refl; refs = refl }

pub Balance-trans : (r : Option ℕ) (s t u : Spawns) → Balance r s t → Balance r t u → Balance r s u
Balance-trans r s t u b c = record {
  lives = omega (arith, b.lives, c.lives);
  refs = omega (arith, b.refs, c.refs);
}

-- The counts are the same, but for the slot.
pub record Lost (r : Option ℕ) (n : ℕ) (s s' : Spawns) : Type 0 where
  pub slots : held r s' + n ≡ held r s
  pub same_starts : starts r s' ≡ starts r s
  pub same_endings : endings r s' ≡ endings r s
  pub same_unrefs : unrefs r s' ≡ unrefs r s

module _ (r : Option ℕ) (s : Spawns) (i : ℕ) (h : i < max_spawns) where
  pub release_slot-Lost : Lost r (holding r (s.spawns i)) s (release_slot s i)
  unfolding release_slot released
  release_slot-Lost =
      let p = s.spawns i in
      let closed = close_fd p s in
      let (slots, a, b, c, same) = close_fd_counts r p s in
      let moved = held-put r closed i (released p) h in
      let at : holding r (closed.spawns i) ≡ holding r p =
        ap (λ (f : ℕ → Process). holding r (f i)) same in
      record {
        slots = omega (arith, moved, at, slots);
        same_starts = a;
        same_endings = b;
        same_unrefs = c;
      }

  -- A slot is changed to one that holds the same.
  pub put-Lost : (p : Process) → holding r p ≡ holding r (s.spawns i) → Lost r 0 s (put s i p)
  put-Lost p e = record {
    slots = omega (arith, held-put r s i p h, e);
    same_starts = refl;
    same_endings = refl;
    same_unrefs = refl;
  }

pub kill_group-Lost :
    (r : Option ℕ) (pid : ℕ) (signal : Signal) (s : Spawns) → Lost r 0 s (kill_group pid signal s)
kill_group-Lost r pid signal s =
    let (slots, a, b, c, same) = kill_group_counts r pid signal s in
    record { slots = omega (arith, slots); same_starts = a; same_endings = b; same_unrefs = c }

pub close_fd-Lost : (r : Option ℕ) (p : Process) (s : Spawns) → Lost r 0 s (close_fd p s)
close_fd-Lost r p s =
    let (slots, a, b, c, same) = close_fd_counts r p s in
    record { slots = omega (arith, slots); same_starts = a; same_endings = b; same_unrefs = c }

pub Lost-Balance : (r : Option ℕ) (s s' : Spawns) → Lost r 0 s s' → Balance r s s'
Lost-Balance r s s' l = record {
  lives = omega (arith, l.slots, l.same_starts, l.same_endings);
  refs = omega (arith, l.same_endings, l.same_unrefs);
}

pub active_holding :
    (r : Option ℕ) (p : Process)
    → p.active ≡ true
    → holding r p ≡ one_if (same_ref p.callback_ref r)
active_holding r p active = rw active refl

pub cancel_process-Balance :
    (r : Option ℕ) (s : Spawns) (i : ℕ)
    → i < max_spawns
    → (s.spawns i).active ≡ true
    → Balance r s (cancel_process s i)
unfolding cancel_process total
cancel_process-Balance r s i h active =
    let p = s.spawns i in
    let killed_state = kill_group p.pid sigterm s in
    let (slots, a, b, c, same) = kill_group_counts r p.pid sigterm s in
    let stopped = put killed_state i (record p { pid = 0 }) in
    let at : holding r (killed_state.spawns i) ≡ holding r p =
      ap (λ (f : ℕ → Process). holding r (f i)) same in
    let moved = held-put r killed_state i (record p { pid = 0 }) h in
    let noted = note (unref p.callback_ref) (note (cancelled p.callback_ref) stopped) in
    let lost = release_slot-Lost r noted i h in
    let own : holding r (noted.spawns i) ≡ one_if (same_ref p.callback_ref r) = ground arith in
    record {
      lives = omega (
        arith,
        moved,
        at,
        slots,
        a,
        b,
        lost.slots,
        lost.same_starts,
        lost.same_endings,
        own,
        active_holding r p active,
      );
      refs = omega (arith, b, c, lost.same_endings, lost.same_unrefs);
    }
