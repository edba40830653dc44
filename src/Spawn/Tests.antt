-- ===== src/Spawn/Tests.antt =====
-- Runs of the functions of the slots, and the theorems at concrete states.
use i3sd.Common.{ℕ, ◌≤◌, ◌<◌, ◌≡◌, refl, Bool, true, false, none, some, List, [], ◌∷◌, arith}
use i3sd.Spawn.{
  Process, Spawns, started, killed, output_gone, cancelled, unref, sigterm, Run, max_spawns,
  find_slot, released, release_slot, close_fd, kill_group, cancel_process, cancel_serial,
  finish_process, reaped, expire, deadline, deadline_from,
}
use i3sd.Spawn.Input.{
  wrote, interrupted, write_input, Written, write_input-Written, Calls, start_child,
}
use i3sd.Spawn.Opening.{
  Start, Request, open_spawn, open_slot, watch_output, input_ready, new_process,
}
use i3sd.Spawn.Reading.{ReadAnswer, bytes, would_block, read_output}
use i3sd.Spawn.Reading
use i3sd.Spawn.Passing.{Pass}
use i3sd.Spawn.Expiring.{is_due, expire-deadline}
use i3sd.Spawn.Output.{keep_all, joined, Kept, Cut}
use i3sd.Spawn.Draining.{Drains, read_output-Drains}

write_input-Written_example :
    Written
      (wrote 1 ∷ interrupted ∷ wrote 7 ∷ wrote 0 ∷ [])
      (b'a' ∷ b'b' ∷ b'c' ∷ [])
      (write_input (wrote 1 ∷ interrupted ∷ wrote 7 ∷ wrote 0 ∷ []) (b'a' ∷ b'b' ∷ b'c' ∷ []))
write_input-Written_example =
    write_input-Written (wrote 1 ∷ interrupted ∷ wrote 7 ∷ wrote 0 ∷ []) (b'a' ∷ b'b' ∷ b'c' ∷ [])
      (omega arith)

abbrev free_slot : Process
free_slot = record {
  pid = 0;
  output_fd = false;
  block = none;
  callback_ref = none;
  serial = 0;
  output_limit = 0;
  deadline_ns = 0;
  wait_status = 0;
  output = record { bytes = []; cap = 0 };
  active = false;
  output_closed = false;
  exited = false;
  overflow = false;
  io_error = false;
  timed_out = false;
  finish_pending = false;
}

abbrev no_processes : Spawns
no_processes = record { spawns = λ i. free_slot; live = λ block. true; log = [] }

abbrev do_nothing : Run
do_nothing callback_ref o s = s

abbrev all_well : Calls
all_well = record {
  init_actions = 0;
  init_attributes = 0;
  dup_input = 0;
  dup_output = 0;
  set_flags = 0;
  set_group = 0;
  set_mask = 0;
  spawn = 0;
}

abbrev works : Start
works = record {
  memfd_create = true;
  writes = wrote 0 ∷ [];
  lseek = true;
  pipe2 = true;
  calls = all_well;
  pid = 42;
  make_nonblocking = true;
  epoll_ctl = true;
}

abbrev request : Request
request = record {
  owner = record { block = 1; generation = 1 };
  input = b'x' ∷ [];
  output_limit = 4;
  deadline_ns = 1000;
  callback_ref = 9;
  serial = 5;
}

abbrev one_process : Spawns
one_process = (open_spawn works request no_processes).1

one_started : one_process.log ≡ started (some 9) ∷ []
unfolding open_spawn find_slot open_slot input_ready write_input start_child watch_output
    new_process
one_started = refl

one_deadline : deadline one_process ≡ 1000
unfolding open_spawn find_slot open_slot input_ready write_input start_child watch_output
    new_process deadline deadline_from
one_deadline = refl

-- The child exits with its output open, so the callback waits for the end of the output.
waits : (reaped do_nothing one_process 42 256).log ≡ started (some 9) ∷ []
unfolding open_spawn find_slot open_slot input_ready write_input start_child watch_output
    new_process reaped finish_process
waits = refl

one_cancelled :
    (cancel_serial one_process 5).log
    ≡ output_gone ∷ unref (some 9) ∷ cancelled (some 9) ∷ killed 42 sigterm ∷ started (some 9) ∷ []
unfolding open_spawn find_slot open_slot input_ready write_input start_child watch_output
    new_process cancel_serial cancel_process kill_group release_slot close_fd released
one_cancelled = refl

expire-deadline_example :
    Pass do_nothing 999 one_process 0 max_spawns (expire do_nothing one_process 999)
    × (999 < deadline one_process → expire do_nothing one_process 999 ≡ one_process)
    × (deadline one_process ≤ 999
        → (j : ℕ) × (j < max_spawns) × (is_due 999 (one_process.spawns j) ≡ true))
expire-deadline_example = expire-deadline do_nothing one_process 999 (omega arith)

abbrev reading : Spawns
reading = record no_processes {
  spawns = λ i. record free_slot { active = true; output_fd = true; output_limit = 4; pid = 42 };
}

-- Three bytes with an interruption, then two more than the limit takes, then no more for now.
abbrev drawn : List ReadAnswer
drawn =
    bytes (b'a' ∷ b'b' ∷ [])
    ∷ Reading.interrupted
    ∷ bytes (b'c' ∷ [])
    ∷ bytes (b'd' ∷ b'e' ∷ b'f' ∷ [])
    ∷ would_block
    ∷ []

read_output-Drains_example :
    Drains do_nothing
      (λ size. true)
      reading
      0
      (reading.spawns 0)
      0
      drawn
      (read_output do_nothing (λ size. true) drawn reading 0)
    × ((more : List (List ℕ))
        → Kept (reading.spawns 0) (joined more) (keep_all (λ size. true) (reading.spawns 0) more))
    × (((size : ℕ) → ◌≡◌ {A = Bool} true true)
        → (more : List (List ℕ))
        → Cut (reading.spawns 0) (joined more) (keep_all (λ size. true) (reading.spawns 0) more))
read_output-Drains_example =
    read_output-Drains do_nothing (λ size. true) drawn reading 0 refl refl
      (record {
        valid = record { fits = omega arith; word = omega arith };
        within = omega arith;
        word = omega arith;
      })
      tt
