-- ===== src/Spawn/Opening.antt =====
-- src/spawn.c, i3sd_spawn_open: a child is started and takes a free slot.
use i3sd.Common.{
  ℕ, ◌*◌, Bool, true, false, not, ◌&&◌, ◌||◌, Option, none, some, List, ◌==◌, if◌then◌else◌,
}
use i3sd.Buffer.{clear}
use i3sd.Spawn.{Owner, Process, Spawns, put, note, started, killed, sigterm, max_spawns, find_slot}
use i3sd.Spawn.Input.{Calls, start_child, WriteAnswer, write_input}

abbrev pub eagain : ℕ
eagain = 11

abbrev pub enomem : ℕ
enomem = 12

abbrev pub exec_failed_status : ℕ
exec_failed_status = 127 * 256

-- What the system answers: whether each call succeeds, and the pid of the child if it is started.
pub record Start : Type 0 where
  pub memfd_create : Bool
  pub writes : List WriteAnswer
  pub lseek : Bool
  pub pipe2 : Bool
  pub calls : Calls
  pub pid : ℕ
  pub make_nonblocking : Bool
  pub epoll_ctl : Bool

-- What the caller asks for.
pub record Request : Type 0 where
  pub owner : Owner
  pub input : List ℕ
  pub output_limit : ℕ
  pub deadline_ns : ℕ
  pub callback_ref : ℕ
  pub serial : ℕ

-- Answers that run out mean that the writing has not ended; it is then no success.
abbrev pub wrote_all : Option (Bool × List ℕ) → Bool
wrote_all none = false
wrote_all (some (done, sent)) = done

unfoldable pub input_ready : Start → Request → Bool
input_ready st r = (st.memfd_create && wrote_all (write_input st.writes r.input)) && st.lseek

-- The slot as it is set before the child is known.
unfoldable pub new_process : Process → Request → Process
new_process old r = record {
  pid = 0;
  output_fd = false;
  block = some r.owner;
  callback_ref = some r.callback_ref;
  serial = r.serial;
  output_limit = r.output_limit;
  deadline_ns = 0;
  wait_status = 0;
  output = clear old.output;
  active = true;
  output_closed = false;
  exited = false;
  overflow = false;
  io_error = false;
  timed_out = false;
  finish_pending = false;
}

unfoldable pub exec_failed : Process → Process
exec_failed p = record p {
  wait_status = exec_failed_status;
  exited = true;
  output_closed = true;
  finish_pending = true;
}

-- The slot with a running child, whose output is to be watched.
unfoldable pub watch_output : Start → Request → Spawns → ℕ → Process → Bool × Spawns
watch_output st r s i p =
    let running = record p { pid = st.pid; deadline_ns = r.deadline_ns } in
    let given_up = record running { block = none; callback_ref = none; active = false } in
    if not st.make_nonblocking || not st.epoll_ctl
    then (false, note (killed st.pid sigterm) (put s i given_up))
    else (
      true,
      note (started (some r.callback_ref)) (put s i (record running { output_fd = true })),
    )

unfoldable pub open_slot : Start → Request → Spawns → ℕ → Bool × Spawns
open_slot st r s i =
    let spawn_error = start_child st.calls in
    let p = new_process (s.spawns i) r in
    if not (input_ready st r)
    then (false, s)
    else if not st.pipe2
    then (false, s)
    else if spawn_error == eagain || spawn_error == enomem
    then (false, s)
    else if not (spawn_error == 0)
    then (true, note (started (some r.callback_ref)) (put s i (exec_failed p)))
    else watch_output st r s i p

unfoldable pub open_spawn : Start → Request → Spawns → Bool × Spawns
open_spawn st r s = elim (find_slot (λ p. not p.active) s.spawns 0 max_spawns) [
  | none ↦ (false, s)
  | some i ↦ open_slot st r s i
]
