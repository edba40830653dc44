-- ===== src/Spawn.antt =====
-- src/spawn.c: the child processes of blocks, in a fixed number of slots.
pub mod Input
pub mod Opening
pub mod Reading
mod Slots
mod Accounts
mod Ending
mod Lifetime
mod Passing
mod Expiring
mod Output
mod Draining
mod Tests
use i3sd.Common.{
  ℕ, zero, suc, ◌+◌, ◌-◌, ◌/◌, ◌%◌, ◌^◌, min, Bool, true, false, not, ◌&&◌, ◌||◌, Option, none,
  some, List, [], ◌∷◌, ltb, leb, ◌==◌, if◌then◌else◌, length, take, write,
}
use i3sd.Buffer.{Buffer, clear, append}
use i3sd.Buffer

abbrev pub max_spawns : ℕ
max_spawns = 8

-- The block that a process belongs to, and the generation of the block.
pub record Owner : Type 0 where
  pub block : ℕ
  pub generation : ℕ

-- `output_fd` says whether it is open; `block` is none where it is NULL, `callback_ref` where it is
-- LUA_NOREF. A pid is 0 once the child is reaped or given up.
pub record Process : Type 0 where
  pub pid : ℕ
  pub output_fd : Bool
  pub block : Option Owner
  pub callback_ref : Option ℕ
  pub serial : ℕ
  pub output_limit : ℕ
  pub deadline_ns : ℕ
  pub wait_status : ℕ
  pub output : Buffer
  pub active : Bool
  pub output_closed : Bool
  pub exited : Bool
  pub overflow : Bool
  pub io_error : Bool
  pub timed_out : Bool
  pub finish_pending : Bool

-- The table that a callback is given.
pub record Outcome : Type 0 where
  pub stdout : List ℕ
  pub success : Bool
  pub overflow : Bool
  pub io_error : Bool
  pub timed_out : Bool
  pub exit_status : Option ℕ
  pub signal : Option ℕ

pub data Signal : Type 0 where
  sigterm sigkill : Signal

-- What the functions do outside of the slots: a process is started for a callback; a process group gets
-- a signal; the output is taken out of epoll and closed; a callback is called, or skipped as its block
-- is gone, or cancelled; and its reference is given back.
pub data Effect : Type 0 where
  started : Option ℕ → Effect
  killed : ℕ → Signal → Effect
  output_gone : Effect
  called : Option ℕ → Outcome → Effect
  skipped : Option ℕ → Effect
  cancelled : Option ℕ → Effect
  unref : Option ℕ → Effect

-- `live` says whether a block is of the current generation and not faulted; the log has the latest
-- effect first.
pub record Spawns : Type 0 where
  pub spawns : ℕ → Process
  pub live : ℕ → Bool
  pub log : List Effect

abbrev pub put : Spawns → ℕ → Process → Spawns
put s i p = record s { spawns = write s.spawns i p }

abbrev pub note : Effect → Spawns → Spawns
note e s = record s { log = e ∷ s.log }

-- What a called function of Lua makes of the state, by calls of the functions below; if it fails, the
-- block is faulted too.
abbrev pub Run : Type 0
Run = Option ℕ → Outcome → Spawns → Spawns

-- The first of the slots that passes the test.
unfoldable pub find_slot : (Process → Bool) → (ℕ → Process) → ℕ → ℕ → Option ℕ
find_slot test spawns index zero = none
find_slot test spawns index (suc left) =
    let rest = find_slot test spawns (index + 1) left in
    if test (spawns index) then some index else rest

unfoldable pub released : Process → Process
released p = record p {
  output_fd = false;
  block = none;
  callback_ref = none;
  active = false;
  finish_pending = false;
  output = clear p.output;
}

unfoldable pub close_fd : Process → Spawns → Spawns
close_fd p s = if p.output_fd then note output_gone s else s

unfoldable pub release_slot : Spawns → ℕ → Spawns
release_slot s i = put (close_fd (s.spawns i) s) i (released (s.spawns i))

unfoldable pub kill_group : ℕ → Signal → Spawns → Spawns
kill_group pid signal s = if ltb 0 pid then note (killed pid signal) s else s

unfoldable pub cancel_process : Spawns → ℕ → Spawns
cancel_process s i =
    let p = s.spawns i in
    let stopped = put (kill_group p.pid sigterm s) i (record p { pid = 0 }) in
    release_slot (note (unref p.callback_ref) (note (cancelled p.callback_ref) stopped)) i

unfoldable pub cancel_serial : Spawns → ℕ → Spawns
cancel_serial s serial =
    elim (find_slot (λ p. p.active && p.serial == serial) s.spawns 0 max_spawns) [
      | none ↦ s
      | some i ↦ cancel_process s i
    ]

-- The owner of processes to be cancelled: a block, or else a generation.
pub data Target : Type 0 where
  of_block : ℕ → Target
  of_generation : ℕ → Target

unfoldable pub owned_by : Target → Option Owner → Bool
owned_by target none = false
owned_by (of_block block) (some owner) = owner.block == block
owned_by (of_generation generation) (some owner) = owner.generation == generation

unfoldable pub cancel_owned_slot : Target → Spawns → ℕ → Spawns
cancel_owned_slot target s i =
    if (s.spawns i).active && owned_by target (s.spawns i).block then cancel_process s i else s

-- A loop over the slots from `index`.
unfoldable pub each_slot : (Spawns → ℕ → Spawns) → Spawns → ℕ → ℕ → Spawns
each_slot body s index zero = s
each_slot body s index (suc left) = each_slot body (body s index) (index + 1) left

unfoldable pub cancel_owned : Spawns → Target → Spawns
cancel_owned s target = each_slot (cancel_owned_slot target) s 0 max_spawns

-- WIFEXITED, WEXITSTATUS, WIFSIGNALED and WTERMSIG of Linux.
abbrev pub wif_exited : ℕ → Bool
wif_exited status = status % 128 == 0

abbrev pub wexit_status : ℕ → ℕ
wexit_status status = status / 256 % 256

abbrev pub wif_signaled : ℕ → Bool
wif_signaled status = not (status % 128 == 0) && not (status % 128 == 127)

abbrev pub wterm_sig : ℕ → ℕ
wterm_sig status = status % 128

unfoldable pub outcome : Process → Outcome
outcome p =
    let exited_normally = wif_exited p.wait_status in
    record {
      stdout = p.output.bytes;
      success =
          (((exited_normally && wexit_status p.wait_status == 0) && not p.overflow)
            && not p.io_error)
          && not p.timed_out;
      overflow = p.overflow;
      io_error = p.io_error;
      timed_out = p.timed_out;
      exit_status = if exited_normally then some (wexit_status p.wait_status) else none;
      signal =
          if exited_normally
          then none
          else if wif_signaled p.wait_status
          then some (wterm_sig p.wait_status)
          else none;
    }

abbrev pub owner_live : Spawns → Option Owner → Bool
owner_live s none = false
owner_live s (some owner) = s.live owner.block

-- The slot is given free before the callback runs.
unfoldable pub finish_process : Run → Spawns → ℕ → Spawns
finish_process run s i =
    let p = s.spawns i in
    let free = release_slot s i in
    if (not p.active || not p.output_closed) || not p.exited
    then s
    else if owner_live s p.block
    then note (unref p.callback_ref)
        (run p.callback_ref (outcome p) (note (called p.callback_ref (outcome p)) free))
    else note (unref p.callback_ref) (note (skipped p.callback_ref) free)

unfoldable pub reaped : Run → Spawns → ℕ → ℕ → Spawns
reaped run s pid wait_status =
    elim (find_slot (λ p. p.active && p.pid == pid) s.spawns 0 max_spawns) [
      | none ↦ s
      | some i ↦
          finish_process run
            (put s i (record (s.spawns i) { pid = 0; wait_status = wait_status; exited = true })) i
    ]

unfoldable pub close_output : Run → Spawns → ℕ → Bool → Spawns
close_output run s i failed =
    let p = s.spawns i in
    let closed =
      put (close_fd p s) i
        (record p { output_fd = false; output_closed = true; io_error = p.io_error || failed }) in
    finish_process run (if failed then kill_group p.pid sigterm closed else closed) i

-- A process that runs past its deadline is killed, and its output is not waited for.
unfoldable pub time_out : Run → Spawns → ℕ → Spawns
time_out run s i =
    let p = s.spawns i in
    close_output run
      (kill_group p.pid sigkill (put s i (record p { deadline_ns = 0; timed_out = true }))) i false

-- A process that never ran is finished.
unfoldable pub finish_unstarted : Run → Spawns → ℕ → Spawns
finish_unstarted run s i =
    finish_process run (put s i (record (s.spawns i) { finish_pending = false })) i

unfoldable pub expire_slot : Run → ℕ → Spawns → ℕ → Spawns
expire_slot run now_ns s i =
    let p = s.spawns i in
    if not p.active
    then s
    else if p.finish_pending
    then finish_unstarted run s i
    else if p.deadline_ns == 0 || ltb now_ns p.deadline_ns
    then s
    else time_out run s i

unfoldable pub expire : Run → Spawns → ℕ → Spawns
expire run s now_ns = each_slot (expire_slot run now_ns) s 0 max_spawns

abbrev pub no_deadline : ℕ
no_deadline = 2 ^ 64 - 1

unfoldable pub deadline_from : (ℕ → Process) → ℕ → ℕ → ℕ → ℕ
deadline_from spawns deadline index zero = deadline
deadline_from spawns deadline index (suc left) =
    let p = spawns index in
    let rest =
      deadline_from spawns
        (if not p.active
          then deadline
          else if not (p.deadline_ns == 0) && ltb p.deadline_ns deadline
          then p.deadline_ns
          else deadline)
        (index + 1) left in
    if p.active && p.finish_pending then 0 else rest

unfoldable pub deadline : Spawns → ℕ
deadline s = deadline_from s.spawns no_deadline 0 max_spawns

unfoldable pub shutdown_slot : Spawns → ℕ → Spawns
shutdown_slot s i =
    let s' = if (s.spawns i).active then cancel_process s i else s in
    put s' i (record (s'.spawns i) { output = Buffer.destroy (s'.spawns i).output })

unfoldable pub shutdown : Spawns → Spawns
shutdown s = each_slot shutdown_slot s 0 max_spawns
