-- ===== src/Spawn/Reading.antt =====
-- src/spawn.c, i3sd_spawn_read: the output of a child is read up to a budget.
use i3sd.Common.{
  ℕ, ◌+◌, ◌-◌, ◌*◌, min, Bool, true, false, not, ◌&&◌, ◌||◌, Option, none, some, List, [], ◌∷◌, ltb,
  if◌then◌else◌, length, take,
}
use i3sd.Buffer.{Buffer, append}
use i3sd.Buffer
use i3sd.Spawn.{Process, Spawns, put, Run, close_output}

abbrev pub read_budget : ℕ
read_budget = 64 * 1024

-- What one `read` answers: some bytes; EINTR; EAGAIN or EWOULDBLOCK; the end; or another error.
pub data ReadAnswer : Type 0 where
  bytes : List ℕ → ReadAnswer
  interrupted would_block ended failed : ReadAnswer

-- The bytes are kept up to the limit.
unfoldable pub keep_output : (ℕ → Bool) → Process → List ℕ → Process
keep_output realloc p chunk =
    let available = p.output_limit - Buffer.len p.output in
    let retained = min (length chunk) available in
    let (appended, output) = append realloc p.output (take retained chunk) p.output_limit in
    record p {
      output = if ltb 0 retained then output else p.output;
      overflow = (p.overflow || (ltb 0 retained && not appended)) || ltb retained (length chunk);
    }

-- The loop, with the bytes that are consumed; none where the answers run out.
unfoldable pub read_loop : Run → (ℕ → Bool) → List ReadAnswer → ℕ → Spawns → ℕ → Option Spawns
read_loop run realloc [] consumed s i = if ltb consumed read_budget then none else some s
read_loop run realloc (bytes chunk ∷ answers) consumed s i =
    let rest =
      read_loop run realloc answers (consumed + length chunk)
        (put s i (keep_output realloc (s.spawns i) chunk)) i in
    if ltb consumed read_budget then rest else some s
read_loop run realloc (interrupted ∷ answers) consumed s i =
    let rest = read_loop run realloc answers consumed s i in
    if ltb consumed read_budget then rest else some s
read_loop run realloc (would_block ∷ answers) consumed s i = some s
read_loop run realloc (ended ∷ answers) consumed s i =
    if ltb consumed read_budget then some (close_output run s i false) else some s
read_loop run realloc (failed ∷ answers) consumed s i =
    if ltb consumed read_budget then some (close_output run s i true) else some s

unfoldable pub read_output : Run → (ℕ → Bool) → List ReadAnswer → Spawns → ℕ → Option Spawns
read_output run realloc answers s i =
    if not (s.spawns i).active || not (s.spawns i).output_fd
    then some s
    else read_loop run realloc answers 0 s i
