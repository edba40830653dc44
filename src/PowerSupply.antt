-- ===== src/PowerSupply.antt =====
-- src/power_supply_events.c: the kernel's uevents on power supplies, and the subscriptions to them.
pub mod Fields
pub mod Retrying
mod Tests
use i3sd.Common.{
  ℕ, zero, suc, ◌+◌, ◌%◌, ◌^◌, Bool, true, false, not, ◌&&◌, ◌||◌, Option, none, some, List, [],
  ◌∷◌, ◌++◌, ltb, leb, ◌==◌, if◌then◌else◌, length, take, list_eq, u64_mod, u64_max,
}

abbrev pub retry_ns : ℕ
retry_ns = 5000000000

abbrev pub buffer_size : ℕ
buffer_size = 8192

abbrev pub dispatch_budget : ℕ
dispatch_budget = 256

-- SUBSYSTEM=power_supply
abbrev pub subsystem : List ℕ
subsystem =
    b'S' ∷ b'U' ∷ b'B' ∷ b'S' ∷ b'Y' ∷ b'S' ∷ b'T' ∷ b'E' ∷ b'M' ∷ b'=' ∷ b'p' ∷ b'o' ∷ b'w' ∷ b'e'
    ∷ b'r' ∷ b'_' ∷ b's' ∷ b'u' ∷ b'p' ∷ b'p' ∷ b'l' ∷ b'y' ∷ []

-- A subscription, and what its block is: cancelled, or its block faulted.
pub record Subscription : Type 0 where
  pub cancelled : Bool
  pub faulted : Bool

-- The source and what it sees of the program: whether there is a current generation, whether that is
-- still staging, and its subscriptions by number, in the order of their list. `calls` are the numbers of
-- the callbacks that ran, the latest first.
pub record Source : Type 0 where
  pub fd : Bool
  pub retry_deadline_ns : ℕ
  pub current : Bool
  pub staging : Bool
  pub subscriptions : List ℕ
  pub subscription : ℕ → Subscription
  pub calls : List ℕ

abbrev pub is_wanted : Subscription → Bool
is_wanted x = not x.cancelled && not x.faulted

-- The loop over the subscriptions.
unfoldable pub any_wanted : (ℕ → Subscription) → List ℕ → Bool
any_wanted subscription [] = false
any_wanted subscription (n ∷ rest) =
    if is_wanted (subscription n) then true else any_wanted subscription rest

unfoldable pub source_needed : Source → Bool
source_needed s = if not s.current then false else any_wanted s.subscription s.subscriptions

-- `memchr` for a NUL: the field, and what follows the NUL if there is one.
unfoldable pub split_field : List ℕ → List ℕ × Option (List ℕ)
split_field [] = ([], none)
split_field (c ∷ event) =
    let (field, rest) = split_field event in if c == 0 then ([], some event) else (c ∷ field, rest)

-- The loop; a round that goes on takes a byte at least, so the size of the event is fuel enough.
unfoldable pub scan_fields : ℕ → List ℕ → Bool
scan_fields zero event = false
scan_fields (suc fuel) [] = false
scan_fields (suc fuel) (c ∷ event) =
    let (field, rest) = split_field (c ∷ event) in
    let more : Bool = elim rest [ none ↦ false | some next ↦ scan_fields fuel next ] in
    if length field == length subsystem && list_eq field subsystem then true else more

unfoldable pub event_is_power_supply : List ℕ → Bool
event_is_power_supply event = scan_fields (length event) event

-- What a callback makes of the state by its calls; if it fails, its block is faulted too.
abbrev pub Run : Type 0
Run = ℕ → Source → Source

-- The next subscription is read before a callback runs, and none is unlinked; a new one goes to the
-- front of the list.
unfoldable pub notify_each : Run → List ℕ → Source → Source
notify_each run [] s = s
notify_each run (n ∷ rest) s =
    notify_each run rest
      (if is_wanted (s.subscription n) then run n (record s { calls = n ∷ s.calls }) else s)

unfoldable pub notify : Run → Source → Source
notify run s = if not s.current || s.staging then s else notify_each run s.subscriptions s

unfoldable pub close_source : Source → Source
close_source s = record s { fd = false }

abbrev pub retry_later : Source → ℕ → Source
retry_later s now_ns = record s { retry_deadline_ns = (now_ns + retry_ns) % u64_mod }

-- Whether the calls of socket, bind and epoll_ctl succeed.
pub record Opening : Type 0 where
  pub socket : Bool
  pub bind : Bool
  pub epoll_ctl : Bool

unfoldable pub open_source : Opening → Source → ℕ → Source
open_source o s now_ns =
    if not o.socket
    then retry_later s now_ns
    else if not o.bind
    then retry_later s now_ns
    else if not o.epoll_ctl
    then retry_later s now_ns
    else record s { fd = true; retry_deadline_ns = 0 }

unfoldable pub reconcile : Opening → Source → ℕ → Source
reconcile o s now_ns =
    if not (source_needed s)
    then record (if s.fd then close_source s else s) { retry_deadline_ns = 0 }
    else if not s.fd && leb s.retry_deadline_ns now_ns
    then open_source o s now_ns
    else s

-- What recvfrom answers: a datagram of some size, with the bytes that fit the buffer and the pid of its
-- sender; EINTR; EAGAIN or EWOULDBLOCK; or another error.
pub data Received : Type 0 where
  datagram : ℕ → List ℕ → ℕ → Received
  interrupted would_block failed : Received

pub data Drained : Type 0 where
  drained : Bool → Drained
  broken : Drained

-- The loop with the rounds that are left: whether an event is on a power supply, or an error ends it.
-- Answers that run out are taken as EAGAIN.
unfoldable pub drain : ℕ → List Received → Bool → Drained
drain zero answers changed = drained changed
drain (suc rounds) [] changed = drained changed
drain (suc rounds) (datagram size event sender ∷ answers) changed =
    drain rounds answers (
      changed || ((leb size buffer_size && sender == 0) && event_is_power_supply (take size event)))
drain (suc rounds) (interrupted ∷ answers) changed = drain rounds answers changed
drain (suc rounds) (would_block ∷ answers) changed = drained changed
drain (suc rounds) (failed ∷ answers) changed = broken

unfoldable pub after_drain : Run → Opening → Source → ℕ → Drained → Source
after_drain run o s now_ns broken = retry_later (close_source s) now_ns
after_drain run o s now_ns (drained changed) =
    reconcile o (if changed then notify run s else s) now_ns

unfoldable pub process : Run → Opening → List Received → Source → ℕ → Source
process run o answers s now_ns =
    if not s.fd then s else after_drain run o s now_ns (drain dispatch_budget answers false)

unfoldable pub deadline : Source → ℕ
deadline s =
    if (not (source_needed s) || s.fd) || s.retry_deadline_ns == 0
    then u64_max
    else s.retry_deadline_ns
