-- ===== src/RenderLimiter/Rate.antt =====
-- The frame rate that the limiter of src/render_limiter.c enforces on a caller that renders only
-- once the deadline is reached.
use i3sd.Common.{ℕ, zero, suc, ◌+◌, ◌-◌, ◌*◌, ◌≤◌, ◌<◌, ◌≡◌, ◌↔◌, u64_mod, arith}
use i3sd.RenderLimiter.{Limiter, refill_ns, burst, deadline, record_frame}

-- `Frames l first last n m`: from `l`, `n` frames were recorded, the first at `first` and the last at
-- `last`, none before its deadline, and the limiter is now `m`.
pub data Frames (l : Limiter) (first : ℕ) : ℕ → ℕ → Limiter → Type 0 where
  one : deadline l ≤ first → Frames l first first 1 (record_frame l first)
  more :
      {last n : ℕ} {m : Limiter} (now : ℕ)
      → Frames l first last n m
      → last ≤ now
      → deadline m ≤ now
      → Frames l first now (suc n) (record_frame m now)

-- Virtual time lies between the first frame plus the credits spent and the last frame plus a burst.
record Credits (first last n time : ℕ) : Type 0 where
  spent : first + n * refill_ns ≤ time
  owed : time ≤ last + burst * refill_ns
  ordered : first ≤ last

frames-Credits :
    (l : Limiter) (first last n : ℕ) (m : Limiter)
    → last + burst * refill_ns < u64_mod
    → Frames l first last n m
    → Credits first last n m.virtual_time_ns
unfolding deadline record_frame
frames-Credits l first _ _ _ h (one d) = ground arith
frames-Credits l first _ _ _ h (more {last} {n} {m} now f p d) =
    let ih = frames-Credits l first last n m (omega arith) f in
    ground (arith, ih.spent, ih.owed, ih.ordered)

-- Whatever the limiter's state, if n frames are recorded, each at or after its deadline, at times
-- that do not decrease, and the last is at least a burst away from the 64-bit bound, then n refill
-- intervals are at most the time from the first frame to the last plus a burst of eight.
pub frames_rate :
    (l : Limiter) (first last n : ℕ) (m : Limiter)
    → last + burst * refill_ns < u64_mod
    → Frames l first last n m
    → n * refill_ns ≤ (last - first) + burst * refill_ns
frames_rate l first last n m h f =
    let c = frames-Credits l first last n m h f in omega (arith, c.spent, c.owed, c.ordered)

-- `k` frames recorded at one moment.
unfoldable pub record_burst : ℕ → Limiter → ℕ → Limiter
record_burst zero l now = l
record_burst (suc k) l now = record_frame (record_burst k l now) now

record_burst-time :
    (k : ℕ) (l : Limiter) (now : ℕ)
    → l.virtual_time_ns ≤ now
    → now + suc k * refill_ns < u64_mod
    → (record_burst (suc k) l now).virtual_time_ns ≡ now + suc k * refill_ns
unfolding record_burst record_frame
record_burst-time zero l now p h = ground arith
record_burst-time (suc k) l now p h = ground (arith, record_burst-time k l now p (omega arith))

-- From a full bucket (virtual time not past now, as after an idle period or at the start), after k
-- frames at the same moment one more is permitted at that moment exactly when k is below eight.
pub full_bucket_burst :
    (k : ℕ) (l : Limiter) (now : ℕ)
    → l.virtual_time_ns ≤ now
    → now + suc k * refill_ns < u64_mod
    → (deadline (record_burst k l now) ≤ now) ↔ (k < burst)
unfolding deadline record_burst
full_bucket_burst zero l now p h = ground arith
full_bucket_burst (suc k) l now p h = ground (arith, record_burst-time k l now p)
