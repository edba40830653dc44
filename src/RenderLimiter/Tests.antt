-- ===== src/RenderLimiter/Tests.antt =====
-- Runs of src/render_limiter.c, and its theorems at them.
use i3sd.Common.{◌+◌, ◌-◌, ◌*◌, ◌≤◌, ◌<◌, ◌≡◌, refl, ◌↔◌, arith}
use i3sd.RenderLimiter.{Limiter, refill_ns, burst, deadline, record_frame}
use i3sd.RenderLimiter.Rate.{Frames, one, more, frames_rate, record_burst, full_bucket_burst}

abbrev fresh : Limiter
fresh = record { virtual_time_ns = 0 }

abbrev after_one : Limiter
after_one = record_frame fresh 1000

abbrev after_two : Limiter
after_two = record_frame after_one 2000

-- Nine frames at one moment: the ninth waits for one refill.
ninth_waits : deadline (record_burst 8 fresh 1000) ≡ 1000 + refill_ns
unfolding deadline record_frame record_burst
ninth_waits = refl

two_frames : Frames fresh 1000 2000 2 after_two
unfolding deadline record_frame
two_frames = more 2000 (one (omega arith)) (omega arith) (omega arith)

frames_rate_example : 2 * refill_ns ≤ (2000 - 1000) + burst * refill_ns
frames_rate_example = frames_rate fresh 1000 2000 2 after_two (omega arith) two_frames

full_bucket_burst_example : (deadline (record_burst 8 fresh 1000) ≤ 1000) ↔ (8 < burst)
full_bucket_burst_example = full_bucket_burst 8 fresh 1000 (omega arith) (omega arith)
