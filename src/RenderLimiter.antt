-- ===== src/RenderLimiter.antt =====
-- src/render_limiter.c: a token bucket for rendered frames, kept as one virtual time.
pub mod Rate
mod Tests
use i3sd.Common.{ℕ, ◌+◌, ◌-◌, ◌*◌, ◌%◌, ltb, if◌then◌else◌, u64_mod}

abbrev pub refill_ns : ℕ
refill_ns = 50_000_000

abbrev pub burst : ℕ
burst = 8

abbrev pub burst_slack_ns : ℕ
burst_slack_ns = (burst - 1) * refill_ns

pub record Limiter : Type 0 where
  pub virtual_time_ns : ℕ

unfoldable pub deadline : Limiter → ℕ
deadline l = if ltb burst_slack_ns l.virtual_time_ns then l.virtual_time_ns - burst_slack_ns else 0

unfoldable pub record_frame : Limiter → ℕ → Limiter
record_frame l now =
    let start = if ltb l.virtual_time_ns now then now else l.virtual_time_ns in
    record { virtual_time_ns = (start + refill_ns) % u64_mod }
