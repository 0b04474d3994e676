-- ===== src/Vpx/Rates.antt =====
-- vpx/settings.go: what rateControlFor gives the encoder.
use native.Mathlib.Nat.{mul-div_cancel_left, le-div_iff_mul-le, div-le_of_le-mul}
use freedesk.Prelude.{ℕ, ◌+◌, ◌*◌, ◌/◌, ◌≤◌, ◌<◌, ◌≡◌, arith}
use freedesk.Vpx.{Settings, rate_control_for, or_default, default_bitrate, default_framerate}

half_second : (b : ℕ) → 500 ≤ b → (499 ≤ b / 2 * 1000 / b) × (b / 2 * 1000 / b ≤ 500)
half_second b h = (
  (le-div_iff_mul-le {x = 499} {y = b / 2 * 1000} (omega arith)).1 (omega arith),
  div-le_of_le-mul b {m = b / 2 * 1000} (omega arith),
)

-- Whatever is set, for a bitrate of 500 bits a second or more, on a machine that has a processor: the
-- buffer holds a second, starts half full to within a millisecond and aims at five sixths; the target is the bitrate
-- rounded to kilobits; there are 1 to 64 threads, and at most 4 where none are asked for; and
-- a keyframe comes every two seconds of frames.
pub rate_control_for_bounds :
    (cpus : ℕ) (s : Settings)
    → 1 ≤ cpus
    → 500 ≤ or_default s.bitrate default_bitrate
    → let rate = rate_control_for cpus s in
      (rate.buf_ms ≡ 1000)
      × (499 ≤ rate.buf_initial_ms)
      × (rate.buf_initial_ms ≤ 500)
      × (rate.buf_optimal_ms ≡ 833)
      × (rate.target_kbps * 1000 ≤ or_default s.bitrate default_bitrate + 500)
      × (or_default s.bitrate default_bitrate < rate.target_kbps * 1000 + 500)
      × (1 ≤ rate.threads)
      × (rate.threads ≤ 64)
      × (s.threads ≡ 0 → rate.threads ≤ 4)
      × (rate.kf_max_dist ≡ 2 * or_default s.framerate default_framerate)
unfolding rate_control_for
rate_control_for_bounds cpus s c b =
    let rate = or_default s.bitrate default_bitrate in
    let second : rate * 1000 / rate ≡ 1000 = mul-div_cancel_left 1000 (omega arith) in
    let (low, high) = half_second rate b in
    rw second (
      omega arith,
      low,
      high,
      omega arith,
      omega arith,
      omega arith,
      ground arith,
      omega arith,
      ground arith,
      omega arith,
    )
