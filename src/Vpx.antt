-- ===== src/Vpx.antt =====
-- host-agent/internal/vpx/settings.go: the size of the encoded picture and the encoder's settings.
-- `int` has 64 bits on the targets; the sizes and rates that a caller can give are natural numbers here,
-- and what is not positive is 0, which the code treats the same.
pub mod Aspect
pub mod Rates
mod Examples
use freedesk.Prelude.{
  ℕ, ◌+◌, ◌-◌, ◌*◌, ◌/◌, ◌%◌, min, max, if◌then◌else◌, ltb, leb, ◌==◌, Bool, ◌||◌,
}

abbrev pub default_bitrate : ℕ
default_bitrate = 3000000

abbrev pub default_framerate : ℕ
default_framerate = 30

abbrev pub default_threads : ℕ
default_threads = 4

abbrev pub max_threads : ℕ
max_threads = 64

pub record Settings : Type 0 where
  pub width : ℕ
  pub height : ℕ
  pub bitrate : ℕ
  pub framerate : ℕ
  pub threads : ℕ

pub record Size : Type 0 where
  pub width : ℕ
  pub height : ℕ

-- `n &^ 1`
abbrev pub even_part : ℕ → ℕ
even_part n = n - n % 2

unfoldable pub output_size : ℕ → ℕ → ℕ → Size
output_size src_w src_h max_width =
    if src_w == 0 || src_h == 0
    then record { width = 0; height = 0 }
    else if max_width == 0 || leb src_w max_width
    then record { width = even_part src_w; height = even_part src_h }
    else (let w = even_part max_width in
        let den = src_w * 2 in
        record { width = w; height = max ((w * src_h + den / 2) / den * 2) 2 })

pub record RateControl : Type 0 where
  pub target_kbps : ℕ
  pub buf_ms : ℕ
  pub buf_initial_ms : ℕ
  pub buf_optimal_ms : ℕ
  pub undershoot_pct : ℕ
  pub overshoot_pct : ℕ
  pub max_intra_pct : ℕ
  pub kf_max_dist : ℕ
  pub cpu_used : ℕ
  pub threads : ℕ
  pub error_resilient : ℕ

abbrev pub or_default : ℕ → ℕ → ℕ
or_default n d = if n == 0 then d else n

-- `cpus` is runtime.NumCPU.
unfoldable pub rate_control_for : ℕ → Settings → RateControl
rate_control_for cpus s =
    let bitrate = or_default s.bitrate default_bitrate in
    let framerate = or_default s.framerate default_framerate in
    let threads = min (or_default s.threads (min cpus default_threads)) max_threads in
    let buf_ms = bitrate * 1000 / bitrate in
    record {
      target_kbps = (bitrate + 500) / 1000;
      buf_ms = buf_ms;
      buf_initial_ms = bitrate / 2 * 1000 / bitrate;
      buf_optimal_ms = buf_ms * 5 / 6;
      undershoot_pct = 100;
      overshoot_pct = 15;
      max_intra_pct = 300;
      kf_max_dist = framerate * 2;
      cpu_used = 5;
      threads = threads;
      error_resilient = 1;
    }
