-- ===== src/Vpx/Examples.antt =====
-- The theorems about the encoder's settings, at concrete inputs.
use freedesk.Prelude.{◌+◌, ◌*◌, ◌%◌, ◌≤◌, ◌<◌, ◌≡◌, ◌⊎◌, refl, arith, min, int64_max}
use freedesk.Vpx.{output_size}
use freedesk.Vpx.Aspect.{output_size_bounds}

full_hd : output_size 2560 1440 1920 ≡ record { width = 1920; height = 1080 }
unfolding output_size
full_hd = refl

odd_screen : output_size 1367 769 1920 ≡ record { width = 1366; height = 768 }
unfolding output_size
odd_screen = refl

output_size_bounds_example :
    let s = output_size 3440 1440 1920 in
    (s.width % 2 ≡ 0)
    × (s.height % 2 ≡ 0)
    × (2 ≤ s.width)
    × (2 ≤ s.height)
    × (s.width ≤ min 3440 1920)
    × (3440 ≤ 1920 → (3440 ≤ s.width + 1) × (1440 ≤ s.height + 1) × (s.height ≤ 1440))
    × (1920 < 3440
        → (1920 ≤ s.width + 1)
          × ((s.height ≡ 2) ⊎ (s.height * 3440 ≤ s.width * 1440 + 3440))
          × (s.width * 1440 ≤ s.height * 3440 + 3440)
          × (s.width * 1440 + 3440 ≤ int64_max))
output_size_bounds_example =
    output_size_bounds 3440 1440 1920 (omega arith, omega arith) (omega arith, omega arith)
      (omega arith, omega arith)
