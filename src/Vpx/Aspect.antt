-- ===== src/Vpx/Aspect.antt =====
-- vpx/settings.go: what OutputSize promises.
use native.Mathlib.Nat.{div-add-mod, mod-lt, mul-le-mul_right, mul-le-mul_left}
use native.Mathlib.Decide.{dec_le}
use freedesk.Prelude.{
  int64_max, ℕ, ◌+◌, ◌*◌, ◌/◌, ◌%◌, ◌≤◌, ◌<◌, ◌≡◌, ◌⊎◌, inl, inr, min, max, arith,
}
use freedesk.Vpx.{output_size, even_part}

-- The height that keeps the aspect, before it is made at least 2: twice a rounded quotient.
scaled_height :
    (w h v : ℕ)
    → 0 < w
    → let t = (v * h + w * 2 / 2) / (w * 2) * 2 in (t * w ≤ v * h + w) × (v * h ≤ t * w + w)
scaled_height w h v p =
    let n = v * h + w * 2 / 2 in
    let whole = div-add-mod n (w * 2) in
    let part = mod-lt n {m = w * 2} (omega arith) in
    (omega (arith, whole, part), omega (arith, whole, part))

output_size_wider :
    (w h cap : ℕ)
    → 2 ≤ h
    → 2 ≤ cap
    → cap < w
    → output_size w h cap ≡ record {
      width = even_part cap;
      height = max ((even_part cap * h + w * 2 / 2) / (w * 2) * 2) 2;
    }
unfolding output_size
output_size_wider w h cap b c l = ground arith

at_least_two :
    (t w h v : ℕ)
    → 0 < w
    → (t * w ≤ v * h + w)
    → (v * h ≤ t * w + w)
    → ((max t 2 ≡ 2) ⊎ (max t 2 * w ≤ v * h + w)) × (v * h ≤ max t 2 * w + w)
at_least_two t w h v p below above = elim (dec_le t 2) [
  | yes small ↦
      let e : max t 2 ≡ 2 = omega arith in (inl e, rw e (omega (arith, mul-le-mul_right w small)))
  | no large ↦ let e : max t 2 ≡ t = omega arith in rw e (inr below, above)
]

fits_int64 : (v h : ℕ) → v ≤ 2147483648 → h ≤ 2147483648 → v * h ≤ 4611686018427387904
fits_int64 v h a b = omega (arith, mul-le-mul_right h a, mul-le-mul_left 2147483648 b)

-- The picture, of a desktop and a cap of at least 2 and less than 2 ^ 31 pixels: both sides are
-- even and at least 2, and the width is within the desktop's and the cap; of a desktop that fits at most
-- a row and a column are lost; of a wider one the width is the cap, less 1 if that is odd,
-- and the height that of the aspect to within a pixel, or 2; and the product on the way fits
-- int64.
pub output_size_bounds :
    (w h cap : ℕ)
    → (2 ≤ w) × (w < 2147483648)
    → (2 ≤ h) × (h < 2147483648)
    → (2 ≤ cap) × (cap < 2147483648)
    → let s = output_size w h cap in
      (s.width % 2 ≡ 0)
      × (s.height % 2 ≡ 0)
      × (2 ≤ s.width)
      × (2 ≤ s.height)
      × (s.width ≤ min w cap)
      × (w ≤ cap → (w ≤ s.width + 1) × (h ≤ s.height + 1) × (s.height ≤ h))
      × (cap < w
          → (cap ≤ s.width + 1)
            × ((s.height ≡ 2) ⊎ (s.height * w ≤ s.width * h + w))
            × (s.width * h ≤ s.height * w + w)
            × (s.width * h + w ≤ int64_max))
unfolding output_size
output_size_bounds w h cap a b c = elim (dec_le w cap) [
  | yes fits ↦ ground arith
  | no wider ↦
      let (below, above) = scaled_height w h (even_part cap) (omega arith) in
      let t = (even_part cap * h + w * 2 / 2) / (w * 2) * 2 in
      let (near, far) = at_least_two t w h (even_part cap) (omega arith) below above in
      rw (output_size_wider w h cap b.0 c.0 (omega arith)) (
        omega arith,
        omega arith,
        omega arith,
        omega arith,
        omega arith,
        (λ l. absurd (wider l)),
        λ _. (
          omega arith,
          near,
          far,
          omega (arith, fits_int64 (even_part cap) h (omega arith) (omega arith)),
        ),
      )
]
