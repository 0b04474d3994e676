-- ===== src/Consent/Sizes.antt =====
-- consent/prompt.go: humanSize, and how far what it shows is from the size.
use freedesk.Prelude.{
  ℕ, ◌+◌, ◌*◌, ◌/◌, ◌^◌, ◌≤◌, ◌<◌, ◌≡◌, refl, true, false, ◌++◌, text, leb, arith,
}
use freedesk.Consent.{round_half_even, human_size, tenths, number}

-- Half a tenth of the unit at most.
abbrev pub IsNear : ℕ → ℕ → ℕ → Type 0
IsNear n unit t = (20 * n ≤ 2 * (t * unit) + unit) × (2 * (t * unit) ≤ 20 * n + unit)

round_gb : (n : ℕ) → IsNear n (2 ^ 30) (round_half_even (10 * n) (2 ^ 30))
unfolding round_half_even
round_gb n = ground arith

round_mb : (n : ℕ) → IsNear n (2 ^ 20) (round_half_even (10 * n) (2 ^ 20))
unfolding round_half_even
round_mb n = ground arith

-- The size that the operator reads: from a gibibyte on it is within half a tenth of one, and from a
-- mebibyte on within half a tenth of that; from a kibibyte on it is the whole kibibytes, rounded
-- down; and below it is exact.
pub human_size_lem :
    (n : ℕ)
    → (2 ^ 30 ≤ n
        → (t : ℕ) × (human_size n ≡ tenths t ++ text " GB") × IsNear n (2 ^ 30) t × (10 ≤ t))
      × (2 ^ 20 ≤ n
          → n < 2 ^ 30
          → (t : ℕ) × (human_size n ≡ tenths t ++ text " MB")
            × IsNear n (2 ^ 20) t
            × (10 ≤ t)
            × (t ≤ 10240))
      × (2 ^ 10 ≤ n
          → n < 2 ^ 20
          → (k : ℕ) × (human_size n ≡ number k ++ text " KB")
            × (k * 2 ^ 10 ≤ n)
            × (n < (k + 1) * 2 ^ 10))
      × (n < 2 ^ 10 → human_size n ≡ number n ++ text " bytes")
unfolding human_size
human_size_lem n = (
  λ gb.
      let e : leb (2 ^ 30) n ≡ true = ground arith in
      let near = round_gb n in
      (round_half_even (10 * n) (2 ^ 30), rw e refl, near, omega (arith, near.0)),
  λ mb gb.
      let e : leb (2 ^ 30) n ≡ false = ground arith in
      let f : leb (2 ^ 20) n ≡ true = ground arith in
      let near = round_mb n in
      (
        round_half_even (10 * n) (2 ^ 20),
        rw (e, f) refl,
        near,
        omega (arith, near.0),
        omega (arith, near.1),
      ),
  λ kb mb.
      let e : leb (2 ^ 30) n ≡ false = ground arith in
      let f : leb (2 ^ 20) n ≡ false = ground arith in
      let g : leb (2 ^ 10) n ≡ true = ground arith in
      (n / 2 ^ 10, rw (e, f, g) refl, omega arith, omega arith),
  λ kb.
      let e : leb (2 ^ 30) n ≡ false = ground arith in
      let f : leb (2 ^ 20) n ≡ false = ground arith in
      let g : leb (2 ^ 10) n ≡ false = ground arith in rw (e, f, g) refl,
)
