-- ===== src/Prelude/Int.antt =====
-- Go's int64 (and int on the 64-bit targets): an integer, with the wrap-around written out.
use Prim.Native.Nat.{ℕ, ◌+◌, ◌-◌, ◌%◌, ◌≤◌}
use mathlib.Core.Path.{◌≡◌}
use mathlib.Core.Bool.{Bool, true, false}
use native.Mathlib.Omega.{arith}
use freedesk.Prelude.Tests.{ltb, leb, if◌then◌else◌}

-- `negsuc n` is -(n + 1).
pub data ℤ : Type 0 where
  pos : ℕ → ℤ
  negsuc : ℕ → ℤ

abbrev pub word_mod : ℕ
word_mod = 18446744073709551616

abbrev pub int64_max : ℕ
int64_max = 9223372036854775807

-- The bit pattern of an integer, and the integer that a bit pattern stands for.
abbrev pub to_word : ℤ → ℕ
to_word (pos n) = n % word_mod
to_word (negsuc n) = word_mod - 1 - n % word_mod

abbrev pub of_word : ℕ → ℤ
of_word w = if leb w int64_max then pos w else negsuc (word_mod - 1 - w)

infixl 65 ◌+ℤ◌
abbrev pub ◌+ℤ◌ : ℤ → ℤ → ℤ
a +ℤ b = of_word ((to_word a + to_word b) % word_mod)

-- The comparisons with a constant that is not negative.
abbrev pub is_neg : ℤ → Bool
is_neg (pos n) = false
is_neg (negsuc n) = true

abbrev pub is_pos : ℤ → Bool
is_pos (pos n) = ltb 0 n
is_pos (negsuc n) = false

-- `z > n`
abbrev pub exceeds : ℤ → ℕ → Bool
exceeds (pos m) n = ltb n m
exceeds (negsuc m) n = false

-- A value known not to be negative.
abbrev pub magnitude : ℤ → ℕ
magnitude (pos n) = n
magnitude (negsuc n) = 0

-- Small sums do not wrap.
pub +ℤ-pos : (a b : ℕ) → a + b ≤ int64_max → pos a +ℤ pos b ≡ pos (a + b)
+ℤ-pos a b h = ground arith
