-- ===== src/Prelude/Runes.antt =====
-- Trimming and cutting a text: what the results keep of it.
use Prim.Native.Nat.{ℕ, ◌+◌, ◌≤◌}
use mathlib.Core.Path.{◌≡◌, refl}
use mathlib.Core.Bool.{Bool, false, ◌||◌}
use mathlib.Core.List.{[], ◌∷◌, ◌++◌}
use native.Mathlib.Omega.{arith}
use freedesk.Prelude.Lists.{any}
use freedesk.Prelude.Strings.{Text, width, byte_len, trim_left, put_front, trim_right}

-- Whether the last rune is of a kind.
abbrev pub ends_in : (ℕ → Bool) → Text → Bool
ends_in p [] = false
ends_in p (c ∷ []) = p c
ends_in p (c ∷ d ∷ s) = ends_in p (d ∷ s)

module _ (p : ℕ → Bool) where
  any-put_front :
      (q : ℕ → Bool) (c : ℕ) (s : Text)
      → q c ≡ false
      → any q s ≡ false
      → any q (put_front p c s) ≡ false
  any-put_front q c [] h k = ground arith
  any-put_front q c (d ∷ s) h k = ground arith

  pub any-trim_right : (q : ℕ → Bool) (s : Text) → any q s ≡ false → any q (trim_right p s) ≡ false
  any-trim_right q [] h = refl
  any-trim_right q (c ∷ s) h =
      any-put_front q c (trim_right p s) (ground arith) (any-trim_right q s (ground arith))

  pub any-trim_left : (q : ℕ → Bool) (s : Text) → any q s ≡ false → any q (trim_left p s) ≡ false
  any-trim_left q [] h = refl
  any-trim_left q (c ∷ s) h = ground (arith, any-trim_left q s)

  byte_len-put_front : (c : ℕ) (s : Text) → byte_len (put_front p c s) ≤ width c + byte_len s
  byte_len-put_front c [] = ground arith
  byte_len-put_front c (d ∷ s) = omega arith

  pub byte_len-trim_right : (s : Text) → byte_len (trim_right p s) ≤ byte_len s
  byte_len-trim_right [] = omega arith
  byte_len-trim_right (c ∷ s) =
      omega (arith, byte_len-put_front c (trim_right p s), byte_len-trim_right s)

  ends_in-put_front : (c : ℕ) (s : Text) → ends_in p s ≡ false → ends_in p (put_front p c s) ≡ false
  ends_in-put_front c [] h = ground arith
  ends_in-put_front c (d ∷ s) h = h

  pub ends_in-trim_right : (s : Text) → ends_in p (trim_right p s) ≡ false
  ends_in-trim_right [] = refl
  ends_in-trim_right (c ∷ s) = ends_in-put_front c (trim_right p s) (ends_in-trim_right s)

  -- A text that does not end in what is trimmed stays as it is.
  pub trim_right-of_ends : (s : Text) → ends_in p s ≡ false → trim_right p s ≡ s
  trim_right-of_ends [] h = refl
  trim_right-of_ends (c ∷ []) h = ground arith
  trim_right-of_ends (c ∷ d ∷ s) h = ground (arith, trim_right-of_ends (d ∷ s))

  pub ends_in-append : (s : Text) (c : ℕ) (t : Text) → ends_in p (s ++ (c ∷ t)) ≡ ends_in p (c ∷ t)
  ends_in-append [] c t = refl
  ends_in-append (a ∷ []) c t = refl
  ends_in-append (a ∷ b ∷ s) c t = ends_in-append (b ∷ s) c t

pub byte_len-append : (s t : Text) → byte_len (s ++ t) ≡ byte_len s + byte_len t
byte_len-append [] t = omega arith
byte_len-append (c ∷ s) t = omega (arith, byte_len-append s t)

pub any-or :
    (p q : ℕ → Bool) (s : Text)
    → any p s ≡ false
    → any q s ≡ false
    → any (λ c. p c || q c) s ≡ false
any-or p q [] h k = refl
any-or p q (c ∷ s) h k = ground (arith, any-or p q s)
