-- ===== src/Prelude/Strings.antt =====
-- Go strings, read as a `range` loop reads them: a rune by its code point, and a byte that is no
-- part of a valid encoding as 0x110000 more than the byte.
use Prim.Native.Nat.{ℕ, ◌+◌}
use Prim.Native.Char.{code}
use Prim.Native.String.{String}
use mathlib.Core.Path.{◌≡◌}
use mathlib.Core.Logic.{◌↔◌}
use mathlib.Core.Bool.{Bool, true, false, ◌&&◌, ◌||◌}
use mathlib.Core.List.{List, [], ◌∷◌}
use native.Mathlib.Omega.{arith}
use freedesk.Prelude.Tests.{ltb, leb, ◌==◌, if◌then◌else◌}

abbrev pub Text : Type 0
Text = List ℕ

-- A literal.
abbrev pub text : String → Text
text String.[] = []
text (String.◌∷◌ c s) = code c ∷ text s

abbrev pub eq_text : Text → Text → Bool
eq_text [] [] = true
eq_text [] (b ∷ t) = false
eq_text (a ∷ s) [] = false
eq_text (a ∷ s) (b ∷ t) = a == b && eq_text s t

pub eq_text_iff : (s t : Text) → (eq_text s t ≡ true) ↔ (s ≡ t)
eq_text_iff [] [] = ground arith
eq_text_iff [] (b ∷ t) = ground arith
eq_text_iff (a ∷ s) [] = ground arith
eq_text_iff (a ∷ s) (b ∷ t) = ground (arith, eq_text_iff s t)

abbrev pub is_empty {ℓ} : {A : Type ℓ} → List A → Bool
is_empty [] = true
is_empty (x ∷ xs) = false

-- How many bytes a rune takes in UTF-8.
abbrev pub width : ℕ → ℕ
width c =
    if ltb c 0x80
    then 1
    else if ltb c 0x800
    then 2
    else if ltb c 0x10000
    then 3
    else if ltb c 0x110000
    then 4
    else 1

-- `len(s)`, in bytes.
abbrev pub byte_len : Text → ℕ
byte_len [] = 0
byte_len (c ∷ s) = width c + byte_len s

-- unicode.IsSpace
abbrev pub is_space : ℕ → Bool
is_space c =
    (leb 9 c && leb c 13)
    || c == 0x20
    || c == 0x85
    || c == 0xA0
    || c == 0x1680
    || (leb 0x2000 c && leb c 0x200A)
    || c == 0x2028
    || c == 0x2029
    || c == 0x202F
    || c == 0x205F
    || c == 0x3000

-- strings.TrimLeftFunc and strings.TrimRightFunc
abbrev pub trim_left : (ℕ → Bool) → Text → Text
trim_left p [] = []
trim_left p (c ∷ s) = if p c then trim_left p s else c ∷ s

abbrev pub put_front : (ℕ → Bool) → ℕ → Text → Text
put_front p c [] = if p c then [] else c ∷ []
put_front p c (d ∷ s) = c ∷ d ∷ s

abbrev pub trim_right : (ℕ → Bool) → Text → Text
trim_right p [] = []
trim_right p (c ∷ s) = put_front p c (trim_right p s)

-- strings.TrimSpace
abbrev pub trim_space : Text → Text
trim_space s = trim_right is_space (trim_left is_space s)
