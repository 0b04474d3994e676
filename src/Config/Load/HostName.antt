-- ===== src/Config/Load/HostName.antt =====
-- config/config.go and hostname.go: the name of the host.
use freedesk.Prelude.{
  List, map, ℕ, zero, suc, ◌-◌, ◌≤◌, ◌≡◌, refl, Bool, true, false, [], ◌∷◌, Option, none, some,
  Text, text, is_empty, byte_len, width, if◌then◌else◌, ltb, leb, ◌||◌, arith, Bool-cases, inl, inr,
  take, All,
}
use freedesk.Config.{Vars, getenv}
use freedesk.Config.Load.{
  first_bytes, lone_bytes, lone, utf8_bytes, is_bonjour, own_name, short_host_name, host_name,
}

abbrev IsByte : ℕ → Type 0
IsByte c = width c ≡ 1

lone-IsByte : (bs : List ℕ) → All IsByte (map lone bs)
lone-IsByte [] = tt
lone-IsByte (b ∷ bs) = (ground arith, lone-IsByte bs)

lone_bytes-IsByte : (c : ℕ) → All IsByte (lone_bytes c)
lone_bytes-IsByte c = elim (Bool-cases (ltb c 0x80 || leb 0x110000 c)) [
  | inl y ↦ rw y (ground arith, tt)
  | inr y ↦ rw y (lone-IsByte (utf8_bytes c))
]

byte_len-take : (n : ℕ) (s : Text) → All IsByte s → byte_len (take n s) ≤ n
byte_len-take zero s h = omega arith
byte_len-take (suc n) [] h = omega arith
byte_len-take (suc n) (c ∷ s) h = omega (arith, byte_len-take n s h.1, h.0)

byte_len-first_bytes : (n : ℕ) (s : Text) → byte_len (first_bytes n s) ≤ n
unfolding first_bytes
byte_len-first_bytes n [] = omega arith
byte_len-first_bytes n (c ∷ s) = elim (Bool-cases (leb (width c) n)) [
  | inl y ↦
      let fits : width c ≤ n = ground arith in
      rw y (omega (arith, byte_len-first_bytes (n - width c) s, fits))
  | inr y ↦ rw y (byte_len-take n (lone_bytes c) (lone_bytes-IsByte c))
]

some_bytes : (n c : ℕ) → is_empty (take (suc n) (lone_bytes c)) ≡ false
some_bytes n c = ground arith

first_bytes_some : (n c : ℕ) (s : Text) → is_empty (first_bytes (suc n) (c ∷ s)) ≡ false
unfolding first_bytes
first_bytes_some n c s = elim (Bool-cases (leb (width c) (suc n))) [
  | inl y ↦ rw y refl
  | inr y ↦ rw y (some_bytes n c)
]

short_host_name_some : (c : ℕ) (s : Text) → is_empty (short_host_name (c ∷ s)) ≡ false
unfolding short_host_name
short_host_name_some c s = elim (Bool-cases (is_bonjour s)) [
  | inl y ↦ rw y refl
  | inr y ↦ rw y refl
]

own_name_some : (darwin : Bool) (o : Option Text) → is_empty (own_name darwin o) ≡ false
own_name_some true none = refl
own_name_some false none = refl
own_name_some true (some []) = refl
own_name_some false (some []) = refl
own_name_some darwin (some (c ∷ s)) = short_host_name_some c s

abbrev pub IsName : Text → Type 0
IsName s = (byte_len s ≤ 64) × (is_empty s ≡ false)

cut-IsName :
    (s : Text) → is_empty s ≡ false → IsName (if ltb 64 (byte_len s) then first_bytes 64 s else s)
cut-IsName [] e = absurd (cc)
cut-IsName (c ∷ s) e = elim (Bool-cases (ltb 64 (byte_len (c ∷ s)))) [
  | inl y ↦ rw y (byte_len-first_bytes 64 (c ∷ s), first_bytes_some 63 c s)
  | inr y ↦ rw y (ground arith, refl)
]

given_name :
    (given : Text) (darwin : Bool) (os_name : Option Text)
    → is_empty (if is_empty given then own_name darwin os_name else given) ≡ false
given_name [] darwin os_name = own_name_some darwin os_name
given_name (c ∷ s) darwin os_name = refl

pub host_name-IsName :
    (darwin : Bool) (os_name : Option Text) (env : Vars) → IsName (host_name darwin os_name env)
unfolding host_name
host_name-IsName darwin os_name env =
    cut-IsName _ (given_name (getenv env (text "RC_HOST_NAME")) darwin os_name)
