-- ===== src/Transfer/Name/Again.antt =====
-- name.go: a second SafeName over a name that the first let through, as `Create` makes it.
use freedesk.Prelude.{
  ℕ, ◌≡◌, refl, Bool, true, false, not, [], ◌∷◌, none, some, arith, ◌==◌, if◌then◌else◌, Text,
  trim_space, any, all, trim_right-of_ends, is_empty,
}
use freedesk.Transfer.Name.{
  is_valid, is_separator, is_bad_rune, is_dot_or_space, is_reserved, is_plain, finish_name,
  safe_name,
}
use freedesk.Transfer.Name.Safe.{is_unsafe, IsSafe, safe_name-IsSafe}

any-weaken :
    (p q : ℕ → Bool)
    → ((c : ℕ) → q c ≡ false → p c ≡ false)
    → (s : Text) → any q s ≡ false
    → any p s ≡ false
any-weaken p q f [] h = refl
any-weaken p q f (c ∷ s) h = ground (arith, f c, any-weaken p q f s)

all-any-not : (p : ℕ → Bool) (s : Text) → any (λ c. not (p c)) s ≡ false → all p s ≡ true
all-any-not p [] h = refl
all-any-not p (c ∷ s) h = ground (arith, all-any-not p s)

finish_name-of_IsSafe :
    (name : Text) → IsSafe name → finish_name name ≡ (if is_reserved name then none else some name)
unfolding finish_name is_plain
finish_name-of_IsSafe name s = ground (arith, s.fits, s.plain)

is_empty-of_plain : (name : Text) → is_plain name ≡ true → is_empty name ≡ false
unfolding is_plain
is_empty-of_plain name h = ground arith

-- A safe name that neither begins nor ends in Unicode space is refused if it is a device name, and
-- is otherwise left as it is.
pub safe_name-of_IsSafe :
    (name : Text)
    → IsSafe name
    → trim_space name ≡ name
    → safe_name name ≡ (if is_reserved name then none else some name)
unfolding safe_name
safe_name-of_IsSafe name s t =
    let v = all-any-not is_valid name (any-weaken _ is_unsafe (λ c h. ground arith) name s.runes) in
    let sep = any-weaken is_separator is_unsafe (λ c h. ground arith) name s.runes in
    let col = any-weaken (λ c. c == b':') is_unsafe (λ c h. ground arith) name s.runes in
    let bad = any-weaken is_bad_rune is_unsafe (λ c h. ground arith) name s.runes in
    rw
      (
        t,
        is_empty-of_plain name s.plain,
        v,
        sep,
        col,
        bad,
        trim_right-of_ends is_dot_or_space name s.tail,
      )
      (finish_name-of_IsSafe name s)

-- SafeName applied to its own result gives that result again, if it neither begins nor ends in
-- Unicode space and is no device name: what the operator is shown is what Create writes.
pub safe_name-again :
    (raw name : Text)
    → safe_name raw ≡ some name
    → trim_space name ≡ name
    → is_reserved name ≡ false
    → safe_name name ≡ some name
safe_name-again raw name e t r =
    rw (safe_name-of_IsSafe name (safe_name-IsSafe raw name e) t, r) refl
