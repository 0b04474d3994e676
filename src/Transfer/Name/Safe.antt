-- ===== src/Transfer/Name/Safe.antt =====
-- name.go: what a name that SafeName accepts is like.
use freedesk.Prelude.{
  ℕ, ◌≤◌, ◌≡◌, refl, Bool, true, false, not, ◌||◌, [], ◌∷◌, some, arith, ltb, ◌==◌, Text, byte_len,
  trim_right, trim_space, any, all, any-or, any-trim_right, ends_in, ends_in-trim_right, Bool-cases,
  inl, inr, subst,
}
use freedesk.Transfer.Name.{
  max_name_bytes, is_valid, is_separator, is_bad_rune, is_dot_or_space, split_ext, truncate,
  is_plain, check_plain, finish_name, safe_name,
}
use freedesk.Transfer.Name.Runes.{
  split_ext-append, any-truncate, byte_len-truncate, ends_in-truncate,
}

-- A rune that no written name may have.
abbrev pub is_unsafe : ℕ → Bool
is_unsafe c = ((not (is_valid c) || is_separator c) || c == b':') || is_bad_rune c

pub record IsSafe (name : Text) : Type 0 where
  pub runes : any is_unsafe name ≡ false
  pub fits : byte_len name ≤ max_name_bytes
  pub plain : is_plain name ≡ true
  pub tail : ends_in is_dot_or_space name ≡ false

any-not-all : (p : ℕ → Bool) (s : Text) → all p s ≡ true → any (λ c. not (p c)) s ≡ false
any-not-all p [] h = refl
any-not-all p (c ∷ s) h = ground (arith, any-not-all p s)

check_plain-IsSafe :
    (name : Text) {n : Text}
    → any is_unsafe name ≡ false
    → byte_len name ≤ max_name_bytes
    → ends_in is_dot_or_space name ≡ false
    → check_plain name ≡ some n
    → IsSafe n
unfolding is_plain
check_plain-IsSafe name h f t e = elim (Bool-cases (is_plain name)) [
  | inl b ↦
      let s : IsSafe name = record { runes = h; fits = f; plain = b; tail = t } in
      subst IsSafe (ground arith) s
  | inr b ↦ absurd (ground arith)
]

finish_name-IsSafe :
    (name : Text) {n : Text}
    → any is_unsafe name ≡ false
    → ends_in is_dot_or_space name ≡ false
    → finish_name name ≡ some n
    → IsSafe n
unfolding finish_name
finish_name-IsSafe name h t e = elim (Bool-cases (ltb max_name_bytes (byte_len name))) [
  | inl long ↦
      let (stem, ext) = split_ext name in
      let whole = split_ext-append name in
      check_plain-IsSafe (truncate stem ext) (any-truncate is_unsafe stem ext (rw whole h))
        (byte_len-truncate stem ext) (ends_in-truncate stem ext (rw whole t)) (ground arith)
  | inr short ↦ check_plain-IsSafe name h (ground arith) t (ground arith)
]

-- The tests that a name has passed when its runes are done.
module _ (raw name : Text) (e : safe_name raw ≡ some name) where
  safe_name_tests :
      (all is_valid (trim_space raw) ≡ true)
      × (any is_separator (trim_space raw) ≡ false)
      × (any (λ c. c == b':') (trim_space raw) ≡ false)
      × (any is_bad_rune (trim_space raw) ≡ false)
      × (finish_name (trim_right is_dot_or_space (trim_space raw)) ≡ some name)
  unfolding safe_name
  safe_name_tests = ground arith

  safe_name_runes : any is_unsafe (trim_space raw) ≡ false
  safe_name_runes =
      let t = trim_space raw in
      let (v, s, c, b, _) = safe_name_tests in
      let vs = any-or _ is_separator t (any-not-all is_valid t v) s in
      any-or _ is_bad_rune t (any-or _ (λ c. c == b':') t vs c) b

-- A name that SafeName accepts, from any input at all, has no separator, colon, control character,
-- forbidden or reordering character and no invalid byte, is at most 200 bytes long, is neither
-- empty nor `.` nor `..`, and does not end in a dot or a space.
pub safe_name-IsSafe : (raw name : Text) → safe_name raw ≡ some name → IsSafe name
safe_name-IsSafe raw name e =
    finish_name-IsSafe (trim_right is_dot_or_space (trim_space raw))
      (any-trim_right is_dot_or_space is_unsafe (trim_space raw) (safe_name_runes raw name e))
      (ends_in-trim_right is_dot_or_space (trim_space raw)) (safe_name_tests raw name e).4
