-- ===== src/Firewall/Lines.antt =====
-- firewall/status.go: what one line of the answer says, and which profiles a rule is for, described by the
-- line's fields.
use freedesk.Prelude.{
  ℕ, ◌≡◌, refl, ap, sym, subst, Bool, true, false, ◌&&◌, ◌||◌, List, [], ◌∷◌, Option, none, some,
  Text, text, any, is_empty, eq_text, eq_text_iff, if◌then◌else◌, map, trim_space, ◌⊎◌, inl, inr,
  Bool-cases,
}
use freedesk.Config.{Vars}
use freedesk.Firewall.{
  Line, owns, turned, networks, blocks, allows, nothing, covers, split_on, read_line, fields_line,
  same_program, join_bars, clean_name, is_positive_number, profiles_of, normalize_profile,
}

-- A rule for these profiles lets traffic of some of the networks in: one of its profiles is that of a
-- network, or any, or no network is known.
abbrev pub reaches : List Text → Text → Bool
reaches nets profiles =
    is_empty nets
    || any (λ n. eq_text n (text "Any") || any (λ m. eq_text m n) nets)
        (map normalize_profile (split_on b',' profiles))

any-map :
    (P : Text → Bool) (f : Text → Text) (xs : List Text) → any (λ x. P (f x)) xs ≡ any P (map f xs)
any-map P f [] = refl
any-map P f (x ∷ xs) = ap (λ b. P (f x) || b) (any-map P f xs)

pub covers-reaches :
    (profiles : Text) (nets : List Text) → covers profiles nets ≡ reaches nets profiles
unfolding covers
covers-reaches profiles [] = refl
covers-reaches profiles (n ∷ nets) =
    any-map (λ p. eq_text p (text "Any") || any (λ m. eq_text m p) (n ∷ nets)) normalize_profile
      (split_on b',' profiles)

abbrev pub fields_of : Text → List Text
fields_of line = split_on b'|' (trim_space line)

-- What a line says, by its fields: a rule blocks the program, or allows it on some profiles, or the
-- line names the owner, says whether the firewall is on, or names the networks.
module _ (fold : ℕ → ℕ) (clean : Text → Text) (env : Vars) (exe : Text) where
  abbrev pub rule_row : (action : Text) → List Text → Bool
  rule_row action (word ∷ a ∷ profiles ∷ program ∷ []) =
      eq_text word (text "rule")
      && same_program fold clean env program exe
      && eq_text (map fold (trim_space a)) (map fold action)
  rule_row action _ = false

  abbrev pub owner_row : List Text → Option Text
  owner_row (word ∷ f ∷ fs) =
      if eq_text word (text "owner") then some (clean_name (join_bars (f ∷ fs))) else none
  owner_row _ = none

  abbrev pub enabled_row : List Text → Option Bool
  enabled_row (word ∷ f ∷ []) =
      if eq_text word (text "enabled") then some (is_positive_number (trim_space f)) else none
  enabled_row _ = none

  abbrev pub network_row : List Text → Option (List Text)
  network_row (word ∷ f ∷ []) =
      if eq_text word (text "network") then some (profiles_of (split_on b',' f)) else none
  network_row _ = none

  abbrev pub third : List Text → Text
  third (a ∷ b ∷ c ∷ rest) = c
  third _ = []

  abbrev pub or_line {ℓ} : {A : Type ℓ} → Option A → (A → Line) → Line → Line
  or_line none make line = line
  or_line (some a) make line = make a

  abbrev pub meaning : List Text → Line
  meaning row =
      if rule_row (text "Block") row
      then blocks
      else if rule_row (text "Allow") row
      then allows (third row)
      else or_line (owner_row row) owns
          (or_line (enabled_row row) turned (or_line (network_row row) networks nothing))

abbrev Unknown : Text → Type 0
Unknown w =
    (eq_text w (text "owner") ≡ false)
    × (eq_text w (text "enabled") ≡ false)
    × (eq_text w (text "network") ≡ false)
    × (eq_text w (text "rule") ≡ false)

word_cases :
    (w : Text)
    → (w ≡ text "owner")
      ⊎ ((w ≡ text "enabled") ⊎ ((w ≡ text "network") ⊎ ((w ≡ text "rule") ⊎ Unknown w)))
word_cases w = elim (Bool-cases (eq_text w (text "owner"))) [
  | inl e ↦ inl ((eq_text_iff w (text "owner")).0 e)
  | inr a ↦ elim (Bool-cases (eq_text w (text "enabled"))) [
    | inl e ↦ inr (inl ((eq_text_iff w (text "enabled")).0 e))
    | inr b ↦ elim (Bool-cases (eq_text w (text "network"))) [
      | inl e ↦ inr (inr (inl ((eq_text_iff w (text "network")).0 e)))
      | inr c ↦ elim (Bool-cases (eq_text w (text "rule"))) [
        | inl e ↦ inr (inr (inr (inl ((eq_text_iff w (text "rule")).0 e))))
        | inr d ↦ inr (inr (inr (inr (a, b, c, d))))
      ]
    ]
  ]
]

module _ (fold : ℕ → ℕ) (clean : Text → Text) (env : Vars) (exe : Text) where
  abbrev Same : List Text → Type 0
  Same row = fields_line fold clean env exe row ≡ meaning fold clean env exe row

  by_word :
      (w : Text) (fs : List Text)
      → Same (text "owner" ∷ fs)
      → Same (text "enabled" ∷ fs)
      → Same (text "network" ∷ fs)
      → Same (text "rule" ∷ fs)
      → (Unknown w → Same (w ∷ fs))
      → Same (w ∷ fs)
  by_word w fs a b c d e = elim (word_cases w) [
    | inl x ↦ subst (λ v. Same (v ∷ fs)) (sym x) a
    | inr (inl x) ↦ subst (λ v. Same (v ∷ fs)) (sym x) b
    | inr (inr (inl x)) ↦ subst (λ v. Same (v ∷ fs)) (sym x) c
    | inr (inr (inr (inl x))) ↦ subst (λ v. Same (v ∷ fs)) (sym x) d
    | inr (inr (inr (inr x))) ↦ e x
  ]

  rule_same :
      (same block allow : Bool) (profiles : Text)
      → (if same
          then (if block then blocks else if allow then allows profiles else nothing)
          else nothing)
        ≡ (if same && block then blocks else if same && allow then allows profiles else nothing)
  rule_same true block allow profiles = refl
  rule_same false block allow profiles = refl

  fields_line-meaning : (row : List Text) → Same row
  fields_line-meaning [] = refl
  fields_line-meaning (w ∷ []) =
      by_word w [] refl refl refl refl (λ u. rw (u.0, u.1, u.2, u.3) refl)
  fields_line-meaning (w ∷ a ∷ []) =
      by_word w (a ∷ []) refl refl refl refl (λ u. rw (u.0, u.1, u.2, u.3) refl)
  fields_line-meaning (w ∷ a ∷ b ∷ []) =
      by_word w (a ∷ b ∷ []) refl refl refl refl (λ u. rw (u.0, u.1, u.2, u.3) refl)
  fields_line-meaning (w ∷ a ∷ b ∷ c ∷ []) =
      by_word w (a ∷ b ∷ c ∷ []) refl refl refl (rule_same _ _ _ b)
        (λ u. rw (u.0, u.1, u.2, u.3) refl)
  fields_line-meaning (w ∷ a ∷ b ∷ c ∷ d ∷ rest) =
      by_word w (a ∷ b ∷ c ∷ d ∷ rest) refl refl refl refl (λ u. rw (u.0, u.1, u.2, u.3) refl)

  pub read_line-meaning :
      (lines : List Text)
      → map (read_line fold clean env exe) lines
        ≡ map (λ l. meaning fold clean env exe (fields_of l)) lines
  unfolding read_line
  read_line-meaning [] = refl
  read_line-meaning (l ∷ lines) =
      rw (fields_line-meaning (fields_of l))
        (ap (λ ls. meaning fold clean env exe (fields_of l) ∷ ls) (read_line-meaning lines))
