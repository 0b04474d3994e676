-- ===== src/Update/Order.antt =====
-- update/update.go: the order that compareVersions decides.
use native.Mathlib.Decide.{ℕ_discrete, dec_lt}
use freedesk.Prelude.{
  subst, ℕ, max, ◌<◌, ◌≡◌, refl, true, some, arith, Text, pos, length, get_or, ◌↔◌, sym, ◌∙◌, ap,
  text, ◌++◌, trim_space, is_pos,
}
use freedesk.Update.{version_parts, compare_from, compare_versions, check, Release, newer, trim_v}
use freedesk.Update.Rounds.{
  beyond, compare_from_newer, compare_from_first, compare_from_equal, compare_from_same,
  compare_from_swap, compare_from_pos, negate,
}

-- Part `i` of a version, 0 where it has none.
unfoldable pub part : Text → ℕ → ℕ
part v i = get_or (version_parts v) i 0

-- The first part that differs is larger in the first version.
abbrev pub IsNewer : Text → Text → Type 0
IsNewer a b = (i : ℕ) × ((j : ℕ) → j < i → part a j ≡ part b j) × (part b i < part a i)

module _ (a b : Text) where
  rounds : ℕ
  rounds = max (length (version_parts a)) (length (version_parts b))

  compare_versions-rounds :
      compare_versions a b ≡ compare_from (version_parts a) (version_parts b) rounds 0
  unfolding compare_versions rounds
  compare_versions-rounds = refl

  -- Beyond the parts of both versions nothing differs.
  lt-rounds : (k : ℕ) → part b k < part a k → k < rounds
  unfolding part rounds
  lt-rounds k less = elim (dec_lt k (max (length (version_parts a)) (length (version_parts b)))) [
    | yes l ↦ l
    | no n ↦ absurd (omega (arith, beyond (version_parts a) (version_parts b) k (omega arith)))
  ]

-- compareVersions gives 1 exactly if the first part that differs is larger in the first version, a
-- part that is missing being 0.
pub compare_versions-IsNewer : (a b : Text) → (compare_versions a b ≡ pos 1) ↔ IsNewer a b
unfolding part
compare_versions-IsNewer a b = (forth, back)
  where
    forth : compare_versions a b ≡ pos 1 → IsNewer a b
    forth h =
        let (k, l, same, less) =
          compare_from_newer (version_parts a) (version_parts b) (rounds a b) 0
            (sym (compare_versions-rounds a b) ∙ h) in
        (k, (λ j m. same j (omega arith) m), less)

    back : IsNewer a b → compare_versions a b ≡ pos 1
    back (k, same, less) =
        compare_versions-rounds a b
        ∙ compare_from_first (version_parts a) (version_parts b) (rounds a b) 0 k (omega arith)
            (omega (arith, lt-rounds a b k less)) (λ j _ m. same j m) less

rounds_comm : (a b : Text) → rounds a b ≡ rounds b a
unfolding rounds
rounds_comm a b = omega arith

compare_versions_swap : (a b : Text) → compare_versions b a ≡ negate (compare_versions a b)
compare_versions_swap a b =
    compare_versions-rounds b a
    ∙ ap (λ n. compare_from (version_parts b) (version_parts a) n 0) (rounds_comm b a)
    ∙ compare_from_swap (version_parts a) (version_parts b) (rounds a b) 0
    ∙ ap negate (sym (compare_versions-rounds a b))

-- compareVersions gives 0 exactly if the two versions agree in every part, and with its arguments
-- swapped it gives the opposite.
pub compare_versions_equal :
    (a b : Text)
    → ((compare_versions a b ≡ pos 0) ↔ ((i : ℕ) → part a i ≡ part b i))
      × (compare_versions b a ≡ negate (compare_versions a b))
unfolding part
compare_versions_equal a b = ((forth, back), compare_versions_swap a b)
  where
    forth : compare_versions a b ≡ pos 0 → (i : ℕ) → part a i ≡ part b i
    forth h i = elim (dec_lt i (rounds a b)) [
      | yes l ↦
          compare_from_equal (version_parts a) (version_parts b) (rounds a b) 0
            (sym (compare_versions-rounds a b) ∙ h) i (omega arith) (omega arith)
      | no n ↦ beyond (version_parts a) (version_parts b) i (unfold rounds in omega arith)
    ]

    back : ((i : ℕ) → part a i ≡ part b i) → compare_versions a b ≡ pos 0
    back h =
        compare_versions-rounds a b
        ∙ compare_from_same (version_parts a) (version_parts b) (rounds a b) 0 h

IsNewer-trans : (a b c : Text) → IsNewer a b → IsNewer b c → IsNewer a c
IsNewer-trans a b c (i, same, less) (j, alike, below) = elim (dec_lt i j) [
  | yes l ↦ (i, (λ k m. same k m ∙ alike k (omega arith)), omega (arith, alike i l))
  | no n ↦ elim (ℕ_discrete i j) [
    | yes e ↦ (
      i,
      (λ k m. same k m ∙ alike k (omega arith)),
      omega (arith, subst (λ k. part c k < part b k) (sym e) below),
    )
    | no d ↦ (j, (λ k m. same k (omega arith) ∙ alike k m), omega (arith, same j (omega arith)))
  ]
]

compare_versions_pos :
    (a b : Text) → is_pos (compare_versions a b) ≡ true → compare_versions a b ≡ pos 1
unfolding compare_versions
compare_versions_pos a b h = compare_from_pos (version_parts a) (version_parts b) _ 0 h

-- What `check` answers once the tag is there, read off its branches.
check_offer :
    (repo current tag : Text) (r : Release)
    → check repo current (some tag) ≡ newer r
    → (compare_versions r.version current ≡ pos 1)
      × (r.version ≡ trim_v (trim_space tag))
      × (r.url ≡ text "https://github.com/" ++ (repo ++ text "/releases/latest"))
unfolding check
check_offer repo current tag r h =
    let version = trim_v (trim_space tag) in ground (arith, compare_versions_pos version current)

-- What `check` offers is newer than the running agent, part by part; it is the tag, trimmed and
-- without its `v`; and its page is that of the configured repository. What is offered in turn to an
-- agent of the offered version is newer than the first agent too.
pub check_newer :
    (repo current tag : Text) (r : Release)
    → check repo current (some tag) ≡ newer r
    → IsNewer r.version current
      × (r.version ≡ trim_v (trim_space tag))
      × (r.url ≡ text "https://github.com/" ++ (repo ++ text "/releases/latest"))
      × ((later : Text) (s : Release)
          → check repo r.version (some later) ≡ newer s
          → IsNewer s.version current)
check_newer repo current tag r h =
    let (newer_now, version, url) = check_offer repo current tag r h in
    let first = (compare_versions-IsNewer r.version current).0 newer_now in
    (
      first,
      version,
      url,
      λ later s k.
          IsNewer-trans s.version r.version current
            ((compare_versions-IsNewer s.version r.version).0
              (check_offer repo r.version later s k).0)
            first,
    )
