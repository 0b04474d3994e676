-- ===== src/Update/Rounds.antt =====
-- update/update.go: what the loop of compareVersions finds.
use native.Mathlib.Decide.{ℕ_discrete}
use freedesk.Prelude.{
  subst, ℕ, zero, suc, ◌+◌, max, ◌≤◌, ◌<◌, ◌≡◌, refl, true, List, [], ◌∷◌, arith, ℤ, pos, negsuc,
  ◌==◌, length, get_or, Bool-cases, inl, inr, sym, ◌∙◌, is_pos,
}
use freedesk.Update.{compare_from}

pub get_or-beyond : (xs : List ℕ) (i : ℕ) → length xs ≤ i → get_or xs i 0 ≡ 0
get_or-beyond [] i h = refl
get_or-beyond (x ∷ xs) zero h = absurd (omega arith)
get_or-beyond (x ∷ xs) (suc i) h = get_or-beyond xs i (omega arith)

module _ (pa pb : List ℕ) where
  abbrev Same : ℕ → Type 0
  Same j = get_or pa j 0 ≡ get_or pb j 0

  pub beyond : (j : ℕ) → max (length pa) (length pb) ≤ j → get_or pa j 0 ≡ get_or pb j 0
  beyond j h = get_or-beyond pa j (omega arith) ∙ sym (get_or-beyond pb j (omega arith))

  -- From the parts after `i` to the parts from `i` on.
  extend :
      (i k : ℕ) → Same i → ((j : ℕ) → i + 1 ≤ j → j < k → Same j) → (j : ℕ) → i ≤ j → j < k → Same j
  extend i k e same j a b = elim (ℕ_discrete i j) [
    | yes p ↦ subst Same p e
    | no n ↦ same j (omega arith) b
  ]

  pub compare_from_newer :
      (left i : ℕ)
      → compare_from pa pb left i ≡ pos 1
      → (k : ℕ) × (i ≤ k)
        × ((j : ℕ) → i ≤ j → j < k → get_or pa j 0 ≡ get_or pb j 0)
        × (get_or pb k 0 < get_or pa k 0)
  unfolding compare_from
  compare_from_newer zero i h = absurd (ground arith)
  compare_from_newer (suc left) i h = elim (Bool-cases (get_or pa i 0 == get_or pb i 0)) [
    | inl e ↦
        let (k, l, same, less) = compare_from_newer left (i + 1) (rw e at h) in
        (k, omega arith, (λ j a b. extend i k (ground arith) same j a b), less)
    | inr n ↦ (i, omega arith, (λ j a b. absurd (omega arith)), ground arith)
  ]

  pub compare_from_first :
      (left i k : ℕ)
      → i ≤ k
      → k < i + left
      → ((j : ℕ) → i ≤ j → j < k → get_or pa j 0 ≡ get_or pb j 0)
      → get_or pb k 0 < get_or pa k 0
      → compare_from pa pb left i ≡ pos 1
  unfolding compare_from
  compare_from_first zero i k l m same less = absurd (omega arith)
  compare_from_first (suc left) i k l m same less = elim (ℕ_discrete i k) [
    | yes p ↦
        let here : get_or pb i 0 < get_or pa i 0 =
          subst (λ n. get_or pb n 0 < get_or pa n 0) (sym p) less in
        ground arith
    | no n ↦ ground (
      arith,
      same i (omega arith) (omega arith),
      compare_from_first left (i + 1) k (omega arith) (omega arith)
          (λ j a b. same j (omega arith) b) less,
    )
  ]

  pub compare_from_equal :
      (left i : ℕ)
      → compare_from pa pb left i ≡ pos 0
      → (j : ℕ) → i ≤ j
      → j < i + left
      → get_or pa j 0 ≡ get_or pb j 0
  unfolding compare_from
  compare_from_equal zero i h j a b = absurd (omega arith)
  compare_from_equal (suc left) i h j a b = elim (Bool-cases (get_or pa i 0 == get_or pb i 0)) [
    | inl e ↦
        extend i (i + suc left) (ground arith)
          (λ j a b. compare_from_equal left (i + 1) (rw e at h) j a (omega arith)) j a b
    | inr n ↦ absurd (ground arith)
  ]

  pub compare_from_same :
      (left i : ℕ) → ((j : ℕ) → get_or pa j 0 ≡ get_or pb j 0) → compare_from pa pb left i ≡ pos 0
  unfolding compare_from
  compare_from_same zero i h = refl
  compare_from_same (suc left) i h = ground (arith, h i, compare_from_same left (i + 1) h)

abbrev pub negate : ℤ → ℤ
negate (ℤ.pos zero) = pos 0
negate (ℤ.pos (suc n)) = negsuc n
negate (ℤ.negsuc n) = pos (suc n)

pub compare_from_swap :
    (pa pb : List ℕ) (left i : ℕ) → compare_from pb pa left i ≡ negate (compare_from pa pb left i)
unfolding compare_from
compare_from_swap pa pb zero i = refl
compare_from_swap pa pb (suc left) i = ground (arith, compare_from_swap pa pb left (i + 1))

pub compare_from_pos :
    (pa pb : List ℕ) (left i : ℕ)
    → is_pos (compare_from pa pb left i) ≡ true
    → compare_from pa pb left i ≡ pos 1
unfolding compare_from
compare_from_pos pa pb zero i h = absurd (ground arith)
compare_from_pos pa pb (suc left) i h = ground (arith, compare_from_pos pa pb left (i + 1))
