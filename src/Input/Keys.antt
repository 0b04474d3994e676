-- ===== src/Input/Keys.antt =====
-- input/handler.go: the list and the set of the keys that are held.
use freedesk.Prelude.{
  ◌≡◌, refl, false, not, ◌&&◌, ◌||◌, List, [], ◌∷◌, ◌++◌, arith, Text, eq_text, eq_text_iff,
  any-append, Bool-cases, inl, inr, ap,
}
use freedesk.Input.{has, delete, remove}

-- No key stands twice in press order.
abbrev pub Distinct : List Text → Type 0
Distinct [] = Unit
Distinct (k ∷ ks) = (has ks k ≡ false) × Distinct ks

eq_text_sym : (a b : Text) → eq_text a b ≡ eq_text b a
eq_text_sym a b = ground (arith, eq_text_iff a b, eq_text_iff b a)

-- Two different keys are not both `k`.
differ : (x c k : Text) → eq_text x c ≡ false → (eq_text x k && eq_text c k) ≡ false
differ x c k n = ground (arith, eq_text_iff x c, eq_text_iff x k, eq_text_iff c k)

pub has-delete :
    (c k : Text) (ks : List Text) → has (delete c ks) k ≡ (has ks k && not (eq_text c k))
unfolding has delete
has-delete c k [] = refl
has-delete c k (x ∷ ks) = elim (Bool-cases (eq_text x c)) [
  | inl e ↦
      let same : x ≡ c = (eq_text_iff x c).0 e in
      rw e (ground (arith, has-delete c k ks, ap (λ y. eq_text y k) same))
  | inr n ↦ rw n (ground (arith, has-delete c k ks, differ x c k n))
]

has_only : (x k : Text) (ks : List Text) → has ks x ≡ false → (eq_text x k && has ks k) ≡ false
has_only x k ks h = elim (Bool-cases (eq_text x k)) [
  | inl e ↦ rw (e, ← (eq_text_iff x k).0 e) h
  | inr n ↦ rw n refl
]

pub has-remove :
    (c k : Text) (ks : List Text)
    → Distinct ks
    → has (remove c ks) k ≡ (has ks k && not (eq_text c k))
unfolding has remove
has-remove c k [] d = refl
has-remove c k (x ∷ ks) d = elim (Bool-cases (eq_text x c)) [
  | inl e ↦
      let same : x ≡ c = (eq_text_iff x c).0 e in
      rw e (ground (arith, ap (λ y. eq_text y k) same, has_only x k ks d.0))
  | inr n ↦ rw n (ground (arith, has-remove c k ks d.1, differ x c k n))
]

pub remove-Distinct : (c : Text) (ks : List Text) → Distinct ks → Distinct (remove c ks)
unfolding remove
remove-Distinct c [] d = tt
remove-Distinct c (x ∷ ks) d = elim (Bool-cases (eq_text x c)) [
  | inl e ↦ rw e d.1
  | inr n ↦ rw n (ground (arith, has-remove c x ks d.1, d.0), remove-Distinct c ks d.1)
]

pub has-snoc : (c k : Text) (ks : List Text) → has (ks ++ (c ∷ [])) k ≡ (has ks k || eq_text c k)
unfolding has
has-snoc c k ks = ground (arith, any-append (λ x. eq_text x k) ks (c ∷ []))

has_cons :
    (x : Text) (ks : List Text) (c : Text)
    → has (x ∷ ks) c ≡ false
    → (eq_text x c ≡ false) × (has ks c ≡ false)
unfolding has
has_cons x ks c h = ground arith

pub snoc-Distinct :
    (c : Text) (ks : List Text) → has ks c ≡ false → Distinct ks → Distinct (ks ++ (c ∷ []))
snoc-Distinct c [] h d = (unfold has in refl, tt)
snoc-Distinct c (x ∷ ks) h d =
    let (apart, rest) = has_cons x ks c h in
    (ground (arith, has-snoc c x ks, eq_text_sym x c), snoc-Distinct c ks rest d.1)
