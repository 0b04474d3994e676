-- ===== src/Clipboard/Runes.antt =====
-- clipboard/sync.go: truncateUTF8.
use freedesk.Prelude.{
  ℕ, zero, suc, ◌+◌, ◌-◌, ◌≤◌, ◌<◌, ◌≡◌, refl, ap, true, false, List, [], ◌∷◌, ◌++◌, arith, length,
  take, get_or, All, if◌then◌else◌, leb, Bool-cases, inl, inr, sym, ◌∙◌, length-append,
}
use freedesk.Clipboard.{Bytes, is_rune_start, back_to_start, truncate_utf8}

-- A rune as it is encoded: a byte that starts it, and the bytes that go on.
pub record Rune : Type 0 where
  pub first : ℕ
  pub others : Bytes

abbrev pub IsRune : Rune → Type 0
IsRune r = (is_rune_start r.first ≡ true) × All (λ b. is_rune_start b ≡ false) r.others

abbrev pub size : Rune → ℕ
size r = suc (length r.others)

abbrev pub encode : List Rune → Bytes
encode [] = []
encode (r ∷ rs) = (r.first ∷ r.others) ++ encode rs

-- The first runes, as many as have room in `n` bytes.
unfoldable pub fitting : ℕ → List Rune → List Rune
fitting n [] = []
fitting n (r ∷ rs) = let rest = fitting (n - size r) rs in if leb (size r) n then r ∷ rest else []

add_suc : (k n : ℕ) → k + suc n ≡ suc (k + n)
add_suc k n = omega arith

get-append : (s t : Bytes) (k : ℕ) → get_or (s ++ t) (k + length s) 0 ≡ get_or t k 0
get-append [] t k = ap (λ i. get_or t i 0) (omega arith)
get-append (b ∷ s) t k =
    ap (λ i. get_or (b ∷ (s ++ t)) i 0) (add_suc k (length s)) ∙ get-append s t k

take-append : (s t : Bytes) (k : ℕ) → take (k + length s) (s ++ t) ≡ s ++ take k t
take-append [] t k = ap (λ i. take i t) (omega arith)
take-append (b ∷ s) t k =
    ap (λ i. take i (b ∷ (s ++ t))) (add_suc k (length s)) ∙ ap (λ x. b ∷ x) (take-append s t k)

take-length : (s : Bytes) → take (length s) s ≡ s
take-length [] = refl
take-length (b ∷ s) = ap (λ x. b ∷ x) (take-length s)

-- Past a text, where a rune starts, the loop does not go back into it.
back-append :
    (b : ℕ) (s t : Bytes) (k : ℕ)
    → is_rune_start (get_or t 0 0) ≡ true
    → back_to_start (b ∷ (s ++ t)) (k + suc (length s)) ≡ back_to_start t k + suc (length s)
unfolding back_to_start
back-append b s t zero h = ground (arith, get-append s t 0)
back-append b s t (suc k) h = ground (arith, get-append (b ∷ s) t (suc k), back-append b s t k h)

get_others :
    (others t : Bytes) (k : ℕ)
    → All (λ b. is_rune_start b ≡ false) others
    → k < length others
    → is_rune_start (get_or (others ++ t) k 0) ≡ false
get_others [] t k h l = absurd (omega arith)
get_others (b ∷ others) t zero h l = h.0
get_others (b ∷ others) t (suc k) h l = get_others others t k h.1 (omega arith)

-- Within a rune the loop goes back to its start.
back-within :
    (b : ℕ) (others t : Bytes) (k : ℕ)
    → All (λ c. is_rune_start c ≡ false) others
    → k ≤ length others
    → back_to_start (b ∷ (others ++ t)) k ≡ 0
unfolding back_to_start
back-within b others t zero h l = refl
back-within b others t (suc k) h l =
    ground (arith, get_others others t k h (omega arith), back-within b others t k h (omega arith))

fitting_all : (n : ℕ) (rs : List Rune) → length (encode rs) ≤ n → encode (fitting n rs) ≡ encode rs
unfolding fitting
fitting_all n [] l = refl
fitting_all n (r ∷ rs) l =
    let e = length-append r.others (encode rs) in
    let room : leb (size r) n ≡ true = ground arith in
    rw (room, fitting_all (n - size r) rs (omega (arith, e))) refl

starts :
    (rs : List Rune)
    → All IsRune rs
    → 0 < length (encode rs)
    → is_rune_start (get_or (encode rs) 0 0) ≡ true
starts [] h l = absurd (omega arith)
starts (r ∷ rs) h l = h.0.0

take-back :
    (rs : List Rune) (n : ℕ)
    → All IsRune rs
    → n < length (encode rs)
    → take (back_to_start (encode rs) n) (encode rs) ≡ encode (fitting n rs)
unfolding fitting
take-back [] n h l = absurd (omega arith)
take-back (r ∷ rs) n h l =
    let e = length-append r.others (encode rs) in
    elim (Bool-cases (leb (size r) n)) [
      | inl room ↦
          let k = n - size r in
          let split : n ≡ k + size r = ground arith in
          let more : k < length (encode rs) = omega (arith, e) in
          rw room (
            ap (λ i. take (back_to_start (encode (r ∷ rs)) i) (encode (r ∷ rs))) split
            ∙ ap (λ i. take i (encode (r ∷ rs)))
                (back-append r.first r.others (encode rs) k (starts rs h.1 (omega arith)))
            ∙ take-append (r.first ∷ r.others) (encode rs) (back_to_start (encode rs) k)
            ∙ ap (λ x. (r.first ∷ r.others) ++ x) (take-back rs k h.1 more))
      | inr full ↦ rw (full, back-within r.first r.others (encode rs) n h.0.1 (ground arith)) refl
    ]

-- truncateUTF8 of any text of whole runes, of any encoding in which a byte that starts a rune does
-- not go on with one: what is left are the first of its runes, as many as have room.
pub truncate_utf8-encode :
    (rs : List Rune) (n : ℕ) → All IsRune rs → truncate_utf8 (encode rs) n ≡ encode (fitting n rs)
unfolding truncate_utf8
truncate_utf8-encode rs n h = elim (Bool-cases (leb (length (encode rs)) n)) [
  | inl e ↦ rw e (sym (fitting_all n rs (ground arith)))
  | inr e ↦ rw e (take-back rs n h (ground arith))
]

length-take : (k : ℕ) (s : Bytes) → length (take k s) ≤ k
length-take zero s = omega arith
length-take (suc k) [] = omega arith
length-take (suc k) (b ∷ s) = omega (arith, length-take k s)

back-le : (s : Bytes) (n : ℕ) → back_to_start s n ≤ n
unfolding back_to_start
back-le s zero = omega arith
back-le s (suc n) = ground (arith, back-le s n)

pub length-truncate_utf8 : (s : Bytes) (n : ℕ) → length (truncate_utf8 s n) ≤ n
unfolding truncate_utf8
length-truncate_utf8 s n = ground (arith, length-take (back_to_start s n) s, back-le s n)
