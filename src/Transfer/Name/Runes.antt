-- ===== src/Transfer/Name/Runes.antt =====
-- name.go: the runes, the length and the end of a name that is cut to size.
use mathlib.Core.List.{append-nil}
use freedesk.Prelude.{
  ℕ, suc, ◌+◌, ◌-◌, ◌≤◌, ◌≡◌, refl, ap, Bool, false, [], ◌∷◌, ◌++◌, Option, none, some, arith, ltb,
  Text, byte_len, trim_right, any, length, any-append, any-trim_right, byte_len-trim_right,
  byte_len-append, ends_in, ends_in-trim_right, ends_in-append, Bool-cases, inl, inr, subst, sym,
}
use freedesk.Transfer.Name.{
  max_name_bytes, is_dot_or_space, put_after_dot, cut_last, stem_or_all, split_ext, drop_last,
  shorten, append_ext, truncate_parts, truncate,
}

put_after_dot-append :
    (c : ℕ) (s : Text) (o : Option (Text × Text))
    → ((stem ext : Text) → o ≡ some (stem, ext) → stem ++ ext ≡ s)
    → (stem ext : Text) → put_after_dot c s o ≡ some (stem, ext)
    → stem ++ ext ≡ c ∷ s
put_after_dot-append c s none h stem ext e = ground arith
put_after_dot-append c s (some (a, b)) h stem ext e = ground (arith, h a b refl)

cut_last-append : (s stem ext : Text) → cut_last s ≡ some (stem, ext) → stem ++ ext ≡ s
cut_last-append [] stem ext e = cc
cut_last-append (c ∷ s) stem ext e =
    put_after_dot-append c s (cut_last s) (cut_last-append s) stem ext e

-- Stem and extension together are the name.
stem_or_all-append :
    (name : Text) (o : Option (Text × Text))
    → ((stem ext : Text) → o ≡ some (stem, ext) → stem ++ ext ≡ name)
    → (stem_or_all name o).0 ++ (stem_or_all name o).1 ≡ name
stem_or_all-append name none h = append-nil name
stem_or_all-append name (some ([], ext)) h = append-nil name
stem_or_all-append name (some (c ∷ stem, ext)) h = h (c ∷ stem) ext refl

pub split_ext-append : (name : Text) → (split_ext name).0 ++ (split_ext name).1 ≡ name
unfolding split_ext
split_ext-append name = stem_or_all-append name (cut_last name) (cut_last-append name)

length-drop_last : (s : Text) → length s ≤ suc (length (drop_last s))
length-drop_last [] = omega arith
length-drop_last (c ∷ []) = omega arith
length-drop_last (c ∷ d ∷ s) = omega (arith, length-drop_last (d ∷ s))

length-drop_last_cons : (c : ℕ) (s : Text) → length (drop_last (c ∷ s)) ≡ length s
length-drop_last_cons c [] = refl
length-drop_last_cons c (d ∷ s) = ap suc (length-drop_last_cons d s)

-- The loop of `truncate` ends with the stem within the budget.
shorten-le :
    (rounds : Text) (budget : ℕ) (stem : Text)
    → length stem ≤ length rounds
    → byte_len (shorten rounds budget stem) ≤ budget
unfolding shorten
shorten-le [] budget [] h = omega arith
shorten-le [] budget (c ∷ s) h = absurd (omega arith)
shorten-le (r ∷ rounds) budget [] h = ground (arith, shorten-le rounds budget [])
shorten-le (r ∷ rounds) budget (c ∷ s) h =
    ground (arith, length-drop_last_cons c s, shorten-le rounds budget (drop_last (c ∷ s)))

any-drop_last : (q : ℕ → Bool) (s : Text) → any q s ≡ false → any q (drop_last s) ≡ false
any-drop_last q [] h = refl
any-drop_last q (c ∷ []) h = refl
any-drop_last q (c ∷ d ∷ s) h = ground (arith, any-drop_last q (d ∷ s))

any-shorten :
    (q : ℕ → Bool) (rounds : Text) (budget : ℕ) (s : Text)
    → any q s ≡ false
    → any q (shorten rounds budget s) ≡ false
unfolding shorten
any-shorten q [] budget s h = h
any-shorten q (r ∷ rounds) budget s h =
    ground (arith, any-drop_last q s, any-shorten q rounds budget (drop_last s))

any-append_ext :
    (q : ℕ → Bool) (stem ext : Text)
    → any q stem ≡ false
    → any q ext ≡ false
    → any q (append_ext stem ext) ≡ false
any-append_ext q [] ext h k = refl
any-append_ext q (c ∷ stem) ext h k = ground (arith, any-append q (c ∷ stem) ext)

any-truncate_parts :
    (q : ℕ → Bool) (stem ext : Text)
    → any q stem ≡ false
    → any q ext ≡ false
    → any q (truncate_parts stem ext) ≡ false
unfolding truncate_parts
any-truncate_parts q stem ext h k =
    any-append_ext q _ ext
      (any-trim_right is_dot_or_space q _
        (any-shorten q stem (max_name_bytes - byte_len ext) stem h))
      k

-- Cutting a name to size brings in no rune that it did not have.
pub any-truncate :
    (q : ℕ → Bool) (stem ext : Text)
    → any q (stem ++ ext) ≡ false
    → any q (truncate stem ext) ≡ false
unfolding truncate
any-truncate q stem ext h =
    let e = any-append q stem ext in
    ground (arith, e, any-truncate_parts q (stem ++ ext) [], any-truncate_parts q stem ext)

byte_len-append_ext :
    (stem ext : Text) → byte_len (append_ext stem ext) ≤ byte_len stem + byte_len ext
byte_len-append_ext [] ext = omega arith
byte_len-append_ext (c ∷ stem) ext = omega (arith, byte_len-append (c ∷ stem) ext)

byte_len-truncate_parts :
    (stem ext : Text)
    → byte_len ext ≤ max_name_bytes
    → byte_len (truncate_parts stem ext) ≤ max_name_bytes
unfolding truncate_parts
byte_len-truncate_parts stem ext h =
    let budget = max_name_bytes - byte_len ext in
    let cut = shorten stem budget stem in
    omega (
      arith,
      byte_len-append_ext (trim_right is_dot_or_space cut) ext,
      byte_len-trim_right is_dot_or_space cut,
      shorten-le stem budget stem (omega arith),
    )

-- Every name that is cut to size fits.
pub byte_len-truncate : (stem ext : Text) → byte_len (truncate stem ext) ≤ max_name_bytes
unfolding truncate
byte_len-truncate stem ext =
    ground (arith, byte_len-truncate_parts (stem ++ ext) [], byte_len-truncate_parts stem ext)

ends_in-append_ext :
    (p : ℕ → Bool) (stem ext : Text)
    → ends_in p stem ≡ false
    → ends_in p ext ≡ false
    → ends_in p (append_ext stem ext) ≡ false
ends_in-append_ext p [] ext h k = refl
ends_in-append_ext p (c ∷ stem) [] h k =
    subst (λ s. ends_in p s ≡ false) (sym (append-nil (c ∷ stem))) h
ends_in-append_ext p (c ∷ stem) (d ∷ ext) h k = rw (ends_in-append p (c ∷ stem) d ext) k

ends_in-tail : (p : ℕ → Bool) (s t : Text) → ends_in p (s ++ t) ≡ false → ends_in p t ≡ false
ends_in-tail p s [] h = refl
ends_in-tail p s (d ∷ t) h = rw (ends_in-append p s d t) at h

ends_in-truncate_parts :
    (stem ext : Text)
    → ends_in is_dot_or_space ext ≡ false
    → ends_in is_dot_or_space (truncate_parts stem ext) ≡ false
unfolding truncate_parts
ends_in-truncate_parts stem ext h =
    let cut = shorten stem (max_name_bytes - byte_len ext) stem in
    ends_in-append_ext is_dot_or_space (trim_right is_dot_or_space cut) ext
      (ends_in-trim_right is_dot_or_space cut) h

-- A name cut to size does not end in a dot or a space, if the whole name did not.
pub ends_in-truncate :
    (stem ext : Text)
    → ends_in is_dot_or_space (stem ++ ext) ≡ false
    → ends_in is_dot_or_space (truncate stem ext) ≡ false
unfolding truncate
ends_in-truncate stem ext h = elim (Bool-cases (ltb 100 (byte_len ext))) [
  | inl long ↦ rw long (ends_in-truncate_parts (stem ++ ext) [] refl)
  | inr short ↦ rw short (ends_in-truncate_parts stem ext (ends_in-tail is_dot_or_space stem ext h))
]
