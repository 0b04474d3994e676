-- ===== src/Transfer/Message/Valid.antt =====
-- message.go: what a frame that passed `validate` may be relied on for.
use native.Mathlib.Nat.{add_assoc, zero-add}
use freedesk.Prelude.{
  ℕ, ◌+◌, ◌*◌, ◌≤◌, ◌<◌, ◌≡◌, true, false, List, [], ◌∷◌, arith, Text, is_empty, length, pos,
  int64_max, +ℤ-pos, magnitude, All, all, ap, exceeds, subst, ◌∙◌,
}
use freedesk.Transfer.Message.{
  offer, Reason, FileMeta, Msg, max_file_bytes, max_batch_files, max_batch_bytes, total_from,
  total_size, sane_file, validate_offer, validate_as, validate, refuse, fail,
}

-- The sum over the integers, with no wrap-around.
abbrev pub sum_sizes : List FileMeta → ℕ
sum_sizes [] = 0
sum_sizes (f ∷ fs) = magnitude f.size + sum_sizes fs

abbrev pub IsSane : FileMeta → Type 0
IsSane f =
    (is_empty f.name ≡ false)
    × (f.size ≡ pos (magnitude f.size))
    × (0 < magnitude f.size)
    × (magnitude f.size ≤ max_file_bytes)

sane_file-IsSane : (f : FileMeta) → sane_file f ≡ true → IsSane f
sane_file-IsSane f h = ground arith

all-IsSane : (fs : List FileMeta) → all sane_file fs ≡ true → All IsSane fs
all-IsSane [] h = tt
all-IsSane (f ∷ fs) h = (sane_file-IsSane f (ground arith), all-IsSane fs (ground arith))

sum_sizes-le : (fs : List FileMeta) → All IsSane fs → sum_sizes fs ≤ length fs * max_file_bytes
sum_sizes-le [] h = omega arith
sum_sizes-le (f ∷ fs) h = omega (arith, sum_sizes-le fs h.1)

total_from-sum :
    (acc : ℕ) (fs : List FileMeta)
    → All IsSane fs
    → acc + sum_sizes fs ≤ int64_max
    → total_from (pos acc) fs ≡ pos (acc + sum_sizes fs)
unfolding total_from
total_from-sum acc [] h b = ground arith
total_from-sum acc (f ∷ fs) h b =
    rw (h.0.1, +ℤ-pos acc (magnitude f.size) (omega arith))
      (rw (total_from-sum (acc + magnitude f.size) fs h.1 (omega arith))
        (ap pos (add_assoc acc (magnitude f.size) (sum_sizes fs))))

validate_offer_tests :
    (m : Msg)
    → validate_offer m ≡ true
    → (is_empty m.id ≡ false)
      × (is_empty m.files ≡ false)
      × (length m.files ≤ max_batch_files)
      × (all sane_file m.files ≡ true)
      × (exceeds (total_size m.files) max_batch_bytes ≡ false)
unfolding validate_offer
validate_offer_tests m h = ground arith

is_empty-length : (fs : List FileMeta) → is_empty fs ≡ false → 0 < length fs
is_empty-length [] h = cc
is_empty-length (f ∷ fs) h = omega arith

exceeds-le : (n b : ℕ) → exceeds (pos n) b ≡ false → n ≤ b
exceeds-le n b h = ground arith

total_size-sum :
    (fs : List FileMeta)
    → All IsSane fs
    → length fs ≤ max_batch_files
    → total_size fs ≡ pos (sum_sizes fs)
unfolding total_size
total_size-sum fs h l =
    total_from-sum 0 fs h (omega (arith, sum_sizes-le fs h)) ∙ ap pos (zero-add (sum_sizes fs))

-- Of an offer that `validate` lets through: it has an id, 1 to 32 files, each named and of 1 byte to
-- 512 MiB; the sum of the sizes does not wrap around in int64, and is at most 1 GiB.
pub validate-offer :
    (m : Msg)
    → validate m ≡ true
    → m.t ≡ offer
    → (is_empty m.id ≡ false)
      × (0 < length m.files)
      × (length m.files ≤ max_batch_files)
      × All IsSane m.files
      × (total_size m.files ≡ pos (sum_sizes m.files))
      × (sum_sizes m.files ≤ max_batch_bytes)
unfolding validate validate_as
validate-offer m h e =
    let (i, n, l, s, t) = validate_offer_tests m (subst (λ k. validate_as k m ≡ true) e h) in
    let sane = all-IsSane m.files s in
    let exact = total_size-sum m.files sane l in
    (i, is_empty-length m.files n, l, sane, exact, exceeds-le _ _ (rw exact at t))

-- The refusals and failures that the host sends are frames that `validate` lets through, for every
-- id that is not empty.
pub validate-refuse :
    (id : Text) (why : Reason)
    → is_empty id ≡ false
    → (validate (refuse id why) ≡ true) × (validate (fail id why) ≡ true)
unfolding validate refuse fail
validate-refuse id why h = ground arith
