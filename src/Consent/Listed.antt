-- ===== src/Consent/Listed.antt =====
-- consent/prompt.go: what the operator reads of the files.
use freedesk.Prelude.{
  ◌⊎◌, inl, inr, Bool-cases, text, leb, ℕ, zero, suc, ◌+◌, ◌-◌, ◌≤◌, ◌<◌, ◌≡◌, refl, ◌∙◌, sym, ap,
  true, false, ◌&&◌, List, [], ◌∷◌, ◌++◌, Text, length, take, drop, map, ltb, ◌==◌, arith,
}
use mathlib.Core.List.{append_assoc}
use freedesk.Consent.{
  max_listed_files, FileOffer, newline, number, human_size, joined, file_line, more_line,
  file_lines, file_list,
}

-- The lines, as the operator should read them: the name and the size of a file, and how many more
-- files there are.
abbrev pub line_of : Text → FileOffer → Text
line_of indent f = indent ++ (f.name ++ (text "  (" ++ (human_size f.size ++ (b')' ∷ newline))))

abbrev pub rest_of : Text → ℕ → Text
rest_of indent n = indent ++ (text "… and " ++ (number n ++ (text " more files" ++ newline)))

abbrev pub each_line : Text → List FileOffer → Text
each_line indent fs = joined (map (line_of indent) fs)

few :
    (indent : Text) (count i : ℕ) (fs : List FileOffer)
    → count ≤ 6
    → file_lines indent count i fs ≡ each_line indent fs
unfolding file_lines file_line
few indent count i [] l = refl
few indent count i (f ∷ fs) l =
    let n : ((i == max_listed_files) && ltb (max_listed_files + 1) count) ≡ false = ground arith in
    rw n (ap (λ t. line_of indent f ++ t) (few indent count (i + 1) fs l))

many :
    (indent : Text) (count i left : ℕ) (fs : List FileOffer)
    → 6 < count
    → i + left ≡ 5
    → left < length fs
    → file_lines indent count i fs ≡ each_line indent (take left fs) ++ rest_of indent (count - 5)
unfolding file_lines file_line more_line
many indent count i left [] l e h = absurd (omega arith)
many indent count i zero (f ∷ fs) l e h =
    let y : ((i == max_listed_files) && ltb (max_listed_files + 1) count) ≡ true = ground arith in
    rw y refl
many indent count i (suc left) (f ∷ fs) l e h =
    let n : ((i == max_listed_files) && ltb (max_listed_files + 1) count) ≡ false = ground arith in
    rw n (
      ap (λ t. line_of indent f ++ t)
        (many indent count (i + 1) left fs l (omega arith) (omega arith))
      ∙ sym (
          append_assoc (line_of indent f) (each_line indent (take left fs))
            (rest_of indent (count - 5))))

length-drop : (n : ℕ) (fs : List FileOffer) → length (drop n fs) ≡ length fs - n
length-drop zero fs = omega arith
length-drop (suc n) [] = omega arith
length-drop (suc n) (f ∷ fs) = omega (arith, length-drop n fs)

-- The list of files that the operator reads: of up to six files, each has its line, with its whole name
-- and its size, in the order of the batch; of more, the first five have theirs, and one line says how
-- many the others are, which are two or more.
pub file_list_lem :
    (indent : Text) (fs : List FileOffer)
    → ((length fs ≤ 6) × (file_list indent fs ≡ each_line indent fs))
      ⊎ ((file_list indent fs ≡ each_line indent (take 5 fs) ++ rest_of indent (length (drop 5 fs)))
          × (2 ≤ length (drop 5 fs)))
unfolding file_list
file_list_lem indent fs = elim (Bool-cases (leb (length fs) 6)) [
  | inl y ↦ let l : length fs ≤ 6 = ground arith in inl (l, few indent (length fs) 0 fs l)
  | inr n ↦
      let l : 6 < length fs = ground arith in
      inr (
        many indent (length fs) 0 5 fs l refl (omega arith)
            ∙ ap (λ n. each_line indent (take 5 fs) ++ rest_of indent n) (sym (length-drop 5 fs)),
        omega (arith, length-drop 5 fs),
      )
]
