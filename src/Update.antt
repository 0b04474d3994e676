-- ===== src/Update.antt =====
-- host-agent/internal/update/update.go: whether a release is newer than the running agent.
-- The HTTP request and the JSON of its answer are not modelled: `check` starts from the tag.
pub mod Rounds
pub mod Order
mod Examples
use freedesk.Prelude.{
  ℕ, zero, suc, ◌+◌, ◌-◌, ◌*◌, max, Bool, true, false, not, ◌&&◌, ◌||◌, List, [], ◌∷◌, ◌++◌, Option,
  none, some, Text, text, ℤ, pos, negsuc, if◌then◌else◌, map, ltb, leb, ◌==◌, length, get_or,
  int64_max, trim_space, is_empty, is_pos, is_neg,
}

-- strings.TrimPrefix with "v"
unfoldable pub trim_v : Text → Text
trim_v [] = []
trim_v (c ∷ s) = if c == b'v' then s else c ∷ s

-- Up to the first hyphen or plus.
unfoldable pub before_suffix : Text → Text
before_suffix [] = []
before_suffix (c ∷ s) =
    let rest = before_suffix s in if (c == b'-') || (c == b'+') then [] else c ∷ rest

abbrev pub put_front_part : ℕ → List Text → List Text
put_front_part c [] = (c ∷ []) ∷ []
put_front_part c (p ∷ ps) = (c ∷ p) ∷ ps

-- strings.Split with "."
unfoldable pub split_dots : Text → List Text
split_dots [] = [] ∷ []
split_dots (c ∷ s) =
    let rest = split_dots s in if c == b'.' then [] ∷ rest else put_front_part c rest

abbrev pub is_digit : ℕ → Bool
is_digit c = leb b'0' c && leb c b'9'

-- A decimal number after the digits read so far; `none` where a rune is no digit.
unfoldable pub digits : ℕ → Text → Option ℕ
digits n [] = some n
digits n (c ∷ s) = let rest = digits (n * 10 + (c - b'0')) s in if is_digit c then rest else none

abbrev pub in_range : Bool → Option ℕ → Option ℤ
in_range minus none = none
in_range true (some zero) = some (pos 0)
in_range true (some (suc n)) = if leb n int64_max then some (negsuc n) else none
in_range false (some n) = if leb n int64_max then some (pos n) else none

abbrev pub unsigned : Bool → Text → Option ℤ
unsigned minus [] = none
unsigned minus (c ∷ s) = in_range minus (digits 0 (c ∷ s))

-- strconv.Atoi; `none` is its error.
unfoldable pub atoi : Text → Option ℤ
atoi [] = none
atoi (c ∷ s) =
    if c == b'-'
    then unsigned true s
    else if c == b'+'
    then unsigned false s
    else unsigned false (c ∷ s)

-- `if err != nil || n < 0 { n = 0 }`
abbrev pub or_zero : Option ℤ → ℕ
or_zero (some (ℤ.pos n)) = n
or_zero (some (ℤ.negsuc n)) = 0
or_zero none = 0

unfoldable pub version_parts : Text → List ℕ
version_parts v = map (λ p. or_zero (atoi p)) (split_dots (before_suffix (trim_v (trim_space v))))

-- The loop of compareVersions from index `i`, with the rounds that are left.
unfoldable pub compare_from : List ℕ → List ℕ → ℕ → ℕ → ℤ
compare_from pa pb zero i = pos 0
compare_from pa pb (suc left) i =
    let x = get_or pa i 0 in
    let y = get_or pb i 0 in
    let rest = compare_from pa pb left (i + 1) in
    if x == y then rest else if ltb x y then negsuc 0 else pos 1

unfoldable pub compare_versions : Text → Text → ℤ
compare_versions a b =
    let pa = version_parts a in
    let pb = version_parts b in compare_from pa pb (max (length pa) (length pb)) 0

pub record Release : Type 0 where
  pub version : Text
  pub url : Text

-- What `check` returns: an error, nothing newer, or a release.
pub data Answer : Type 0 where
  failed : Answer
  up_to_date : Answer
  newer : Release → Answer

abbrev pub newest : Text → Text → Text → Answer
newest repo current version =
    if is_empty version
    then failed
    else if not (is_pos (compare_versions version current))
    then up_to_date
    else newer (record {
      version = version;
      url = text "https://github.com/" ++ (repo ++ text "/releases/latest");
    })

-- `check`, with the tag of GitHub's answer, or `none` where no answer could be read.
unfoldable pub check : Text → Text → Option Text → Answer
check repo current none = failed
check repo current (some tag) =
    if is_empty repo then failed else newest repo current (trim_v (trim_space tag))
