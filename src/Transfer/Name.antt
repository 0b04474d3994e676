-- ===== src/Transfer/Name.antt =====
-- host-agent/internal/transfer/name.go: which file names may be written.
pub mod Runes
pub mod Safe
pub mod Again
pub mod Reserved
use freedesk.Prelude.{
  ℕ, ◌-◌, Bool, not, ◌&&◌, ◌||◌, List, [], ◌∷◌, ◌++◌, Option, none, some, map, ltb, leb, ◌==◌,
  if◌then◌else◌, Text, text, eq_text, is_empty, byte_len, trim_right, trim_space, any, all,
}

abbrev pub max_name_bytes : ℕ
max_name_bytes = 200

-- The device names, as `reservedStems` lists them.
abbrev pub reserved_stems : List Text
reserved_stems =
    text "CON"
    ∷ text "PRN"
    ∷ text "AUX"
    ∷ text "NUL"
    ∷ text "COM1"
    ∷ text "COM2"
    ∷ text "COM3"
    ∷ text "COM4"
    ∷ text "COM5"
    ∷ text "COM6"
    ∷ text "COM7"
    ∷ text "COM8"
    ∷ text "COM9"
    ∷ text "LPT1"
    ∷ text "LPT2"
    ∷ text "LPT3"
    ∷ text "LPT4"
    ∷ text "LPT5"
    ∷ text "LPT6"
    ∷ text "LPT7"
    ∷ text "LPT8"
    ∷ text "LPT9"
    ∷ []

-- utf8.ValidString, of one element of a text.
abbrev pub is_valid : ℕ → Bool
is_valid c = ltb c 0x110000

abbrev pub is_separator : ℕ → Bool
is_separator c = c == b'/' || c == 0x5C

unfoldable pub is_bidi_control : ℕ → Bool
is_bidi_control c =
    c == 0x200E || c == 0x200F || (leb 0x202A c && leb c 0x202E) || (leb 0x2066 c && leb c 0x2069)

-- `<>"|?*`
abbrev pub is_forbidden : ℕ → Bool
is_forbidden c = c == b'<' || c == b'>' || c == 0x22 || c == b'|' || c == b'?' || c == b'*'

-- The cases of the loop over the runes.
unfoldable pub is_bad_rune : ℕ → Bool
is_bad_rune c = (ltb c 0x20 || c == 0x7F) || is_forbidden c || is_bidi_control c

-- The cutset `. ` of TrimRight.
abbrev pub is_dot_or_space : ℕ → Bool
is_dot_or_space c = c == b'.' || c == b' '

-- strings.ToUpper on ASCII. Outside it only U+0131 and U+017F have an ASCII upper case, I and S,
-- and no reserved stem has either letter, so the lookup comes out the same.
abbrev pub to_upper : ℕ → ℕ
to_upper c = if leb b'a' c && leb c b'z' then c - 32 else c

-- The part before the first dot: strings.Cut(name, ".").
abbrev pub head_of : Text → Text
head_of [] = []
head_of (c ∷ s) = if c == b'.' then [] else c ∷ head_of s

unfoldable pub is_reserved : Text → Bool
is_reserved name = any (eq_text (map to_upper (head_of name))) reserved_stems

-- The part before the last dot, and the rest; `none` where there is no dot.
abbrev pub put_after_dot : ℕ → Text → Option (Text × Text) → Option (Text × Text)
put_after_dot c s none = if c == b'.' then some ([], c ∷ s) else none
put_after_dot c s (some (stem, ext)) = some (c ∷ stem, ext)

abbrev pub cut_last : Text → Option (Text × Text)
cut_last [] = none
cut_last (c ∷ s) = put_after_dot c s (cut_last s)

-- A dot at the start belongs to the stem.
abbrev pub stem_or_all : Text → Option (Text × Text) → Text × Text
stem_or_all name none = (name, [])
stem_or_all name (some ([], ext)) = (name, [])
stem_or_all name (some (c ∷ stem, ext)) = (c ∷ stem, ext)

unfoldable pub split_ext : Text → Text × Text
split_ext name = stem_or_all name (cut_last name)

abbrev pub drop_last : Text → Text
drop_last [] = []
drop_last (c ∷ []) = []
drop_last (c ∷ d ∷ s) = c ∷ drop_last (d ∷ s)

-- `for len(stem) > budget`: each round cuts the last rune. The rounds are bounded by the number
-- of runes.
unfoldable pub shorten : Text → ℕ → Text → Text
shorten [] budget stem = stem
shorten (_ ∷ rounds) budget stem =
    if ltb budget (byte_len stem) then shorten rounds budget (drop_last stem) else stem

abbrev pub append_ext : Text → Text → Text
append_ext [] ext = []
append_ext (c ∷ stem) ext = (c ∷ stem) ++ ext

-- `truncate` after the choice of stem and extension.
unfoldable pub truncate_parts : Text → Text → Text
unfolding shorten
truncate_parts stem ext =
    append_ext (trim_right is_dot_or_space (shorten stem (max_name_bytes - byte_len ext) stem)) ext

unfoldable pub truncate : Text → Text → Text
unfolding truncate_parts
truncate stem ext =
    if ltb 100 (byte_len ext) then truncate_parts (stem ++ ext) [] else truncate_parts stem ext

-- A name of the kind that `filepath.Base` leaves alone. No name that gets here has a separator,
-- so what is left of that test is that the name is not empty.
unfoldable pub is_plain : Text → Bool
is_plain name =
    not (is_empty name)
    && not (any is_separator name)
    && not (eq_text name (text "."))
    && not (eq_text name (text ".."))

abbrev pub check_plain : Text → Option Text
check_plain name = if is_plain name then some name else none

-- What happens to a name whose runes have all passed.
unfoldable pub finish_name : Text → Option Text
finish_name name =
    if is_empty name
    then none
    else if is_reserved name
    then none
    else if ltb max_name_bytes (byte_len name)
    then check_plain (truncate (split_ext name).0 (split_ext name).1)
    else check_plain name

-- `none` is ErrBadName, the only error.
unfoldable pub safe_name : Text → Option Text
safe_name raw =
    let name = trim_space raw in
    if is_empty name
    then none
    else if not (all is_valid name)
    then none
    else if any is_separator name
    then none
    else if any (λ c. c == b':') name
    then none
    else if any is_bad_rune name
    then none
    else finish_name (trim_right is_dot_or_space name)
