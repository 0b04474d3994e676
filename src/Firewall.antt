-- ===== src/Firewall.antt =====
-- host-agent/internal/firewall/status.go and match.go: what the firewall's answer says of the program.
-- `fold` takes a rune to the one that stands for all that strings.EqualFold has equal to it, `clean` is
-- filepath.Clean, and `env` the environment.
pub mod Lines
pub mod Verdict
mod Examples
use freedesk.Prelude.{
  ℕ, ◌+◌, ◌-◌, ◌*◌, ◌^◌, Bool, true, false, not, ◌&&◌, ◌||◌, List, [], ◌∷◌, ◌++◌, Option, none,
  some, Text, text, any, eq_text, is_empty, length, take, trim_space, if◌then◌else◌, ltb, leb, ◌==◌,
  map,
}
use freedesk.Config.{Vars, getenv}
use freedesk.Config.Load.{to_lower}
use freedesk.Update.{is_digit}

pub record Status : Type 0 where
  pub owner : Text
  pub enabled : Bool
  pub block_all : Bool
  pub blocked : Bool
  pub allowed : Bool
  pub elsewhere : List Text
  pub network : Text

unfoldable pub reachable : Status → Bool
reachable s =
    not (is_empty s.owner) || not s.enabled || (not s.block_all && not s.blocked && s.allowed)

abbrev pub put_front_field : ℕ → List Text → List Text
put_front_field c [] = (c ∷ []) ∷ []
put_front_field c (f ∷ fs) = (c ∷ f) ∷ fs

-- strings.Split
unfoldable pub split_on : ℕ → Text → List Text
split_on sep [] = [] ∷ []
split_on sep (c ∷ s) =
    let rest = split_on sep s in if c == sep then [] ∷ rest else put_front_field c rest

-- strings.Join with "|"
unfoldable pub join_bars : List Text → Text
join_bars [] = []
join_bars (f ∷ []) = f
join_bars (f ∷ g ∷ fs) = f ++ (b'|' ∷ join_bars (g ∷ fs))

-- strings.Map, which makes U+FFFD of an invalid byte.
unfoldable pub remove_controls : Text → Text
remove_controls [] = []
remove_controls (c ∷ s) =
    let rest = remove_controls s in
    if ltb c 0x20 || (leb 0x7F c && leb c 0x9F)
    then rest
    else (if leb 0x110000 c then 0xFFFD else c) ∷ rest

unfoldable pub clean_name : Text → Text
clean_name s =
    let t = trim_space (remove_controls s) in
    if ltb 64 (length t) then trim_space (take 64 t) else t

-- The name of a profile, or none.
unfoldable pub normalize_profile : Text → Text
normalize_profile s =
    let w = to_lower (trim_space s) in
    if eq_text w (text "private")
    then text "Private"
    else if eq_text w (text "public")
    then text "Public"
    else if eq_text w (text "domain") || eq_text w (text "domainauthenticated")
    then text "Domain"
    else if eq_text w (text "any")
    then text "Any"
    else []

unfoldable pub profiles_of : List Text → List Text
profiles_of [] = []
profiles_of (p ∷ ps) =
    let n = normalize_profile p in
    let rest = profiles_of ps in if is_empty n then rest else n ∷ rest

-- slices.Contains
abbrev pub contains : List Text → Text → Bool
contains networks p = any (λ n. eq_text n p) networks

unfoldable pub covers : Text → List Text → Bool
covers profiles [] = true
covers profiles (n ∷ networks) =
    any
      (λ p.
        eq_text (normalize_profile p) (text "Any") || contains (n ∷ networks) (normalize_profile p))
      (split_on b',' profiles)

-- Whether the number that Atoi gives, with an error or not, is positive: beyond its range it is the
-- greatest.
abbrev pub positive_digits : ℕ → Text → Bool
positive_digits n [] = ltb 0 n
positive_digits n (c ∷ s) =
    let m = n * 10 + (c - b'0') in
    let rest = positive_digits m s in
    if is_digit c then (if leb (2 ^ 64) m then true else rest) else false

unfoldable pub is_positive_number : Text → Bool
is_positive_number [] = false
is_positive_number (c ∷ s) =
    if c == b'-' then false else positive_digits 0 (if c == b'+' then s else c ∷ s)

-- expand, inside a name that has begun or not.
unfoldable pub expand : Vars → Option Text → Text → Text
expand env none [] = []
expand env (some name) [] = b'%' ∷ name
expand env none (c ∷ s) = if c == b'%' then expand env (some []) s else c ∷ expand env none s
expand env (some []) (c ∷ s) =
    if c == b'%' then b'%' ∷ expand env (some []) s else expand env (some (c ∷ [])) s
expand env (some (a ∷ name)) (c ∷ s) =
    if c == b'%'
    then getenv env (a ∷ name) ++ expand env none s
    else expand env (some (a ∷ (name ++ (c ∷ [])))) s

-- What a line of the answer says.
pub data Line : Type 0 where
  owns : Text → Line
  turned : Bool → Line
  networks : List Text → Line
  blocks : Line
  allows : (profiles : Text) → Line
  nothing : Line

module _ (fold : ℕ → ℕ) (clean : Text → Text) (env : Vars) where
  -- strings.EqualFold
  abbrev pub equal_fold : Text → Text → Bool
  equal_fold s t = eq_text (map fold s) (map fold t)

  unfoldable pub same_program : (rule exe : Text) → Bool
  same_program rule exe =
      let r = trim_space rule in
      if is_empty r || equal_fold r (text "Any")
      then false
      else equal_fold (clean (expand env none r)) (clean exe)

  abbrev pub rule_line : Text → Text → Line
  rule_line action profiles =
      if equal_fold action (text "Block")
      then blocks
      else if equal_fold action (text "Allow")
      then allows profiles
      else nothing

  -- The fields after the first, for each word that the first can be.
  abbrev pub owner_line : List Text → Line
  owner_line [] = nothing
  owner_line (f ∷ fs) = owns (clean_name (join_bars (f ∷ fs)))

  abbrev pub enabled_line : List Text → Line
  enabled_line (f ∷ []) = turned (is_positive_number (trim_space f))
  enabled_line _ = nothing

  abbrev pub network_line : List Text → Line
  network_line (f ∷ []) = networks (profiles_of (split_on b',' f))
  network_line _ = nothing

  abbrev pub program_line : Text → List Text → Line
  program_line exe (action ∷ profiles ∷ program ∷ []) =
      if same_program program exe then rule_line (trim_space action) profiles else nothing
  program_line exe _ = nothing

  abbrev pub fields_line : Text → List Text → Line
  fields_line exe [] = nothing
  fields_line exe (word ∷ fs) =
      if eq_text word (text "owner")
      then owner_line fs
      else if eq_text word (text "enabled")
      then enabled_line fs
      else if eq_text word (text "network")
      then network_line fs
      else if eq_text word (text "rule")
      then program_line exe fs
      else nothing

  unfoldable pub read_line : Text → Text → Line
  read_line exe line = fields_line exe (split_on b'|' (trim_space line))

-- What a line changes, of the status and the networks known so far.
abbrev pub apply_line : Line → Status × List Text → Status × List Text
apply_line (owns name) (st, nets) =
    (record st { owner = if is_empty st.owner then name else st.owner }, nets)
apply_line (turned on) (st, nets) = (record st { enabled = on }, nets)
apply_line (networks more) (st, nets) = (st, nets ++ more)
apply_line blocks (st, nets) = (record st { blocked = true }, nets)
apply_line (allows profiles) (st, nets) =
    let here = covers profiles nets in
    let others = profiles_of (split_on b',' profiles) in
    (
      record st {
        allowed = if here then true else st.allowed;
        elsewhere = if here then st.elsewhere else st.elsewhere ++ others;
      },
      nets,
    )
apply_line nothing (st, nets) = (st, nets)

unfoldable pub apply_lines : List Line → Status × List Text → Status × List Text
apply_lines [] s = s
apply_lines (l ∷ ls) s = apply_lines ls (apply_line l s)

abbrev pub first_or_empty : List Text → Text
first_or_empty [] = []
first_or_empty (n ∷ ns) = n

abbrev pub conclude : Status × List Text → Status
conclude (st, nets) = record st {
  network = first_or_empty nets;
  elsewhere = if st.allowed then [] else st.elsewhere;
}

abbrev pub no_status : Status
no_status = record {
  owner = [];
  enabled = false;
  block_all = false;
  blocked = false;
  allowed = false;
  elsewhere = [];
  network = [];
}

unfoldable pub parse : (ℕ → ℕ) → (Text → Text) → Vars → (out exe : Text) → Status
parse fold clean env out exe =
    conclude (apply_lines (map (read_line fold clean env exe) (split_on 10 out)) (no_status, []))
