-- ===== src/Config.antt =====
-- host-agent/internal/config/config.go and hostname.go: the configuration from the environment and the
-- .env file. The names of variables are compared byte for byte, as macOS does; Windows takes no notice
-- of their case. A variable that is set twice stands in the list twice, and the first counts.
pub mod DotEnv
pub mod Origins
pub mod Load
mod Examples
use freedesk.Prelude.{
  ℕ, zero, suc, ◌+◌, ◌-◌, ◌/◌, ◌%◌, Bool, true, false, not, ◌&&◌, ◌||◌, List, [], ◌∷◌, ◌++◌, Option,
  none, some, Text, text, any, all, eq_text, is_empty, trim_space, trim_left, trim_right, byte_len,
  width, if◌then◌else◌, ltb, leb, ◌==◌, is_some,
}

abbrev pub Vars : Type 0
Vars = List (Text × Text)

unfoldable pub lookup_env : Vars → Text → Option Text
lookup_env [] name = none
lookup_env ((k, v) ∷ env) name = if eq_text k name then some v else lookup_env env name

-- os.Getenv
abbrev pub or_empty : Option Text → Text
or_empty none = []
or_empty (some v) = v

unfoldable pub getenv : Vars → Text → Text
getenv env name = or_empty (lookup_env env name)

-- os.Setenv refuses an empty name, one with `=`, and a NUL in either; `false` is its error.
abbrev pub may_set : Text → Text → Bool
may_set name value =
    not (is_empty name)
    && not (any (λ c. c == b'=' || c == 0) name)
    && not (any (λ c. c == 0) value)

unfoldable pub setenv : Text → Text → Vars → Vars × Bool
setenv name value env = if may_set name value then ((name, value) ∷ env, true) else (env, false)

abbrev pub put_key : ℕ → Option (Text × Text) → Option (Text × Text)
put_key c none = none
put_key c (some (k, v)) = some (c ∷ k, v)

-- strings.Cut at "="
unfoldable pub cut_equals : Text → Option (Text × Text)
cut_equals [] = none
cut_equals (c ∷ s) = let rest = put_key c (cut_equals s) in if c == b'=' then some ([], s) else rest

abbrev pub is_quote : ℕ → Bool
is_quote c = c == 0x22 || c == 0x27

-- strings.Trim of quotes
abbrev pub trim_quotes : Text → Text
trim_quotes s = trim_right is_quote (trim_left is_quote s)

abbrev pub is_comment : Text → Bool
is_comment [] = true
is_comment (c ∷ s) = c == b'#'

abbrev pub clean_pair : Option (Text × Text) → Option (Text × Text)
clean_pair none = none
clean_pair (some (k, v)) = some (trim_space k, trim_quotes (trim_space v))

-- The variable that a line of the file gives.
unfoldable pub parse_line : Text → Option (Text × Text)
unfolding cut_equals
parse_line raw =
    let line = trim_space raw in if is_comment line then none else clean_pair (cut_equals line)

abbrev pub set_missing : Option (Text × Text) → Vars → Vars × Bool
set_missing none env = (env, true)
set_missing (some (k, v)) env = if is_some (lookup_env env k) then (env, true) else setenv k v env

-- Opening the file. `clean`: it was read to its end.
pub data EnvFile : Type 0 where
  absent : EnvFile
  unreadable : EnvFile
  holds : (lines : List Text) → (clean : Bool) → EnvFile

unfoldable pub read_lines : Vars → List Text → Bool → Vars × Bool
unfolding parse_line setenv
read_lines env [] clean = (env, clean)
read_lines env (line ∷ lines) clean =
    let (env', ok) = set_missing (parse_line line) env in
    let rest = read_lines env' lines clean in if ok then rest else (env', false)

-- `absent` is also the empty path; `false` is an error.
unfoldable pub load_dot_env : EnvFile → Vars → Vars × Bool
load_dot_env EnvFile.absent env = (env, true)
load_dot_env EnvFile.unreadable env = (env, false)
load_dot_env (EnvFile.holds lines clean) env = read_lines env lines clean
