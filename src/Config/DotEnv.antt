-- ===== src/Config/DotEnv.antt =====
-- config/config.go: loadDotEnv, and what the environment holds after it.
use freedesk.Prelude.{
  ◌≡◌, refl, ◌∙◌, Bool, true, false, List, [], ◌∷◌, Option, none, some, Text, eq_text, eq_text_iff,
  if◌then◌else◌, Bool-cases, inl, inr, Option-cases, subst,
}
use freedesk.Config.{
  Vars, lookup_env, setenv, may_set, parse_line, set_missing, read_lines, EnvFile, load_dot_env,
}

abbrev first_given : Option (Text × Text) → Text → Option Text → Option Text
first_given none name later = later
first_given (some (k, v)) name later = if eq_text k name then some v else later

-- The value in the first line of the file that gives the variable.
unfoldable pub given : Text → List Text → Option Text
unfolding parse_line
given name [] = none
given name (line ∷ lines) = first_given (parse_line line) name (given name lines)

abbrev pub or_else : Option Text → Option Text → Option Text
or_else none later = later
or_else (some v) later = some v

abbrev pub lines_of : EnvFile → List Text
lines_of EnvFile.absent = []
lines_of EnvFile.unreadable = []
lines_of (EnvFile.holds lines clean) = lines

lookup-setenv :
    (k v name : Text) (env : Vars)
    → (setenv k v env).1 ≡ true
    → lookup_env (setenv k v env).0 name ≡ (if eq_text k name then some v else lookup_env env name)
unfolding setenv lookup_env
lookup-setenv k v name env ok = elim (Bool-cases (may_set k v)) [
  | inl e ↦ rw e refl
  | inr e ↦ absurd (let z : false ≡ true = rw e at ok in cc)
]

same_name : (k name : Text) → eq_text k name ≡ true → k ≡ name
same_name k name e = (eq_text_iff k name).0 e

-- One line, where Setenv does not fail.
lookup-set_missing :
    (k v name : Text) (env : Vars) (later : Option Text)
    → (set_missing (some (k, v)) env).1 ≡ true
    → or_else (lookup_env (set_missing (some (k, v)) env).0 name) later
      ≡ or_else (lookup_env env name) (first_given (some (k, v)) name later)
lookup-set_missing k v name env later ok = elim (Option-cases (lookup_env env k)) [
  | inl e ↦ elim (Bool-cases (eq_text k name)) [
    | inl s ↦
        let same = same_name k name s in
        let l = lookup-setenv k v name env (rw e at ok) in
        let n : lookup_env env name ≡ none = subst (λ t. lookup_env env t ≡ none) same e in
        rw (e, l, s, n) refl
    | inr s ↦ let l = lookup-setenv k v name env (rw e at ok) in rw (e, l, s) refl
  ]
  | inr (w, e) ↦ elim (Bool-cases (eq_text k name)) [
    | inl s ↦
        let n : lookup_env env name ≡ some w =
          subst (λ t. lookup_env env t ≡ some w) (same_name k name s) e in
        rw (e, s, n) refl
    | inr s ↦ rw (e, s) refl
  ]
]

step_lookup :
    (o : Option (Text × Text)) (name : Text) (env : Vars) (later : Option Text)
    → (set_missing o env).1 ≡ true
    → or_else (lookup_env (set_missing o env).0 name) later
      ≡ or_else (lookup_env env name) (first_given o name later)
step_lookup none name env later ok = refl
step_lookup (some (k, v)) name env later ok = lookup-set_missing k v name env later ok

or_none : (o : Option Text) → o ≡ or_else o none
or_none none = refl
or_none (some v) = refl

read_lines_lookup :
    (env : Vars) (lines : List Text) (clean : Bool) (name : Text)
    → (read_lines env lines clean).1 ≡ true
    → lookup_env (read_lines env lines clean).0 name
      ≡ or_else (lookup_env env name) (given name lines)
unfolding read_lines given
read_lines_lookup env [] clean name ok = or_none (lookup_env env name)
read_lines_lookup env (line ∷ lines) clean name ok =
    let o = parse_line line in
    let env' = (set_missing o env).0 in
    elim (Bool-cases (set_missing o env).1) [
      | inl y ↦ rw y (
          read_lines_lookup env' lines clean name (rw y at ok)
          ∙ step_lookup o name env (given name lines) y)
      | inr n ↦ absurd (let z : false ≡ true = rw n at ok in cc)
    ]

-- After loadDotEnv without an error, a variable that the environment had keeps its value; any other has
-- the value of the first line that gives it, and is absent where none does.
pub load_dot_env_lookup :
    (file : EnvFile) (env : Vars) (name : Text)
    → (load_dot_env file env).1 ≡ true
    → lookup_env (load_dot_env file env).0 name
      ≡ or_else (lookup_env env name) (given name (lines_of file))
unfolding load_dot_env given
load_dot_env_lookup EnvFile.absent env name ok = or_none (lookup_env env name)
load_dot_env_lookup EnvFile.unreadable env name ok = or_none (lookup_env env name)
load_dot_env_lookup (EnvFile.holds lines clean) env name ok =
    read_lines_lookup env lines clean name ok
