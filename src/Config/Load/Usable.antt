-- ===== src/Config/Load/Usable.antt =====
-- config/config.go: what the rest of the program may rely on once Load has given a configuration.
use freedesk.Prelude.{
  ℕ, ◌≤◌, ◌≡◌, refl, sym, subst, Bool, true, false, ◌||◌, List, [], ◌∷◌, Option, none, some, Text,
  text, is_empty, if◌then◌else◌, ltb, arith, Bool-cases, inl, inr, ◌⊎◌, ℤ, trim_space,
}
use freedesk.Update.{atoi}
use freedesk.Config.{Vars, getenv, EnvFile, load_dot_env}
use freedesk.Config.Origins.{web_origins}
use freedesk.Config.Load.HostName.{IsName, host_name-IsName}
use freedesk.Config.Load.{
  Build, LoadError, Result, failed, ok, ◌>>=◌, one_of, check, clipboard_mode, approval_mode, switch,
  word, or_word, matches_repo, github_repo, within, number, parse_local_port, parse_max_width,
  parse_udp_port, Config, apply_emulator_overrides, validate, with_origins, read_config, load,
}

abbrev pub Ensures : {A : Type 0} → (A → Type 0) → Result A → Type 0
Ensures P (failed e) = Unit
Ensures P (ok a) = P a

-- The rule of a do block.
bind-Ensures :
    {A B : Type 0} (Q : A → Type 0) (P : B → Type 0) (r : Result A) (f : A → Result B)
    → Ensures Q r
    → ((a : A) → Q a → Ensures P (f a))
    → Ensures P (r >>= f)
bind-Ensures Q P (failed e) f q k = tt
bind-Ensures Q P (ok a) f q k = k a q

check-Ensures :
    (e : LoadError) (s : Text) (words : List Text)
    → Ensures (λ w. one_of w words ≡ true) (check e s words)
check-Ensures e s words = elim (Bool-cases (one_of s words)) [ inl y ↦ rw y y | inr n ↦ rw n tt ]

abbrev pub IsUpTo : Option ℕ → ℕ → Type 0
IsUpTo none n = Unit
IsUpTo (some hi) n = n ≤ hi

within-Ensures :
    (e : LoadError) (lo : ℕ) (hi : Option ℕ) (z : Option ℤ)
    → Ensures (λ n. (lo ≤ n) × IsUpTo hi n) (within e lo hi z)
within-Ensures e lo hi none = tt
within-Ensures e lo hi (some (ℤ.negsuc n)) = tt
within-Ensures e lo none (some (ℤ.pos n)) = elim (Bool-cases (ltb n lo)) [
  | inl y ↦ rw y tt
  | inr y ↦ rw y (ground arith, tt)
]
within-Ensures e lo (some hi) (some (ℤ.pos n)) = elim (Bool-cases (ltb n lo || ltb hi n)) [
  | inl y ↦ rw y tt
  | inr y ↦ rw y (ground arith, ground arith)
]

number-Ensures :
    (P : ℕ → Type 0) (e : LoadError) (lo : ℕ) (hi : Option ℕ) (default : ℕ) (raw : Text)
    → P default
    → ((n : ℕ) → lo ≤ n → IsUpTo hi n → P n)
    → Ensures P (number e lo hi default raw)
number-Ensures P e lo hi default [] d f = d
number-Ensures P e lo hi default (c ∷ s) d f =
    weaken (within e lo hi (atoi (c ∷ s))) (within-Ensures e lo hi (atoi (c ∷ s)))
  where
    weaken : (r : Result ℕ) → Ensures (λ n. (lo ≤ n) × IsUpTo hi n) r → Ensures P r
    weaken (failed e) h = tt
    weaken (ok n) h = f n h.0 h.1

clipboard_mode-Ensures :
    (env : Vars)
    → Ensures (λ w. one_of w (text "text" ∷ text "off" ∷ []) ≡ true) (clipboard_mode env)
unfolding clipboard_mode
clipboard_mode-Ensures env =
    check-Ensures LoadError.bad_clipboard (or_word (word env (text "RC_CLIPBOARD")) (text "text"))
      (text "text" ∷ text "off" ∷ [])

approval_mode-Ensures :
    (env : Vars)
    → Ensures (λ w. one_of w ([] ∷ text "dialog" ∷ text "console" ∷ []) ≡ true) (approval_mode env)
unfolding approval_mode
approval_mode-Ensures env =
    check-Ensures LoadError.bad_approval (word env (text "RC_APPROVAL"))
      ([] ∷ text "dialog" ∷ text "console" ∷ [])

github_repo-Ensures :
    (b : Build) (env : Vars) → Ensures (λ r. matches_repo r ≡ true) (github_repo b env)
unfolding github_repo
github_repo-Ensures b env = repo _
  where
    repo :
        (s : Text)
        → Ensures
            (λ r. matches_repo r ≡ true)
            (if matches_repo s then ok s else failed LoadError.bad_repo)
    repo s = elim (Bool-cases (matches_repo s)) [ inl y ↦ rw y y | inr n ↦ rw n tt ]

-- What validate asks for.
abbrev Complete : Config → Type 0
Complete c =
    (is_empty c.api_key ≡ false)
    × (is_empty c.project_id ≡ false)
    × (is_empty c.database_url ≡ false)

validate-Ensures : (c : Config) → Ensures (λ v. (v ≡ c) × Complete c) (validate c)
unfolding validate
validate-Ensures c = elim (Bool-cases (is_empty c.api_key)) [
  | inl a ↦ rw a tt
  | inr a ↦ elim (Bool-cases (is_empty c.project_id)) [
    | inl p ↦ rw (a, p) tt
    | inr p ↦ elim (Bool-cases (is_empty c.database_url)) [
      | inl d ↦ rw (a, p, d) tt
      | inr d ↦ rw (a, p, d) (refl, (refl, refl, refl))
    ]
  ]
]

-- What Load has tested before.
abbrev Tested : Config → Type 0
Tested c =
    IsName c.host_name
    × ((1 ≤ c.local_api_port) × (c.local_api_port ≤ 65535))
    × (c.udp_port ≤ 65535)
    × ((c.max_width ≡ 0) ⊎ (320 ≤ c.max_width))
    × (one_of c.approval_mode ([] ∷ text "dialog" ∷ text "console" ∷ []) ≡ true)
    × (one_of c.clipboard_mode (text "text" ∷ text "off" ∷ []) ≡ true)
    × (matches_repo c.github_repo ≡ true)

abbrev pub IsUsable : Vars → Config → Type 0
IsUsable env c =
    Complete c
    × Tested c
    × (c.web_origins ≡ web_origins c.project_id c.hosting_site (getenv env (text "RC_WEB_ORIGINS")))

overrides-Tested : (env : Vars) (c : Config) → Tested c → Tested (apply_emulator_overrides env c)
unfolding apply_emulator_overrides
overrides-Tested env c t =
    elim (Bool-cases (is_empty (getenv env (text "FIREBASE_AUTH_EMULATOR_HOST")))) [
      | inl a ↦ elim (Bool-cases (is_empty (getenv env (text "FIREBASE_DATABASE_EMULATOR_HOST")))) [
        | inl d ↦ rw (a, d) t
        | inr d ↦ rw (a, d) t
      ]
      | inr a ↦ elim (Bool-cases (is_empty (getenv env (text "FIREBASE_DATABASE_EMULATOR_HOST")))) [
        | inl d ↦ rw (a, d) t
        | inr d ↦ rw (a, d) t
      ]
    ]

finished :
    (env : Vars) (c : Config)
    → Tested c
    → Ensures (IsUsable env) (validate c >>= (λ v. ok (with_origins env v)))
finished env c t =
    bind-Ensures (λ v. (v ≡ c) × Complete c) (IsUsable env) (validate c) _ (validate-Ensures c)
      (λ v h. subst (λ w. IsUsable env (with_origins env w)) (sym h.0) (h.1, t, refl))

any_switch :
    (r : Result Bool) (P : Config → Type 0) (f : Bool → Result Config)
    → ((b : Bool) → Ensures P (f b))
    → Ensures P (r >>= f)
any_switch (failed e) P f k = tt
any_switch (ok b) P f k = k b

local_port-Ensures : (raw : Text) → Ensures (λ n. (1 ≤ n) × (n ≤ 65535)) (parse_local_port raw)
unfolding parse_local_port
local_port-Ensures raw =
    number-Ensures (λ n. (1 ≤ n) × (n ≤ 65535)) LoadError.bad_local_port 1 (some 65535) 47800 raw
      (omega arith) (λ n lo hi. (lo, hi))

max_width-Ensures : (raw : Text) → Ensures (λ n. (n ≡ 0) ⊎ (320 ≤ n)) (parse_max_width raw)
unfolding parse_max_width
max_width-Ensures raw =
    number-Ensures (λ n. (n ≡ 0) ⊎ (320 ≤ n)) LoadError.bad_max_width 320 none 0 (trim_space raw)
      (inl refl) (λ n lo hi. inr lo)

udp_port-Ensures : (raw : Text) → Ensures (λ n. n ≤ 65535) (parse_udp_port raw)
unfolding parse_udp_port
udp_port-Ensures raw =
    number-Ensures (λ n. n ≤ 65535) LoadError.bad_udp_port 0 (some 65535) 47801 (trim_space raw)
      (omega arith) (λ n lo hi. hi)

read_config-IsUsable :
    (b : Build) (darwin : Bool) (os_name : Option Text) (env : Vars)
    → Ensures (IsUsable env) (read_config b darwin os_name env)
unfolding read_config
read_config-IsUsable b darwin os_name env =
    bind-Ensures (λ w. one_of w (text "text" ∷ text "off" ∷ []) ≡ true) (IsUsable env)
      (clipboard_mode env) _ (clipboard_mode-Ensures env)
      (λ clipboard hc.
        bind-Ensures (λ w. one_of w ([] ∷ text "dialog" ∷ text "console" ∷ []) ≡ true)
          (IsUsable env) (approval_mode env) _ (approval_mode-Ensures env)
          (λ approval ha.
            any_switch (switch LoadError.bad_update_check true (word env (text "RC_UPDATE_CHECK")))
              (IsUsable env) _
              (λ update.
                bind-Ensures (λ r. matches_repo r ≡ true) (IsUsable env) (github_repo b env) _
                  (github_repo-Ensures b env)
                  (λ repo hr.
                    bind-Ensures (λ n. (1 ≤ n) × (n ≤ 65535)) (IsUsable env)
                      (parse_local_port (getenv env (text "RC_LOCAL_PORT"))) _
                      (local_port-Ensures (getenv env (text "RC_LOCAL_PORT")))
                      (λ port hl.
                        bind-Ensures (λ n. (n ≡ 0) ⊎ (320 ≤ n)) (IsUsable env)
                          (parse_max_width (getenv env (text "RC_MAX_WIDTH"))) _
                          (max_width-Ensures (getenv env (text "RC_MAX_WIDTH")))
                          (λ w hm.
                            bind-Ensures (λ n. n ≤ 65535) (IsUsable env)
                              (parse_udp_port (getenv env (text "RC_UDP_PORT"))) _
                              (udp_port-Ensures (getenv env (text "RC_UDP_PORT")))
                              (λ udp hp.
                                any_switch
                                  (switch LoadError.bad_diagnostics false
                                    (word env (text "RC_DIAG")))
                                  (IsUsable env) _
                                  (λ diagnostics. finished env _ (
                                    overrides-Tested env _ (
                                      host_name-IsName darwin os_name env,
                                      hl,
                                      hp,
                                      hm,
                                      ha,
                                      hc,
                                      hr,
                                    ))))))))))

-- Whenever Load gives a configuration, whatever the build, the file and the environment: the key, the
-- project and the database are set, the host has a name of at most 64 bytes, the port of the local
-- API is between 1 and 65535, that of the connections at most 65535, the width 0 or at least 320,
-- the two modes are among the words that are accepted, the repository has the shape of "owner/name",
-- and the origins are those of the final project, site and environment.
pub load-IsUsable :
    (b : Build) (darwin : Bool) (os_name : Option Text) (file : EnvFile) (env : Vars)
    → let (env', r) = load b darwin os_name file env in Ensures (IsUsable env') r
unfolding load
load-IsUsable b darwin os_name file env = elim (Bool-cases (load_dot_env file env).1) [
  | inl y ↦ rw y (read_config-IsUsable b darwin os_name (load_dot_env file env).0)
  | inr n ↦ rw n tt
]
