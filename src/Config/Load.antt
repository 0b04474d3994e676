-- ===== src/Config/Load.antt =====
-- config/config.go and hostname.go: Load. The texts of the errors are left out. Lower case is that of
-- the letters whose lower case is in ASCII: the words that are asked for are.
pub mod HostName
pub mod Usable
use freedesk.Prelude.{
  ℕ, zero, suc, ◌+◌, ◌-◌, ◌/◌, ◌%◌, Bool, true, false, not, ◌&&◌, ◌||◌, List, [], ◌∷◌, ◌++◌, Option,
  none, some, Text, text, any, all, eq_text, is_empty, trim_space, byte_len, width, if◌then◌else◌,
  ltb, leb, ◌==◌, ℤ, pos, negsuc, map, drop, take,
}
use freedesk.Update.{atoi}
use freedesk.Config.{Vars, getenv, EnvFile, load_dot_env}
use freedesk.Config.Origins.{web_origins}

-- What the release build sets.
pub record Build : Type 0 where
  pub api_key : Text
  pub project_id : Text
  pub database_url : Text
  pub hosting_site : Text
  pub repo : Text

pub data LoadError : Type 0 where
  bad_env_file bad_clipboard bad_approval bad_update_check bad_repo : LoadError
  bad_local_port bad_max_width bad_udp_port bad_diagnostics : LoadError
  missing : List Text → LoadError

pub data Result (A : Type 0) : Type 0 where
  failed : LoadError → Result A
  ok : A → Result A

infixl 10 ◌>>=◌
abbrev pub ◌>>=◌ : {A B : Type 0} → Result A → (A → Result B) → Result B
failed e >>= f = failed e
ok a >>= f = f a

unfoldable pub first_non_empty : List Text → Text
first_non_empty [] = []
first_non_empty (v ∷ vs) = let rest = first_non_empty vs in if is_empty v then rest else v

abbrev pub lower : ℕ → ℕ
lower c =
    if leb b'A' c && leb c b'Z'
    then c + 32
    else if c == 0x212A
    then b'k'
    else if c == 0x130
    then b'i'
    else c

abbrev pub to_lower : Text → Text
to_lower s = map lower s

-- strings.ToLower(strings.TrimSpace(…))
abbrev pub word : Vars → Text → Text
word env name = to_lower (trim_space (getenv env name))

abbrev pub is_alnum : ℕ → Bool
is_alnum c = (leb b'A' c && leb c b'Z') || (leb b'a' c && leb c b'z') || (leb b'0' c && leb c b'9')

abbrev pub is_name_rune : ℕ → Bool
is_name_rune c = is_alnum c || c == b'_' || c == b'.' || c == b'-'

-- `\.?[A-Za-z0-9_-][A-Za-z0-9_.-]*$`: the first rune but for one dot is none.
abbrev pub starts_name : Text → Bool
starts_name [] = false
starts_name (c ∷ s) = is_name_rune c && not (c == b'.') && all is_name_rune s

unfoldable pub matches_name : Text → Bool
matches_name [] = false
matches_name (c ∷ s) = if c == b'.' then starts_name s else starts_name (c ∷ s)

-- The owner, after a rune of it that is a letter or digit, or not; and the rest.
unfoldable pub matches_owner : (closed : Bool) → Text → Bool
matches_owner closed [] = false
matches_owner closed (c ∷ s) =
    let longer = matches_owner (is_alnum c) s in
    if c == b'/' then closed && matches_name s else (is_alnum c || c == b'-') && longer

-- repoPattern.MatchString
unfoldable pub matches_repo : Text → Bool
matches_repo [] = false
matches_repo (c ∷ s) = is_alnum c && matches_owner true s

abbrev pub default_repo : Text
default_repo = text "YahyaAltintop/freedesk"

abbrev pub one_of : Text → List Text → Bool
one_of s words = any (λ w. eq_text w s) words

abbrev pub or_word : Text → Text → Text
or_word s fallback = if is_empty s then fallback else s

abbrev pub check : LoadError → Text → List Text → Result Text
check e s words = if one_of s words then ok s else failed e

unfoldable pub clipboard_mode : Vars → Result Text
clipboard_mode env =
    let s = or_word (word env (text "RC_CLIPBOARD")) (text "text") in
    check LoadError.bad_clipboard s (text "text" ∷ text "off" ∷ [])

unfoldable pub approval_mode : Vars → Result Text
approval_mode env =
    check LoadError.bad_approval (word env (text "RC_APPROVAL"))
      ([] ∷ text "dialog" ∷ text "console" ∷ [])

-- `on` or `off`; an empty one is the default.
unfoldable pub switch : LoadError → (default : Bool) → Text → Result Bool
switch e default s =
    if is_empty s
    then ok default
    else if eq_text s (text "on")
    then ok true
    else if eq_text s (text "off")
    then ok false
    else failed e

unfoldable pub github_repo : Build → Vars → Result Text
github_repo b env =
    let own = trim_space (getenv env (text "RC_GITHUB_REPO")) in
    let repo = first_non_empty (own ∷ b.repo ∷ default_repo ∷ []) in
    if matches_repo repo then ok repo else failed LoadError.bad_repo

-- A number from `lo` on, and up to `hi` where there is one; `none` is an error of Atoi.
abbrev pub within : LoadError → (lo : ℕ) → (hi : Option ℕ) → Option ℤ → Result ℕ
within e lo hi none = failed e
within e lo hi (some (ℤ.negsuc n)) = failed e
within e lo none (some (ℤ.pos n)) = if ltb n lo then failed e else ok n
within e lo (some hi) (some (ℤ.pos n)) = if ltb n lo || ltb hi n then failed e else ok n

abbrev pub number : LoadError → (lo : ℕ) → (hi : Option ℕ) → (default : ℕ) → Text → Result ℕ
number e lo hi default raw = if is_empty raw then ok default else within e lo hi (atoi raw)

unfoldable pub parse_local_port : Text → Result ℕ
parse_local_port raw = number LoadError.bad_local_port 1 (some 65535) 47800 raw

unfoldable pub parse_max_width : Text → Result ℕ
parse_max_width raw = number LoadError.bad_max_width 320 none 0 (trim_space raw)

unfoldable pub parse_udp_port : Text → Result ℕ
parse_udp_port raw = number LoadError.bad_udp_port 0 (some 65535) 47801 (trim_space raw)

-- strings.EqualFold with ".local"; the letters of it have no other case outside ASCII.
abbrev pub is_bonjour : Text → Bool
is_bonjour s = eq_text (to_lower s) (text ".local")

-- The name before its last six runes, where these are ".local"; they are six bytes as well.
unfoldable pub short_host_name : Text → Text
short_host_name [] = []
short_host_name (c ∷ s) = let rest = short_host_name s in if is_bonjour s then c ∷ [] else c ∷ rest

abbrev pub fallback_host_name : (darwin : Bool) → Text
fallback_host_name darwin = if darwin then text "Mac Host" else text "Windows Host"

-- The bytes of a rune outside ASCII.
abbrev pub utf8_bytes : ℕ → List ℕ
utf8_bytes c =
    if ltb c 0x800
    then (0xC0 + c / 64) ∷ (0x80 + c % 64) ∷ []
    else if ltb c 0x10000
    then (0xE0 + c / 4096) ∷ (0x80 + c / 64 % 64) ∷ (0x80 + c % 64) ∷ []
    else (0xF0 + c / 262144) ∷ (0x80 + c / 4096 % 64) ∷ (0x80 + c / 64 % 64) ∷ (0x80 + c % 64) ∷ []

-- A byte that is cut off from the others of its rune.
abbrev pub lone : ℕ → ℕ
lone b = 0x110000 + b

abbrev pub lone_bytes : ℕ → Text
lone_bytes c = if ltb c 0x80 || leb 0x110000 c then c ∷ [] else map lone (utf8_bytes c)

-- The first bytes of a string.
unfoldable pub first_bytes : ℕ → Text → Text
first_bytes n [] = []
first_bytes n (c ∷ s) =
    let rest = first_bytes (n - width c) s in
    if leb (width c) n then c ∷ rest else take n (lone_bytes c)

-- `os_name`: what os.Hostname gives, absent where it fails.
abbrev pub own_name : (darwin : Bool) → (os_name : Option Text) → Text
own_name darwin none = fallback_host_name darwin
own_name darwin (some name) =
    if is_empty name then fallback_host_name darwin else short_host_name name

unfoldable pub host_name : (darwin : Bool) → Option Text → Vars → Text
unfolding first_bytes
host_name darwin os_name env =
    let given = getenv env (text "RC_HOST_NAME") in
    let name = if is_empty given then own_name darwin os_name else given in
    if ltb 64 (byte_len name) then first_bytes 64 name else name

pub record Config : Type 0 where
  pub api_key : Text
  pub project_id : Text
  pub database_url : Text
  pub database_namespace : Text
  pub host_name : Text
  pub local_api_port : ℕ
  pub udp_port : ℕ
  pub diagnostics : Bool
  pub max_width : ℕ
  pub approval_mode : Text
  pub clipboard_mode : Text
  pub hosting_site : Text
  pub update_check : Bool
  pub github_repo : Text
  pub web_origins : List Text
  pub heartbeat_interval : ℕ
  pub auth_base_url : Text
  pub token_base_url : Text

abbrev pub auth_emulator : Text → Config → Config
auth_emulator host c = if is_empty host then c else record c {
  auth_base_url = text "http://" ++ (host ++ text "/identitytoolkit.googleapis.com");
  token_base_url = text "http://" ++ (host ++ text "/securetoken.googleapis.com");
}

abbrev pub database_emulator : Text → Config → Config
database_emulator host c = if is_empty host then c else record c {
  database_url = text "http://" ++ host;
  database_namespace = or_word c.database_namespace (c.project_id ++ text "-default-rtdb");
}

unfoldable pub apply_emulator_overrides : Vars → Config → Config
apply_emulator_overrides env c =
    database_emulator (getenv env (text "FIREBASE_DATABASE_EMULATOR_HOST"))
      (auth_emulator (getenv env (text "FIREBASE_AUTH_EMULATOR_HOST")) c)

abbrev pub missing_if : Text → Text → List Text
missing_if value name = if is_empty value then name ∷ [] else []

unfoldable pub validate : Config → Result Config
validate c =
    let names =
      missing_if c.api_key (text "RC_FIREBASE_API_KEY")
      ++ (missing_if c.project_id (text "RC_FIREBASE_PROJECT_ID")
          ++ missing_if c.database_url (text "RC_FIREBASE_DB_URL")) in
    if is_empty names then ok c else failed (missing names)

abbrev pub with_origins : Vars → Config → Config
with_origins env c = record c {
  web_origins = web_origins c.project_id c.hosting_site (getenv env (text "RC_WEB_ORIGINS"));
}

-- What does not need a test. The interval is in seconds.
unfoldable pub base_config : Build → Vars → Config
base_config b env = record {
  api_key = first_non_empty (getenv env (text "RC_FIREBASE_API_KEY") ∷ b.api_key ∷ []);
  project_id = first_non_empty (getenv env (text "RC_FIREBASE_PROJECT_ID") ∷ b.project_id ∷ []);
  database_url = first_non_empty (getenv env (text "RC_FIREBASE_DB_URL") ∷ b.database_url ∷ []);
  database_namespace = getenv env (text "RC_FIREBASE_DB_NAMESPACE");
  host_name = [];
  local_api_port = 47800;
  udp_port = 0;
  diagnostics = false;
  max_width = 0;
  approval_mode = [];
  clipboard_mode = [];
  hosting_site = first_non_empty (getenv env (text "RC_HOSTING_SITE") ∷ b.hosting_site ∷ []);
  update_check = false;
  github_repo = [];
  web_origins = [];
  heartbeat_interval = 30;
  auth_base_url = text "https://identitytoolkit.googleapis.com";
  token_base_url = text "https://securetoken.googleapis.com";
}

-- Load, once the file has been read.
unfoldable pub read_config : Build → (darwin : Bool) → Option Text → Vars → Result Config
read_config b darwin os_name env = do
  clipboard ← clipboard_mode env
  approval ← approval_mode env
  update ← switch LoadError.bad_update_check true (word env (text "RC_UPDATE_CHECK"))
  repo ← github_repo b env
  local_port ← parse_local_port (getenv env (text "RC_LOCAL_PORT"))
  max_width ← parse_max_width (getenv env (text "RC_MAX_WIDTH"))
  udp_port ← parse_udp_port (getenv env (text "RC_UDP_PORT"))
  diagnostics ← switch LoadError.bad_diagnostics false (word env (text "RC_DIAG"))
  let c = record (base_config b env) {
    clipboard_mode = clipboard;
    approval_mode = approval;
    update_check = update;
    github_repo = repo;
    local_api_port = local_port;
    max_width = max_width;
    udp_port = udp_port;
    diagnostics = diagnostics;
    host_name = host_name darwin os_name env;
  }
  valid ← validate (apply_emulator_overrides env c)
  ok (with_origins env valid)

unfoldable pub load : Build → (darwin : Bool) → Option Text → EnvFile → Vars → Vars × Result Config
load b darwin os_name file env =
    let (env', done) = load_dot_env file env in
    (env', if done then read_config b darwin os_name env' else failed LoadError.bad_env_file)

unfoldable pub privacy_url : Build → Text
privacy_url b =
    let repo = if matches_repo b.repo then b.repo else default_repo in
    text "https://github.com/" ++ (repo ++ text "/blob/main/PRIVACY.md")
