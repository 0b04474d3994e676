-- ===== src/Config/Examples.antt =====
-- The theorems about the configuration, at concrete inputs.
use freedesk.Prelude.{◌≡◌, refl, true, false, [], ◌∷◌, some, text}
use freedesk.Config.{
  Vars, lookup_env, EnvFile, load_dot_env, read_lines, parse_line, cut_equals, setenv,
}
use freedesk.Config.Load.{Build, load, short_host_name, matches_repo, matches_owner, matches_name}
use freedesk.Config.Load.Usable.{Ensures, IsUsable, load-IsUsable}

abbrev env : Vars
env = (text "RC_UDP_PORT", text "0") ∷ (text "RC_APPROVAL", text " Console ") ∷ []

abbrev file : EnvFile
file =
    EnvFile.holds
      (text "# the port"
        ∷ text " RC_UDP_PORT = 5000"
        ∷ text "RC_HOST_NAME=\"Desk\""
        ∷ text "RC_HOST_NAME=Other"
        ∷ [])
      true

host_name_of_file : lookup_env (load_dot_env file env).0 (text "RC_HOST_NAME") ≡ some (text "Desk")
unfolding lookup_env load_dot_env read_lines parse_line cut_equals setenv
host_name_of_file = refl

file_loads : (load_dot_env file env).1 ≡ true
unfolding lookup_env load_dot_env read_lines parse_line cut_equals setenv
file_loads = refl

abbrev build : Build
build = record {
  api_key = text "AIza";
  project_id = text "desk";
  database_url = text "https://desk.firebaseio.com";
  hosting_site = [];
  repo = text "me/desk.v2";
}

repo_matches : matches_repo build.repo ≡ true
unfolding matches_repo matches_owner matches_name
repo_matches = refl

only_dots : matches_repo (text "me/..") ≡ false
unfolding matches_repo matches_owner matches_name
only_dots = refl

bonjour : short_host_name (text "Anna.LOCAL") ≡ text "Anna"
unfolding short_host_name
bonjour = refl

load-IsUsable_example :
    let (env', r) = load build true (some (text "Anna.local")) file env in Ensures (IsUsable env') r
load-IsUsable_example = load-IsUsable build true (some (text "Anna.local")) file env
