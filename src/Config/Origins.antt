-- ===== src/Config/Origins.antt =====
-- config/config.go: webOrigins and SiteURL.
use freedesk.Prelude.{
  ℕ, not, ◌&&◌, List, [], ◌∷◌, ◌++◌, Text, text, eq_text, is_empty, trim_space, trim_right,
  if◌then◌else◌, ◌==◌,
}

abbrev pub put_front_piece : ℕ → List Text → List Text
put_front_piece c [] = (c ∷ []) ∷ []
put_front_piece c (p ∷ ps) = (c ∷ p) ∷ ps

-- strings.SplitSeq with ","
unfoldable pub split_commas : Text → List Text
split_commas [] = [] ∷ []
split_commas (c ∷ s) =
    let rest = split_commas s in if c == b',' then [] ∷ rest else put_front_piece c rest

abbrev pub trim_slashes : Text → Text
trim_slashes s = trim_right (λ c. c == b'/') s

unfoldable pub extra_origins : List Text → List Text
extra_origins [] = []
extra_origins (p ∷ ps) =
    let o = trim_space p in
    let rest = extra_origins ps in if is_empty o then rest else trim_slashes o ∷ rest

abbrev pub site_origins : Text → List Text
site_origins site =
    (text "https://" ++ (site ++ text ".web.app"))
    ∷ (text "https://" ++ (site ++ text ".firebaseapp.com"))
    ∷ []

abbrev pub dev_origins : List Text
dev_origins = text "http://localhost:9205" ∷ text "http://127.0.0.1:9205" ∷ []

unfoldable pub web_origins : Text → Text → Text → List Text
web_origins project_id hosting_site extra =
    let site = trim_space hosting_site in
    let own =
      if not (is_empty site) && not (eq_text site project_id) then site_origins site else [] in
    site_origins project_id ++ (own ++ (dev_origins ++ extra_origins (split_commas extra)))

unfoldable pub site_url : (hosting_site project_id : Text) → Text
site_url hosting_site project_id =
    let site = trim_space hosting_site in
    text "https://" ++ ((if is_empty site then project_id else site) ++ text ".web.app")
