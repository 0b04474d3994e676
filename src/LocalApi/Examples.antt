-- ===== src/LocalApi/Examples.antt =====
-- The theorem about the local API, at concrete requests.
use freedesk.Prelude.{Text, ◌≡◌, true, false, List, [], ◌∷◌, ◌++◌, ◌↔◌, text}
use freedesk.Config.Origins.{web_origins}
use freedesk.LocalApi.{Identity, forbidden, found, handle, Event, request, update, serve}
use freedesk.LocalApi.Served.{is_trusted, latest, serve_trusted}

abbrev first_code : Identity
first_code = record { code = text "123456789"; name = text "desk"; version = text "v1.2.0" }

abbrev second_code : Identity
second_code = record first_code { code = text "987654321" }

-- A page of the site, another page, and a new code.
abbrev events : List Event
events =
    request (text "https://desk.web.app") (text "GET")
    ∷ request (text "https://evil.example") (text "GET")
    ∷ update second_code
    ∷ []

abbrev dev : Text
dev = text "http://127.0.0.1:4000"

serve_trusted_example :
    let allowed = web_origins (text "desk") [] (text "http://127.0.0.1:4000/") in
    let reply = handle allowed (latest first_code events) dev (text "GET") in
    (serve allowed first_code (events ++ (request dev (text "GET") ∷ []))
      ≡ serve allowed first_code events ++ (reply ∷ []))
    × (((reply ≡ forbidden)
          ↔ (is_trusted (text "desk") [] (text "http://127.0.0.1:4000/") dev ≡ false))
        × ((reply ≡ found dev (latest first_code events)) ↔ (
            (is_trusted (text "desk") [] (text "http://127.0.0.1:4000/") dev ≡ true)
            × (text "GET" ≡ text "GET"))))
serve_trusted_example =
    serve_trusted (text "desk") [] (text "http://127.0.0.1:4000/") first_code events dev
      (text "GET")
