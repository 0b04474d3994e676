-- ===== src/Auth/Examples.antt =====
-- The theorem about the ID tokens, at concrete calls.
use freedesk.Prelude.{refl, inl, ℕ, ◌*◌, ◌≡◌, List, [], ◌∷◌, Option, none, some, text}
use freedesk.Auth.{Response, minute, token_of, id_tokens}
use freedesk.Auth.Fresh.{Handed, id_tokens-Fresh}

abbrev signed_up : Response
signed_up = record {
  id_token = text "first";
  refresh_token = text "again";
  expires_in = some (60 * minute);
  uid = text "host";
  at = 0;
}

abbrev second : Response
second = record signed_up { id_token = text "second"; uid = []; at = 60 * minute }

-- In time, near the expiry with no answer, and with one.
abbrev calls : List (ℕ × Option Response)
calls = (minute, none) ∷ (60 * minute, none) ∷ (60 * minute, some second) ∷ []

id_tokens-Fresh_example :
    let (t, given) = id_tokens (token_of signed_up) calls in
    Handed (signed_up ∷ []) calls given × (t.uid ≡ signed_up.uid)
id_tokens-Fresh_example = id_tokens-Fresh signed_up calls (inl refl, tt)
