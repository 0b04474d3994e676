-- ===== src/Auth.antt =====
-- host-agent/internal/auth/auth.go and errors.go: the ID token that every request carries, and why
-- Google rejects a sign-in. Times are nanoseconds, and durations not negative; what the servers answer comes with a call, with the
-- JSON read: a field that is absent is empty.
pub mod Fresh
mod Examples
use freedesk.Prelude.{
  ℕ, ◌+◌, ◌*◌, Bool, true, false, not, ◌&&◌, ◌||◌, List, [], ◌∷◌, ◌++◌, Option, none, some, Text,
  text, any, all, eq_text, is_empty, trim_space, if◌then◌else◌, ltb, leb, ◌==◌,
}

pub record Token : Type 0 where
  pub id_token : Text
  pub refresh_token : Text
  pub uid : Text
  pub expires_at : ℕ

-- What a server answers, and when that was. `expires_in`: the duration, where it can be parsed.
pub record Response : Type 0 where
  pub id_token : Text
  pub refresh_token : Text
  pub expires_in : Option ℕ
  pub uid : Text
  pub at : ℕ

abbrev pub minute : ℕ
minute = 60000000000

-- An hour less ten minutes where the duration cannot be parsed.
abbrev pub expiry_from_seconds : ℕ → Option ℕ → ℕ
expiry_from_seconds now (some d) = now + d
expiry_from_seconds now none = now + 50 * minute

-- SignUpAnonymous and Refresh, but for the request.
unfoldable pub token_of : Response → Token
token_of r = record {
  id_token = r.id_token;
  refresh_token = r.refresh_token;
  uid = r.uid;
  expires_at = expiry_from_seconds r.at r.expires_in;
}

-- The answer to Refresh for the token's refresh token, absent where the request fails.
abbrev pub refreshed : Token → Option Response → Token × Option Text
refreshed t none = (t, none)
refreshed t (some r) =
    let new = token_of r in
    let kept : Token = record new { uid = if is_empty new.uid then t.uid else new.uid } in
    (kept, some kept.id_token)

-- Manager.IDToken. `answer` is what Refresh would get; it is asked only near the expiry.
unfoldable pub id_token : Token → (now : ℕ) → (answer : Option Response) → Token × Option Text
unfolding token_of
id_token t now answer =
    if ltb t.expires_at (now + minute) then refreshed t answer else (t, some t.id_token)

-- Calls of the program's life, each with its time and what Refresh would get.
unfoldable pub id_tokens : Token → List (ℕ × Option Response) → Token × List (Option Text)
unfolding id_token
id_tokens t [] = (t, [])
id_tokens t ((now, answer) ∷ calls) =
    let (t', given) = id_token t now answer in
    let (last, more) = id_tokens t' calls in (last, given ∷ more)

-- The error envelope: its message, and the reasons of its details.
pub record GoogleError : Type 0 where
  pub message : Text
  pub reasons : List Text

-- Up to the first space.
unfoldable pub first_word : Text → Text
first_word [] = []
first_word (c ∷ s) = let rest = first_word s in if c == b' ' then [] else c ∷ rest

-- strings.TrimSuffix with ":"
unfoldable pub trim_colon : Text → Text
trim_colon [] = []
trim_colon (c ∷ []) = if c == b':' then [] else c ∷ []
trim_colon (c ∷ d ∷ s) = c ∷ trim_colon (d ∷ s)

abbrev pub is_code_rune : ℕ → Bool
is_code_rune c = c == b'_' || (leb b'A' c && leb c b'Z') || (leb b'0' c && leb c b'9')

unfoldable pub reason_from_message : Text → Text
reason_from_message msg =
    let code = trim_colon (first_word (trim_space msg)) in
    if not (any (λ c. c == b'_') code) then [] else if all is_code_rune code then code else []

abbrev pub first_reason : List Text → Text
first_reason [] = []
first_reason (r ∷ rs) = if is_empty r then first_reason rs else r

-- newError: the reason and the message. Where there is no envelope, `page` is the start of the page.
unfoldable pub new_error : (page : Text) → Option GoogleError → Text × Text
new_error page none = ([], page)
new_error page (some g) =
    if is_empty g.message
    then ([], page)
    else let given = first_reason g.reasons in
      (if is_empty given then reason_from_message g.message else given, g.message)
