-- ===== src/LocalApi.antt =====
-- host-agent/internal/localapi/server.go: the handler of /identity, and what it serves. A request is its
-- Origin header, empty where it has none, and its method.
pub mod Served
mod Examples
use freedesk.Prelude.{Bool, not, List, [], ◌∷◌, Text, text, any, eq_text, if◌then◌else◌}

pub record Identity : Type 0 where
  pub code : Text
  pub name : Text
  pub version : Text

-- The status and what is sent with it.
pub data Reply : Type 0 where
  forbidden : Reply
  no_content : (origin : Text) → Reply
  method_not_allowed : (origin : Text) → Reply
  found : (origin : Text) → Identity → Reply

unfoldable pub is_allowed : List Text → Text → Bool
is_allowed allowed_origins origin = any (λ o. eq_text o origin) allowed_origins

unfoldable pub handle : List Text → Identity → (origin method : Text) → Reply
unfolding is_allowed
handle allowed_origins id origin method =
    if not (is_allowed allowed_origins origin)
    then forbidden
    else if eq_text method (text "OPTIONS")
    then no_content origin
    else if not (eq_text method (text "GET"))
    then method_not_allowed origin
    else found origin id

pub data Event : Type 0 where
  request : (origin method : Text) → Event
  update : Identity → Event

-- The replies to the requests, in their order, from the identity stored by Start on.
unfoldable pub serve : List Text → Identity → List Event → List Reply
serve allowed_origins id [] = []
serve allowed_origins id (request origin method ∷ es) =
    handle allowed_origins id origin method ∷ serve allowed_origins id es
serve allowed_origins id (update new ∷ es) = serve allowed_origins new es
