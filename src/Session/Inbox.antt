-- ===== src/Session/Inbox.antt =====
-- host-agent/internal/session/inbox.go: the requests that viewers leave, each handled once.
-- Times are nanoseconds of the host's clock since the epoch. The JSON of an event is what its bytes
-- decode to, as a map of entries and as one entry; the entries of a map come in any order.
pub mod Memory
pub mod Once
pub mod Listen
use freedesk.Prelude.{
  ℕ, ◌+◌, ◌*◌, zero, suc, min, Bool, true, false, not, ◌&&◌, ◌||◌, List, [], ◌∷◌, ◌++◌, Option,
  none, some, Text, ℤ, pos, negsuc, if◌then◌else◌, ltb, any, eq_text, is_empty, trim_left,
  trim_right, ◌==◌,
}

-- Five minutes.
abbrev pub stale_request_age : ℕ
stale_request_age = 300000000000

-- `created_at` is in milliseconds.
pub record Entry : Type 0 where
  pub viewer_uid : Text
  pub code : Text
  pub created_at : ℤ

pub record Request : Type 0 where
  pub id : Text
  pub viewer_uid : Text
  pub code : Text
  pub created_at : ℤ

-- An entry whose turn comes, with what the clock shows then.
pub record Turn : Type 0 where
  pub id : Text
  pub now : ℕ
  pub entry : Entry

abbrev pub Seen : Type 0
Seen = List (Text × ℕ)

-- What a dispatch does: the entry is removed from the database, the request is handled.
pub data Effect : Type 0 where
  removed : Text → Effect
  handled : Request → Effect

abbrev pub has_id : Text → Seen → Bool
has_id id seen = any (λ p. eq_text p.0 id) seen

unfoldable pub forget : ℕ → Seen → Seen
forget now [] = []
forget now ((id, at) ∷ seen) =
    let rest = forget now seen in if ltb (at + stale_request_age) now then rest else (id, at) ∷ rest

-- `now.Sub(time.UnixMilli(createdAt)) > staleRequestAge`
abbrev pub is_stale : ℕ → ℤ → Bool
is_stale now (pos ms) = ltb (ms * 1000000 + stale_request_age) now
is_stale now (negsuc ms) = ltb stale_request_age (now + suc ms * 1000000)

abbrev pub request_of : Turn → Request
request_of t = record {
  id = t.id;
  viewer_uid = t.entry.viewer_uid;
  code = t.entry.code;
  created_at = t.entry.created_at;
}

abbrev pub is_dropped : Turn → Bool
is_dropped t = is_empty t.entry.viewer_uid || is_stale t.now t.entry.created_at

unfoldable pub dispatch : Seen → Turn → Seen × List Effect
dispatch seen t =
    let kept = forget t.now seen in
    if has_id t.id kept then (kept, []) else (
      (t.id, t.now) ∷ kept,
      removed t.id ∷ (if is_dropped t then [] else handled (request_of t) ∷ []),
    )

unfoldable pub dispatch_all : Seen → List Turn → Seen × List Effect
dispatch_all seen [] = (seen, [])
dispatch_all seen (t ∷ ts) =
    let (kept, done) = dispatch seen t in
    let (last, more) = dispatch_all kept ts in (last, done ++ more)

-- One put or patch event: its path, whether its data is blank or `null`, and what the data decodes
-- to, with the clock at each entry's turn.
pub record Event : Type 0 where
  pub path : Text
  pub blank : Bool
  pub as_map : Option (List Turn)
  pub as_entry : Option (ℕ × Entry)

abbrev pub is_slash : ℕ → Bool
is_slash c = c == b'/'

-- `strings.Trim(ev.Path, "/")`
abbrev pub entry_id : Text → Text
entry_id path = trim_right is_slash (trim_left is_slash path)

abbrev pub all_turns : Option (List Turn) → List Turn
all_turns none = []
all_turns (some ts) = ts

abbrev pub one_turn : Text → Option (ℕ × Entry) → List Turn
one_turn id none = []
one_turn id (some (now, entry)) = record { id = id; now = now; entry = entry } ∷ []

-- The entries that handleData dispatches for an event.
unfoldable pub turns : Event → List Turn
turns ev =
    let id = entry_id ev.path in
    if ev.blank
    then []
    else if eq_text ev.path (b'/' ∷ [])
    then all_turns ev.as_map
    else if is_empty id || any is_slash id
    then []
    else one_turn id ev.as_entry

unfoldable pub handle_data : Seen → Event → Seen × List Effect
handle_data seen ev = dispatch_all seen (turns ev)

-- What is done over the events of a whole life, reconnects included.
unfoldable pub handle_events : Seen → List Event → Seen × List Effect
handle_events seen [] = (seen, [])
handle_events seen (ev ∷ evs) =
    let (kept, done) = handle_data seen ev in
    let (last, more) = handle_events kept evs in (last, done ++ more)
