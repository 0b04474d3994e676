-- ===== src/Session/Examples.antt =====
-- The theorems about sessions, at concrete inputs.
use freedesk.Prelude.{true, List, All, ◌≡◌, refl, false, [], ◌∷◌, none, some, arith, text, pos}
use freedesk.Session.Inbox.{
  Turn, Event, Entry, dispatch, dispatch_all, forget, turns, handle_data, handle_events, request_of,
}
use freedesk.Session.Inbox.Once.{requests, first_only, all_turns_of, NoRepeats, dispatch_all_again}
use freedesk.Session.Inbox.Listen.{
  Attempt, failed, opened, changed, auth_revoked, consumed, listen, read_events,
  reconnect_min_delay, IsDelay, listen_once,
}

abbrev entry : Entry
entry = record { viewer_uid = text "v"; code = text "123"; created_at = pos 1000 }

abbrev turn : Turn
turn = record { id = text "s1"; now = 1001000000; entry = entry }

abbrev later_turn : Turn
later_turn = record turn { now = 302000000000 }

-- One new request, and the replay of a reconnect.
abbrev new_request : Event
new_request = record {
  path = text "/s1";
  blank = false;
  as_map = none;
  as_entry = some (1001000000, entry);
}

abbrev replay : Event
replay = record { path = text "/"; blank = false; as_map = some (later_turn ∷ []); as_entry = none }

handled_once : requests (handle_events [] (new_request ∷ replay ∷ [])).1 ≡ request_of turn ∷ []
unfolding handle_events handle_data dispatch_all dispatch forget turns requests
handled_once = refl

-- A stream whose token expires, a failure, and the stream after it.
abbrev reconnect : List Attempt
reconnect =
    opened (changed new_request ∷ auth_revoked ∷ changed replay ∷ []) false true
    ∷ failed false true
    ∷ opened (changed replay ∷ []) true false
    ∷ []

listen_once_example :
    let l = listen reconnect_min_delay [] reconnect in
    (requests l.effects ≡ first_only [] (all_turns_of (read_events reconnect)))
    × NoRepeats (requests l.effects)
    × All IsDelay l.waits
unfolding all_turns_of turns read_events consumed
listen_once_example =
    listen_once reconnect (omega arith, tt, (omega arith, ((λ e. omega arith), tt), tt))

-- The server's clock is ten minutes ahead.
abbrev ahead : Entry
ahead = record entry { created_at = pos 600000 }

abbrev early : Turn
early = record turn { entry = ahead }

abbrev again : Turn
again = record later_turn { entry = ahead }

dispatch_all_again_example :
    requests (dispatch_all [] (early ∷ again ∷ [])).1 ≡ request_of early ∷ request_of again ∷ []
dispatch_all_again_example = dispatch_all_again early again refl refl refl (omega arith)
