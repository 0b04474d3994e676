-- ===== src/Transfer/Steps.antt =====
-- host-agent/internal/transfer/session.go: what can happen to a session's file channel, one event
-- at a time. Each event is a stretch of the code that runs under the session's lock or that no
-- other goroutine can tell apart from one that does.
pub mod Invariant
pub mod Same
pub mod Consent
pub mod Withdrawn
use freedesk.Prelude.{ℕ, Bool, true, false, List, [], ◌∷◌, Option, none, some, Text, ℤ}
use freedesk.Transfer.Message.{
  Msg, Kind, offer, request, accept, cancel, error, Dir, up, Parsed, parsed, parse_msg, validate,
}
use freedesk.Transfer.Paths.{FilePath, Disk}
use freedesk.Transfer.State.{Session, new_session, attach}
use freedesk.Transfer.Receive.{Env, offered, answered, abort}
use freedesk.Transfer.Chunk.{handle_chunk, close}
use freedesk.Transfer.Outbound.{requested, picked, offer_files, cancel_send}

-- `control` is a text frame as json.Unmarshal reads it. `answer` is the operator's, `picks` the end
-- of the picker that was opened for an id, and `copies` is OfferFiles.
pub data Event : Type 0 where
  control : Option Msg → Event
  chunk : List ℕ → Event
  answer : Bool → Event
  picks : Text → List FilePath → Event
  copies : Text → List FilePath → Event
  attaches closes : Event

-- The rest of what the operating system answers: the picker, and os.Stat.
pub record World : Type 0 where
  pub env : Env
  pub has_picker : Bool
  pub stat : FilePath → Option ℕ

abbrev pub offered_up : Env → Session → Msg → Dir → Session
offered_up env s m up = offered env s m
offered_up env s m _ = s

-- The switch of handleControl. An accept starts a stream and changes no state.
abbrev pub on_control : World → Session → Msg → Kind → Session
on_control w s m offer = offered_up w.env s m m.dir
on_control w s m request = requested w.has_picker s m.id
on_control w s m cancel = cancel_send (abort s m.id) m.id
on_control w s m error = cancel_send (abort s m.id) m.id
on_control w s m _ = s

abbrev pub on_parsed : World → Session → Parsed → Session
on_parsed w s (parsed m) = on_control w s m m.t
on_parsed w s _ = s

-- handleControl
unfoldable pub handle_control : World → Session → Option Msg → Session
handle_control w s frame = on_parsed w s (parse_msg frame)

unfoldable pub step : World → Session → Event → Session
unfolding handle_control
step w s (control frame) = handle_control w s frame
step w s (chunk bytes) = handle_chunk w.env s bytes
step w s (answer ok) = answered w.env s ok
step w s (picks id paths) = picked w.stat s id paths
step w s (copies id paths) = offer_files w.stat s id paths
step w s attaches = attach s
step w s closes = close s

unfoldable pub run : Session → List (World × Event) → Session
run s [] = s
run s ((w, e) ∷ es) = run (step w s e) es
