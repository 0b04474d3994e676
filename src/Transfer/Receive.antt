-- ===== src/Transfer/Receive.antt =====
-- host-agent/internal/transfer/session.go: receiving a batch.
pub mod Invariant
pub mod Asking
pub mod Answer
use freedesk.Prelude.{
  ℕ, suc, ◌+◌, ◌-◌, Bool, true, false, not, ◌&&◌, ◌||◌, List, [], ◌∷◌, ◌++◌, Option, none, some,
  map, if◌then◌else◌, ltb, leb, ◌==◌, length, get_or, is_some, Text, is_empty, eq_text, ℤ, pos,
  ◌+ℤ◌, exceeds, magnitude,
}
use freedesk.Transfer.Message.{
  Msg, FileMeta, Reason, frame, fail, refuse, accept, done, progress, busy, denied, too_large,
  bad_name, no_space, io, total_size, max_session_files, max_session_bytes,
}
use freedesk.Transfer.Name.{safe_name}
use freedesk.Transfer.Paths.{FilePath, Disk, look, put}
use freedesk.Transfer.Space.{room}
use freedesk.Transfer.Dest.{
  Faults, CreateError, Created, created, refused, create, part, IoError, disk_full, other, finish,
  abandon,
}
use freedesk.Transfer.Dest
use freedesk.Transfer.State.{Receiving, Question, Session, send}

-- What the operating system answers during one operation. `now` is in milliseconds.
pub record Env : Type 0 where
  pub faults : Faults
  pub write : Option IoError
  pub sync : Option IoError
  pub close_file : Option IoError
  pub move : Option IoError
  pub now : ℕ
  pub exists : FilePath → Bool
  pub free : FilePath → Option ℕ

unfoldable pub write_reason : IoError → Reason
write_reason disk_full = no_space
write_reason other = io

-- `s.closed || s.pending || s.rx != nil`
unfoldable pub is_busy : Session → Bool
is_busy s = s.closed || s.pending || is_some s.rx

-- SafeName over the batch; `none` where one name is unusable.
abbrev pub add_name : Option Text → Option (List Text) → Option (List Text)
add_name none rest = none
add_name (some n) none = none
add_name (some n) (some ns) = some (n ∷ ns)

unfoldable pub safe_names : List FileMeta → Option (List Text)
safe_names [] = some []
safe_names (f ∷ fs) = add_name (safe_name f.name) (safe_names fs)

unfoldable pub within_session_limits : Session → ℕ → ℤ → Bool
within_session_limits s count size =
    leb (s.files + count) max_session_files && not (exceeds (pos s.bytes +ℤ size) max_session_bytes)

-- The end of `offered`: its answer is sent and the claim on the operator is given up.
abbrev pub conclude : Msg → Session → Session
conclude m s = record (send m s) { pending = false; asking = none }

abbrev pub ask_named : Env → Msg → Session → Option (List Text) → Session
ask_named env m s none = conclude (refuse m.id bad_name) s
ask_named env m s (some names) =
    if not (within_session_limits s (length m.files) (total_size m.files))
    then conclude (refuse m.id too_large) s
    else if not (room env.exists env.free s.root (total_size m.files))
    then conclude (refuse m.id no_space) s
    else record s { asking = some (record { msg = m; names = names }) }

-- `offered` up to the question for the operator.
unfoldable pub offered : Env → Session → Msg → Session
offered env s m =
    if is_busy s
    then send (refuse m.id busy) s
    else ask_named env m (record s { pending = true }) (safe_names m.files)

unfoldable pub create_reason : CreateError → Reason
create_reason Dest.CreateError.bad_name = bad_name
create_reason _ = io

-- What openLocked does with the answer of Create: the frame to send is left in `failed` by the
-- caller that needs it there.
abbrev pub opened : Session → Receiving → Disk × Created → Session × Option Msg
opened s r (disk, created path) = (
  record s { disk = disk; rx = some (record r { is_open = true; path = path; written = 0 }) },
  none,
)
opened s r (disk, refused e) =
    (record s { disk = disk; rx = none }, some (fail r.id (create_reason e)))

-- openLocked, for the batch `r`.
unfoldable pub open_locked : Env → Session → Receiving → Session × Option Msg
open_locked env s r = opened s r (create env.faults s.disk s.root (get_or r.names r.index []))

abbrev pub file_sizes : List FileMeta → List ℕ
file_sizes fs = map (λ f. magnitude f.size) fs

abbrev pub new_batch : Question → Receiving
new_batch q = record {
  id = q.msg.id;
  names = q.names;
  sizes = file_sizes q.msg.files;
  clip = q.msg.clip;
  saved = [];
  index = 0;
  is_open = false;
  path = [];
  written = 0;
  reported = none;
}

-- beginBatch
abbrev pub begun : Session × Option Msg → Session × Bool
begun (s, none) = (s, true)
begun (s, some m) = (record s { failed = some m }, false)

unfoldable pub begin_batch : Env → Session → Question → Session × Bool
begin_batch env s q =
    if s.closed || is_some s.rx then (s, false) else begun (open_locked env s (new_batch q))

-- takeFailure, and the frame is sent.
abbrev pub send_failure : Msg → Session → Option Msg → Session
send_failure fallback s none = conclude fallback s
send_failure fallback s (some m) = conclude m (record s { failed = none })

abbrev pub answer_begun : Question → Session × Bool → Session
answer_begun q (s, true) = conclude (frame accept q.msg.id) s
answer_begun q (s, false) = send_failure (refuse q.msg.id busy) s s.failed

abbrev pub answer_question : Env → Session → Bool → Option Question → Session
answer_question env s ok none = s
answer_question env s false (some q) = conclude (refuse q.msg.id denied) s
answer_question env s true (some q) = answer_begun q (begin_batch env s q)

-- `offered` from the operator's answer on.
unfoldable pub answered : Env → Session → Bool → Session
answered env s ok = answer_question env s ok s.asking

-- abortLocked
unfoldable pub abort_locked : Session → Option Receiving → Session
abort_locked s none = s
abort_locked s (some r) = record s { disk = abandon s.stuck s.disk r.path; rx = none }

abbrev pub matches : Text → Text → Bool
matches id own = is_empty id || eq_text own id

abbrev pub abort_rx : Text → Session → Option Receiving → Session
abort_rx id s none = s
abort_rx id s (some r) = if matches id r.id then abort_locked s (some r) else s

unfoldable pub abort : Session → Text → Session
abort s id = abort_rx id s s.rx
