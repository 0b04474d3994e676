-- ===== src/Transfer/State.antt =====
-- host-agent/internal/transfer/session.go: the state of one session's file channel.
-- The disk is part of the state. A goroutine that waits for the operator is a field: `asking` for
-- `offered` at its question, `picking` for `requested` at the file picker.
use freedesk.Prelude.{ℕ, Bool, true, false, List, [], ◌∷◌, Option, none, if◌then◌else◌, Text}
use freedesk.Transfer.Message.{Msg}
use freedesk.Transfer.Paths.{FilePath, Disk}

-- `is_open` is that `file` is not nil. `reported` is in milliseconds, `none` for the zero time.
pub record Receiving : Type 0 where
  pub id : Text
  pub names : List Text
  pub sizes : List ℕ
  pub clip : Bool
  pub saved : List FilePath
  pub index : ℕ
  pub is_open : Bool
  pub path : FilePath
  pub written : ℕ
  pub reported : Option ℕ

-- `cancel` names the channel that is closed to stop the batch.
pub record Sending : Type 0 where
  pub id : Text
  pub paths : List FilePath
  pub names : List Text
  pub sizes : List ℕ
  pub cancel : ℕ

-- What `offered` holds while the operator decides.
pub record Question : Type 0 where
  pub msg : Msg
  pub names : List Text

-- `stuck` are the files that the system does not let go, as long as the session lasts. `has_channel` is that Attach has been called. `sent` are the control frames handed to the
-- channel and `pasted` the calls of onPasted, the newest first; `stopped` are the cancel channels
-- that were closed.
pub record Session : Type 0 where
  pub root : FilePath
  pub disk : Disk
  pub stuck : FilePath → Bool
  pub has_channel : Bool
  pub rx : Option Receiving
  pub tx : Option Sending
  pub pending : Bool
  pub failed : Option Msg
  pub files : ℕ
  pub bytes : ℕ
  pub closed : Bool
  pub asking : Option Question
  pub picking : List Text
  pub next_cancel : ℕ
  pub stopped : List ℕ
  pub sent : List Msg
  pub pasted : List (List FilePath)

-- NewSession, for a destination folder and the files that are stuck; nothing on the disk changes.
unfoldable pub new_session : FilePath → Disk → (FilePath → Bool) → Session
new_session root disk stuck = record {
  root = root;
  disk = disk;
  stuck = stuck;
  has_channel = false;
  rx = none;
  tx = none;
  pending = false;
  failed = none;
  files = 0;
  bytes = 0;
  closed = false;
  asking = none;
  picking = [];
  next_cancel = 0;
  stopped = [];
  sent = [];
  pasted = [];
}

unfoldable pub attach : Session → Session
attach s = record s { has_channel = true }

unfoldable pub send : Msg → Session → Session
send m s = if s.has_channel then record s { sent = m ∷ s.sent } else s
