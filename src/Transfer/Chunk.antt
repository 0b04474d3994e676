-- ===== src/Transfer/Chunk.antt =====
-- host-agent/internal/transfer/session.go: writing the payload of a batch, and the end of a session.
pub mod Invariant
pub mod Saved
use freedesk.Prelude.{
  ℕ, suc, ◌+◌, ◌-◌, Bool, true, false, not, ◌&&◌, ◌||◌, List, [], ◌∷◌, ◌++◌, Option, none, some,
  if◌then◌else◌, ltb, leb, ◌==◌, length, get_or, is_empty, pos,
}
use freedesk.Transfer.Message.{Msg, Reason, frame, fail, done, progress, too_large}
use freedesk.Transfer.Paths.{FilePath, Disk, look, put}
use freedesk.Transfer.Dest.{part, IoError, finish}
use freedesk.Transfer.State.{Receiving, Sending, Session, send}
use freedesk.Transfer.Receive.{Env, write_reason, open_locked, abort_locked}

abbrev pub progress_every : ℕ
progress_every = 250

abbrev pub size_of : Receiving → ℕ
size_of r = get_or r.sizes r.index 0

abbrev pub bytes_at : Option (List ℕ) → List ℕ
bytes_at none = []
bytes_at (some bytes) = bytes

-- What the file holds after one more write.
abbrev pub append_file : Disk → FilePath → List ℕ → Disk
append_file disk p bytes = put p (bytes_at (look p disk) ++ bytes) disk

abbrev pub send_opt : Option Msg → Session → Session
send_opt none s = s
send_opt (some m) s = send m s

abbrev pub call_pasted : List FilePath → Session → Session
call_pasted [] s = s
call_pasted (p ∷ ps) s = record s { pasted = (p ∷ ps) ∷ s.pasted }

abbrev pub index_frame : Msg → ℕ → Msg
index_frame m i = record m { index = pos i }

-- The frames of finishFile, sent after the lock is given up.
abbrev pub report_saved : Receiving → List FilePath → Session × Option Msg → Session
report_saved r batch (s, failure) =
    call_pasted batch (send_opt failure (send (index_frame (frame done r.id) r.index) s))

-- The file is complete: the next one of the batch, or the end of it.
abbrev pub next_file : Env → Session → Receiving → Session
next_file env s r =
    let saved = r.saved ++ (r.path ∷ []) in
    let counted = record s { files = s.files + 1; bytes = s.bytes + r.written } in
    let after =
      open_locked env counted (record r { is_open = false; saved = saved; index = suc r.index }) in
    if leb (length r.names) (suc r.index)
    then report_saved r (if r.clip then saved else []) (record counted { rx = none }, none)
    else report_saved r [] after

abbrev pub renamed : Env → Session → Receiving → Disk × Option IoError → Session
renamed env s r (disk, some e) =
    send (fail r.id (write_reason e)) (abort_locked (record s { disk = disk }) (some r))
renamed env s r (disk, none) = next_file env (record s { disk = disk }) r

abbrev pub finish_rx : Env → Session → Option Receiving → Session
finish_rx env s none = s
finish_rx env s (some r) =
    if not r.is_open
    then s
    else renamed env s r (finish env.sync env.close_file env.move s.disk r.path)

-- finishFile
unfoldable pub finish_file : Env → Session → Session
finish_file env s = finish_rx env s s.rx

-- `time.Since(rx.reported) >= progressEvery`; the zero time is long ago.
abbrev pub is_due : ℕ → Option ℕ → Bool
is_due now none = true
is_due now (some t) = leb progress_every (now - t)

abbrev pub progress_frame : Receiving → Msg
progress_frame r = record (frame progress r.id) { index = pos r.index; sent = pos r.written }

-- After the write: the count, the progress frame, and the end of the file.
abbrev pub written_chunk : Env → Session → Receiving → List ℕ → Session
written_chunk env s r chunk =
    let disk = append_file s.disk (part r.path) chunk in
    let r' = record r { written = r.written + length chunk } in
    let due = is_due env.now r.reported in
    let r'' = record r' { reported = if due then some env.now else r.reported } in
    let s' = record s { disk = disk; rx = some r'' } in
    let told = if due then send (progress_frame r') s' else s' in
    if r'.written == size_of r then finish_file env told else told

abbrev pub write_chunk : Env → Session → Receiving → List ℕ → Option IoError → Session
write_chunk env s r chunk (some e) = send (fail r.id (write_reason e)) (abort_locked s (some r))
write_chunk env s r chunk none = written_chunk env s r chunk

abbrev pub chunk_rx : Env → Session → List ℕ → Option Receiving → Session
chunk_rx env s chunk none = s
chunk_rx env s chunk (some r) =
    if not r.is_open
    then s
    else if ltb (size_of r) (r.written + length chunk)
    then send (fail r.id too_large) (abort_locked s (some r))
    else write_chunk env s r chunk env.write

-- handleChunk
unfoldable pub handle_chunk : Env → Session → List ℕ → Session
handle_chunk env s chunk = chunk_rx env s chunk s.rx

-- abortSendLocked: the channel is closed, and the slot is free.
abbrev pub abort_tx : Session → Option Sending → Session
abort_tx s none = s
abort_tx s (some t) = record s { tx = none; stopped = t.cancel ∷ s.stopped }

unfoldable pub abort_send_locked : Session → Session
abort_send_locked s = abort_tx s s.tx

-- Close
unfoldable pub close : Session → Session
unfolding abort_locked abort_send_locked
close s =
    if s.closed
    then s
    else let shut = record s { closed = true } in abort_send_locked (abort_locked shut shut.rx)
