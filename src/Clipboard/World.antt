-- ===== src/Clipboard/World.antt =====
-- clipboard/sync.go: a session's clipboard over all that happens to it. The jobs and the polls run on the
-- worker's thread, one after the other.
use freedesk.Prelude.{
  ℕ, ◌≡◌, Bool, false, List, [], ◌∷◌, ◌++◌, Option, none, some, if◌then◌else◌, Text, arith,
}
use freedesk.Transfer.Paths.{FilePath}
use freedesk.Clipboard.{
  Content, Board, Sync, Msg, Effect, readable, poll, Written, handle, put_files, stop, new_sync,
}

-- What other programs put on the clipboard while the worker polls: before Excluded, before ReadFiles
-- and before ReadText, which read it one after the other.
pub record Midway : Type 0 where
  pub before_check : Option (ℕ × Content)
  pub before_files : Option (ℕ × Content)
  pub before_text : Option (ℕ × Content)

abbrev pub undisturbed : Midway
undisturbed = record { before_check = none; before_files = none; before_text = none }

-- What happens to a session's clipboard: another program changes it, the viewer sends a text, the
-- files of a transfer are put on it, the worker polls, the session ends.
pub data Event : Type 0 where
  copies : ℕ → Content → Event
  receives : Option Msg → Written → Event
  puts_files : List FilePath → Written → Event
  polls : Midway → (files_read text_read : Bool) → Event
  stops : Event

pub record World : Type 0 where
  pub sync : Sync
  pub board : Board
  pub done : List Effect

abbrev pub after_poll : World → Sync × List Effect → World
after_poll w (s, es) = record w { sync = s; done = w.done ++ es }

abbrev pub replaced : Option (ℕ × Content) → Content → Content
replaced none c = c
replaced (some (n, d)) c = d

abbrev pub changed : Option (ℕ × Content) → Board → Board
changed none b = b
changed (some (n, c)) b = record { sequence = n; content = c }

abbrev pub change : Option (ℕ × Content) → World → World
change o w = record w { board = changed o w.board }

abbrev pub change_all : Midway → World → World
change_all m w = change m.before_text (change m.before_files (change m.before_check w))

-- What the three reads of a poll see.
abbrev pub seen : Midway → Content → Content
seen m c =
    let checked = replaced m.before_check c in
    let listed = replaced m.before_files checked in
    let read = replaced m.before_text listed in
    record { excluded = checked.excluded; files = listed.files; text = read.text }

abbrev pub polled : Bool → World → Midway → (files_read text_read : Bool) → World
polled shares w m f t =
    let after =
      after_poll w (poll shares w.sync w.board.sequence (readable f t (seen m w.board.content))) in
    if w.sync.stopped then w else after

unfoldable pub step : Bool → World → Event → World
step shares w (copies seq c) = record w { board = record { sequence = seq; content = c } }
step shares w (receives m r) =
    let (s, b) = handle w.sync w.board m r in record w { sync = s; board = b }
step shares w (puts_files paths r) =
    let (s, b) = put_files w.sync w.board paths r in record w { sync = s; board = b }
step shares w (polls m f t) = change_all m (polled shares w m f t)
step shares w stops = record w { sync = stop w.sync }

unfoldable pub run : Bool → World → List Event → World
run shares w [] = w
run shares w (e ∷ es) = run shares (step shares w e) es

-- A session begins: what is on the clipboard has been dealt with.
abbrev pub begun : Sync → Board → World
begun s b = record { sync = s; board = b; done = [] }

pub new_sync-begun :
    (mode : Text) (opens : Bool) (b : Board) (s : Sync)
    → new_sync mode opens b ≡ some s
    → record { own_seq = 0; last_seq = b.sequence; last_applied = []; stopped = false } ≡ s
unfolding new_sync
new_sync-begun mode opens b s e = ground (arith, e)
