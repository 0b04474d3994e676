-- ===== src/Transfer/Stream.antt =====
-- host-agent/internal/transfer/send.go: streaming one file, paced against the send queue.
-- What the channel, the timers and the file answer is a list of passes and of rounds: the loops run
-- over them, and a list that ends too soon is `none`.
pub mod Pacing
use freedesk.Prelude.{
  ℕ, zero, suc, ◌+◌, Bool, true, false, not, List, [], ◌∷◌, ◌++◌, Option, none, some, ltb, ◌==◌,
  if◌then◌else◌, length,
}

abbrev pub high_water : ℕ
high_water = 1048576

abbrev pub low_water : ℕ
low_water = 262144

pub data StreamError : Type 0 where
  cancelled stalled gone send_failed read_failed file_changed : StreamError

-- Which case of the select fires.
pub data Wake : Type 0 where
  low cancel ctx_done timeout : Wake

-- One pass of waitForDrain: BufferedAmount, `none` where there is no channel, and what ends the
-- wait, if there is one.
pub record Pass : Type 0 where
  pub buffered : Option ℕ
  pub wake : Wake

abbrev pub after_wake : Wake → Option (Option StreamError) → Option (Option StreamError)
after_wake low rest = rest
after_wake cancel rest = some (some cancelled)
after_wake ctx_done rest = some (some cancelled)
after_wake timeout rest = some (some stalled)

abbrev pub after_pass : Option ℕ → Wake → Option (Option StreamError) → Option (Option StreamError)
after_pass none wake rest = some (some gone)
after_pass (some n) wake rest = if ltb n high_water then some none else after_wake wake rest

-- `some none` is that the queue has room.
unfoldable pub wait_for_drain : List Pass → Option (Option StreamError)
wait_for_drain [] = none
wait_for_drain (p ∷ ps) = after_pass p.buffered p.wake (wait_for_drain ps)

-- How a Read ends: with no error, io.EOF or another error.
pub data ReadEnd : Type 0 where
  more eof broken : ReadEnd

-- One round of the loop: the passes of its wait, the bytes read, whether the channel is still
-- there, and whether it takes them.
pub record Round : Type 0 where
  pub passes : List Pass
  pub read : List ℕ
  pub end : ReadEnd
  pub has_channel : Bool
  pub accepted : Bool

-- What was sent, newest frame last, and how the stream ended; `none` is success.
abbrev pub Sent : Type 0
Sent = List (List ℕ) × Option StreamError

abbrev pub add_frame : List ℕ → Sent → Sent
add_frame bytes (frames, e) = (bytes ∷ frames, e)

-- The check after the loop.
abbrev pub check_size : ℕ → ℕ → Sent
check_size sent size = ([], if sent == size then none else some file_changed)

-- After the frame, if any, was handed over. `rest` is the rest of the loop.
abbrev pub after_read : ReadEnd → ℕ → ℕ → Option Sent → Option Sent
after_read more sent size rest = rest
after_read eof sent size rest = some (check_size sent size)
after_read broken sent size rest = some ([], some read_failed)

abbrev pub add_frame? : List ℕ → Option Sent → Option Sent
add_frame? bytes none = none
add_frame? bytes (some s) = some (add_frame bytes s)

abbrev pub hand_over : Round → List ℕ → ℕ → ℕ → Option Sent → Option Sent
hand_over r [] sent size rest = after_read r.end sent size rest
hand_over r (b ∷ bs) sent size rest =
    if not r.has_channel
    then some ([], some gone)
    else if not r.accepted
    then some ([], some send_failed)
    else add_frame? (b ∷ bs) (after_read r.end (sent + length (b ∷ bs)) size rest)

abbrev pub drained : Option (Option StreamError) → Round → ℕ → ℕ → Option Sent → Option Sent
drained none r sent size rest = none
drained (some (some e)) r sent size rest = some ([], some e)
drained (some none) r sent size rest = hand_over r r.read sent size rest

-- The loop of streamFile, from `sent` bytes on.
unfoldable pub stream_from : ℕ → ℕ → List Round → Option Sent
stream_from size sent [] = if ltb sent size then none else some (check_size sent size)
stream_from size sent (r ∷ rs) =
    let rest = stream_from size (sent + length r.read) rs in
    if ltb sent size
    then drained (wait_for_drain r.passes) r sent size rest
    else some (check_size sent size)

-- streamFile; false is that the file could not be opened.
unfoldable pub stream_file : Bool → ℕ → List Round → Option Sent
unfolding stream_from
stream_file false size rounds = some ([], some read_failed)
stream_file true size rounds = stream_from size 0 rounds
