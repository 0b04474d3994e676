-- ===== src/Transfer/Examples.antt =====
-- The theorems about the file channel, at concrete inputs.
use freedesk.Prelude.{
  if◌then◌else◌, ◌≤◌, ◌≡◌, refl, true, false, [], ◌∷◌, ◌++◌, none, some, arith, text, pos,
}
use freedesk.Transfer.Message.{Msg, Reason, offer, cancel, up, max_session_files, max_session_bytes}
use freedesk.Transfer.Paths.{FilePath, Disk, look, eq_path}
use freedesk.Transfer.Dest.{Faults, part}
use freedesk.Transfer.State.{Receiving, Session, new_session, Question, Sending}
use freedesk.Transfer.Receive.{Env}
use freedesk.Transfer.Receive.Invariant.{Within}
use freedesk.Transfer.Chunk.{handle_chunk}
use freedesk.Transfer.Chunk.Saved.{handle_chunk-over, handle_chunk-completes}
use freedesk.Transfer.Outbound.{Job, offer_paths, keep_files, accepted_job}
use freedesk.Transfer.Outbound.Offers.{MaySend, Announces, offer_paths-accepted}
use freedesk.Transfer.Steps.{control, chunk, answer, World, step, run}
use freedesk.Transfer.Steps.Invariant.{run-new_session_bounds}
use freedesk.Transfer.Steps.Consent.{step-needs_yes, run-closed}

abbrev folder : FilePath
folder = text "FreeDesk" ∷ text "Downloads" ∷ []

abbrev no_faults : Faults
no_faults = record { mkdir = λ p. false; lstat = λ p. false; open_file = λ p. false }

abbrev calm : Env
calm = record {
  faults = no_faults;
  write = none;
  sync = none;
  close_file = none;
  move = none;
  now = 0;
  exists = λ p. true;
  free = λ p. some 1000000000;
}

abbrev world : World
world = record { env = calm; has_picker = true; stat = λ p. some 5 }

abbrev note : FilePath
note = text "note.txt" ∷ folder

abbrev half_disk : Disk
half_disk = (part note, 1 ∷ 2 ∷ []) ∷ []

-- Two of three bytes of one file have arrived.
abbrev half : Receiving
half = record {
  id = text "b1";
  names = text "note.txt" ∷ [];
  sizes = 3 ∷ [];
  clip = false;
  saved = [];
  index = 0;
  is_open = true;
  path = note;
  written = 2;
  reported = none;
}

abbrev idle : Session
idle = record {
  root = folder;
  disk = half_disk;
  stuck = λ p. false;
  has_channel = true;
  rx = none;
  tx = none;
  pending = false;
  failed = none;
  files = 0;
  bytes = 0;
  closed = false;
  asking = none;
  picking = [];
  next_cancel = 1;
  stopped = [];
  sent = [];
  pasted = [];
}

abbrev halfway : Session
halfway = record idle { rx = some half }

abbrev shut : Session
shut = record idle { closed = true }

abbrev sending : Sending
sending = record { id = text "d1"; paths = []; names = []; sizes = []; cancel = 0 }

abbrev offering : Session
offering = record idle { tx = some sending }

abbrev one_file : Msg
one_file = record {
  t = offer;
  id = text "b1";
  files = record { name = text "note.txt"; size = pos 3 } ∷ [];
  index = pos 0;
  size = pos 0;
  sent = pos 0;
  offset = pos 0;
  dir = up;
  reason = Reason.unset;
  clip = false;
}

abbrev withdrawal : Msg
withdrawal = record one_file { t = cancel }

abbrev asked : Session
asked = record idle {
  disk = [];
  pending = true;
  asking = some (record { msg = one_file; names = text "note.txt" ∷ [] });
}

run-new_session_bounds_example :
    let s =
      run
        (new_session folder [] (λ p. false))
        ((world, control (some one_file)) ∷ (world, answer true) ∷ []) in
    (s.files ≤ max_session_files)
    × (s.bytes ≤ max_session_bytes)
    × ((r : Receiving) → s.rx ≡ some r → Within s.files s.bytes r)
run-new_session_bounds_example =
    run-new_session_bounds folder [] (λ p. false)
      ((world, control (some one_file)) ∷ (world, answer true) ∷ [])

step-needs_yes_example :
    ((step world idle (chunk (7 ∷ []))).disk ≡ idle.disk)
    × ((step world idle (chunk (7 ∷ []))).rx ≡ none)
step-needs_yes_example = step-needs_yes world idle (chunk (7 ∷ [])) refl (λ e. cc)

run-closed_example :
    let s = run shut ((world, answer true) ∷ (world, chunk (7 ∷ [])) ∷ []) in
    (s.disk ≡ shut.disk) × (s.rx ≡ none) × (s.tx ≡ none) × (s.closed ≡ true)
run-closed_example =
    run-closed shut ((world, answer true) ∷ (world, chunk (7 ∷ [])) ∷ []) (ground arith) refl

half_on_disk : look (part half.path) halfway.disk ≡ some (1 ∷ 2 ∷ [])
unfolding look
half_on_disk = refl

handle_chunk-completes_example :
    look half.path (handle_chunk calm halfway (3 ∷ [])).disk ≡ some ((1 ∷ 2 ∷ []) ++ (3 ∷ []))
handle_chunk-completes_example =
    handle_chunk-completes calm halfway half (3 ∷ []) (1 ∷ 2 ∷ []) refl refl half_on_disk refl refl
      refl refl refl

handle_chunk-over_example :
    ((handle_chunk calm halfway (3 ∷ 4 ∷ [])).rx ≡ none)
    × (look (part half.path) (handle_chunk calm halfway (3 ∷ 4 ∷ [])).disk
        ≡ (if halfway.stuck (part half.path) then some (1 ∷ 2 ∷ []) else none))
    × ((p : FilePath)
        → eq_path (part half.path) p ≡ false
        → look p (handle_chunk calm halfway (3 ∷ 4 ∷ [])).disk ≡ look p halfway.disk)
handle_chunk-over_example =
    handle_chunk-over calm halfway half (3 ∷ 4 ∷ []) (1 ∷ 2 ∷ []) refl refl half_on_disk
      (omega arith)

abbrev note_job : Job
note_job = record { path = note; name = text "note.txt"; size = 5; cancel = 0 }

offer_paths-accepted_example :
    MaySend (λ p. some 5) note 5
    × Announces
        (offer_paths (λ p. some 5) offering (text "d1") (note ∷ [])).sent
        offering.sent
        (text "d1")
        0
        note_job
unfolding offer_paths accepted_job keep_files freedesk.Transfer.State.send
offer_paths-accepted_example =
    offer_paths-accepted (λ p. some 5) offering (text "d1") (note ∷ []) sending 0 note_job refl refl
      refl refl
