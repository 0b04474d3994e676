-- ===== src/Transfer/FileExamples.antt =====
-- The theorems about names, frames, the download folder and the stream, at concrete inputs.
use freedesk.Prelude.{
  ℕ, ◌+◌, ◌<◌, ◌≤◌, ◌≡◌, ◌≢◌, refl, true, false, List, [], ◌∷◌, Option, none, some, arith, Text,
  text, pos, length, byte_len, trim_space, trim_right, All, is_empty,
}
use freedesk.Transfer.Name.{
  safe_name, is_bad_rune, is_bidi_control, finish_name, is_reserved, is_plain, is_dot_or_space,
  max_name_bytes,
}
use freedesk.Transfer.Name.Safe.{IsSafe, safe_name-IsSafe}
use freedesk.Transfer.Message.{
  Msg, Reason, offer, up, validate, total_size, max_batch_files, max_batch_bytes, chunk_bytes,
}
use freedesk.Transfer.Message.Valid.{validate-offer, sum_sizes, IsSane}
use freedesk.Transfer.Paths.{FilePath, Disk, look, put, clean, join, is_under, eq_path}
use freedesk.Transfer.Dest.{
  Faults, create, try_names, probe, within, candidate, part, finish, make_folders,
}
use freedesk.Transfer.Dest.Create.{create_created, or_folder, is_above}
use freedesk.Transfer.Dest.Parts.{finish_done}
use freedesk.Transfer.Stream.{Round, StreamError, low, more, stream_file, wait_for_drain}
use freedesk.Transfer.Stream.Pacing.{stream_file-sends, stream_file_ends, total}

abbrev folder : FilePath
folder = text "FreeDesk" ∷ text "Downloads" ∷ []

abbrev no_faults : Faults
no_faults = record { mkdir = λ p. false; lstat = λ p. false; open_file = λ p. false }

abbrev note : FilePath
note = text "note.txt" ∷ folder

abbrev one_file : Msg
one_file = record {
  t = offer;
  id = text "b1";
  files = record { name = text "note.txt"; size = pos 3 } ∷ [];
  index = pos 0;
  size = pos 0;
  sent = pos 0;
  offset = pos 0;
  dir = up;
  reason = Reason.unset;
  clip = false;
}

safe_note : safe_name (text " note.txt. ") ≡ some (text "note.txt")
unfolding safe_name is_bad_rune is_bidi_control finish_name is_reserved is_plain
safe_note = refl

safe_name-IsSafe_example : IsSafe (text "note.txt")
safe_name-IsSafe_example = safe_name-IsSafe (text " note.txt. ") (text "note.txt") safe_note

short_note :
    byte_len (trim_right is_dot_or_space (trim_space (text " note.txt. "))) ≤ max_name_bytes
short_note = omega arith

-- Both folders are made, and the partial file.
abbrev first_use : Disk
first_use = (part note, []) ∷ (folder, []) ∷ (text "Downloads" ∷ [], []) ∷ []

create_created_example :
    (c : Text) × (made : Disk) × (is_plain c ≡ true)
    × (note ≡ c ∷ clean folder)
    × (look note [] ≡ none)
    × (look (part note) [] ≡ none)
    × ((p : FilePath) → look p made ≡ or_folder (look p []) (is_above p (clean folder)))
    × (first_use ≡ put (part note) [] made)
unfolding create safe_name is_bad_rune is_bidi_control finish_name is_reserved is_plain try_names
    probe within clean is_under join candidate look put make_folders
create_created_example = create_created no_faults [] folder (text "note.txt") first_use note refl

validate-offer_example :
    (is_empty one_file.id ≡ false)
    × (0 < length one_file.files)
    × (length one_file.files ≤ max_batch_files)
    × All IsSane one_file.files
    × (total_size one_file.files ≡ pos (sum_sizes one_file.files))
    × (sum_sizes one_file.files ≤ max_batch_bytes)
unfolding validate total_size
validate-offer_example = validate-offer one_file refl refl

finish_done_example :
    let (after, e) = finish none none none ((part note, 1 ∷ []) ∷ []) note in
    (e ≡ none)
    × (look note after ≡ some (1 ∷ []))
    × (look (part note) after ≡ none)
    × ((p : FilePath)
        → eq_path note p ≡ false
        → eq_path (part note) p ≡ false
        → look p after ≡ look p ((part note, 1 ∷ []) ∷ []))
unfolding look
finish_done_example = finish_done ((part note, 1 ∷ []) ∷ []) note (1 ∷ []) refl

-- Room after one wait, and both bytes in one read.
abbrev round : Round
round = record {
  passes =
      record { buffered = some 2000000; wake = low }
      ∷ record { buffered = some 5; wake = low }
      ∷ [];
  read = 7 ∷ 8 ∷ [];
  end = more;
  has_channel = true;
  accepted = true;
}

abbrev two_bytes : List (List ℕ)
two_bytes = (7 ∷ 8 ∷ []) ∷ []

abbrev no_error : Option StreamError
no_error = none

stream_file-sends_example :
    (no_error ≡ none → total two_bytes ≡ 2)
    × (total two_bytes < 2 + chunk_bytes)
    × All (λ f. (0 < length f) × (length f ≤ chunk_bytes)) two_bytes
unfolding stream_file wait_for_drain
stream_file-sends_example =
    stream_file-sends 2 (round ∷ []) two_bytes no_error (omega arith) (omega arith, tt) refl

stream_file_ends_example : stream_file true 1 (round ∷ []) ≢ none
unfolding wait_for_drain
stream_file_ends_example =
    stream_file_ends 1 (round ∷ []) ((omega arith, λ e. cc), tt) (omega arith)
