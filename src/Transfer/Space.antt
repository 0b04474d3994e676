-- ===== src/Transfer/Space.antt =====
-- host-agent/internal/transfer/space.go: whether a batch fits on the disk.
pub mod Room
use freedesk.Prelude.{
  ℕ, ◌+◌, ◌%◌, Bool, true, false, not, List, [], ◌∷◌, leb, if◌then◌else◌, ℤ, is_neg, to_word,
  word_mod, Option, none, some,
}
use freedesk.Transfer.Paths.{FilePath}

abbrev pub space_headroom : ℕ
space_headroom = 67108864

-- `exists` is whether os.Stat succeeds. The top is its own parent.
unfoldable pub nearest_existing : (FilePath → Bool) → FilePath → FilePath
nearest_existing exists [] = []
nearest_existing exists (c ∷ up) =
    let rest = nearest_existing exists up in if exists (c ∷ up) then c ∷ up else rest

-- `free >= uint64(need) + spaceHeadroom`, in uint64.
unfoldable pub has_room : ℕ → Bool → ℤ → Bool
has_room free known need =
    if not known
    then true
    else if is_neg need
    then false
    else leb ((to_word need + space_headroom) % word_mod) free

-- `none` is that the operating system does not say how much is free.
unfoldable pub room_for : Option ℕ → ℤ → Bool
unfolding has_room
room_for none need = has_room 0 false need
room_for (some bytes) need = has_room bytes true need

-- Dest.Room; `free` is what the operating system reports.
unfoldable pub room : (FilePath → Bool) → (FilePath → Option ℕ) → FilePath → ℤ → Bool
unfolding room_for
room exists free root need = room_for (free (nearest_existing exists root)) need
