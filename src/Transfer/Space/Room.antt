-- ===== src/Transfer/Space/Room.antt =====
-- space.go: what the answers mean.
use freedesk.Prelude.{
  ℕ, ◌+◌, ◌≤◌, ◌≡◌, refl, ◌↔◌, ◌⊎◌, inl, inr, Bool, true, false, [], ◌∷◌, ◌++◌, Option, none, some,
  arith, int64_max, pos, Bool-cases, ap,
}
use freedesk.Transfer.Paths.{FilePath}
use freedesk.Transfer.Space.{space_headroom, nearest_existing, has_room, room_for, room}

has_room_iff :
    (free need : ℕ)
    → need ≤ int64_max
    → (has_room free true (pos need) ≡ true) ↔ (need + space_headroom ≤ free)
unfolding has_room
has_room_iff free need h = ground arith

room_for_iff :
    (free : Option ℕ) (need : ℕ)
    → need ≤ int64_max
    → (room_for free (pos need) ≡ true)
      ↔ ((free ≡ none) ⊎ ((bytes : ℕ) × (free ≡ some bytes) × (need + space_headroom ≤ bytes)))
unfolding room_for
room_for_iff none need h = ((λ _. inl refl), (λ _. refl))
room_for_iff (some bytes) need h = ((λ e. inr (bytes, refl, (has_room_iff bytes need h).0 e)), back)
  where
    back :
        ((some bytes ≡ none) ⊎ ((b : ℕ) × (some bytes ≡ some b) × (need + space_headroom ≤ b)))
        → has_room bytes true (pos need) ≡ true
    back (inl e) = cc
    back (inr (b, e, l)) = (has_room_iff bytes need h).1 (ground arith)

-- Where the system tells the free space, a batch is let through exactly if it leaves 64 MiB
-- free, with no wrap-around for any int64 size; where it does not, every batch is.
pub room_iff :
    (exists : FilePath → Bool) (free : FilePath → Option ℕ) (root : FilePath) (need : ℕ)
    → need ≤ int64_max
    → (room exists free root (pos need) ≡ true) ↔ (
        (free (nearest_existing exists root) ≡ none)
        ⊎ ((bytes : ℕ) × (free (nearest_existing exists root) ≡ some bytes)
            × (need + space_headroom ≤ bytes)))
unfolding room
room_iff exists free root need h = room_for_iff (free (nearest_existing exists root)) need h

-- No path from `below` on top of `rest` is there.
abbrev pub Missing : (FilePath → Bool) → FilePath → FilePath → Type 0
Missing exists [] rest = Unit
Missing exists (c ∷ below) rest = (exists (c ∷ (below ++ rest)) ≡ false) × Missing exists below rest

-- The walk ends at the folder itself or at an ancestor, which is there or is the top, and none of
-- the folders between the two is there.
pub nearest_existing_lem :
    (exists : FilePath → Bool) (dir : FilePath)
    → (below : FilePath) × (below ++ nearest_existing exists dir ≡ dir)
      × Missing exists below (nearest_existing exists dir)
      × ((nearest_existing exists dir ≡ []) ⊎ (exists (nearest_existing exists dir) ≡ true))
unfolding nearest_existing
nearest_existing_lem exists [] = ([], refl, tt, inl refl)
nearest_existing_lem exists (c ∷ up) =
    let (below, e, m, r) = nearest_existing_lem exists up in
    elim (Bool-cases (exists (c ∷ up))) [
      | inl here ↦ rw here ([], refl, tt, inr here)
      | inr gone ↦ rw gone (c ∷ below, ap (◌∷◌ c) e, (rw e gone, m), r)
    ]
