-- ===== src/Transfer/Dest/Parts.antt =====
-- dest.go: how a partial file ends.
use freedesk.Prelude.{
  ℕ, ◌≡◌, refl, ◌≢◌, Bool, false, not, ◌&&◌, List, [], ◌∷◌, ◌++◌, Option, none, some, arith, Text,
  if◌then◌else◌, Bool-cases, inl, inr, Option-cases,
}
use freedesk.Transfer.Paths.{FilePath, eq_path, Disk, look, erase, put}
use freedesk.Transfer.Paths.Clean.{eq_path_iff, eq_path_refl, look-erase, look-put}
use freedesk.Transfer.Dest.{
  part, part_suffix, IoError, rename, finish, abandon, is_partial_in, sweep_partials,
}

append-ne_self : (s : Text) → s ++ part_suffix ≢ s
append-ne_self [] e = cc
append-ne_self (c ∷ s) e = append-ne_self s (cc)

-- The partial file is never the finished one.
pub part-ne-final : (final : FilePath) → eq_path (part final) final ≡ false
part-ne-final [] = refl
part-ne-final (c ∷ up) = ground (arith, eq_path_iff (part (c ∷ up)) (c ∷ up), append-ne_self c)

final-ne-part : (final : FilePath) → eq_path final (part final) ≡ false
final-ne-part final =
    ground
      (arith, eq_path_iff final (part final), eq_path_iff (part final) final, part-ne-final final)

rename_lem :
    (disk : Disk) (from to : FilePath) (bytes : List ℕ)
    → look from disk ≡ some bytes
    → rename disk from to ≡ (put to bytes (erase from disk), none)
rename_lem disk from to bytes h = rw (h, rename)

-- Finish, with a partial file there and no error: the finished file holds what the partial file
-- held, whatever stood under its name before, the partial file is gone, and every other file is as
-- it was.
pub finish_done :
    (disk : Disk) (final : FilePath) (bytes : List ℕ)
    → look (part final) disk ≡ some bytes
    → let (after, e) = finish none none none disk final in
      (e ≡ none)
      × (look final after ≡ some bytes)
      × (look (part final) after ≡ none)
      × ((p : FilePath)
          → eq_path final p ≡ false
          → eq_path (part final) p ≡ false
          → look p after ≡ look p disk)
unfolding finish
finish_done disk final bytes h =
    let less = erase (part final) disk in
    rw (rename_lem disk (part final) final bytes h) (
      refl,
      rw (look-put final final bytes less, eq_path_refl final),
      rw (
        look-put (part final) final bytes less,
        final-ne-part final,
        look-erase (part final) (part final) disk,
        eq_path_refl (part final),
      ),
      λ p n m. rw (look-put p final bytes less, n, look-erase p (part final) disk, m),
    )

-- Finish, if one of its three steps fails, leaves the disk as it was and says so.
pub finish_failed :
    (sync close move : Option IoError) (disk : Disk) (final : FilePath) {e : IoError}
    → (finish sync close move disk final).1 ≡ some e
    → (finish sync close move disk final).0 ≡ disk
unfolding finish
finish_failed (some x) close move disk final h = refl
finish_failed none (some x) move disk final h = refl
finish_failed none none (some x) disk final h = refl
finish_failed none none none disk final h = elim (Option-cases (look (part final) disk)) [
  | inl e ↦ ground arith
  | inr (b, e) ↦ absurd (ground arith)
]

-- Abandon removes the partial file, if the system lets it, and touches nothing else.
pub look-abandon :
    (stuck : FilePath → Bool) (disk : Disk) (final p : FilePath)
    → look p (abandon stuck disk final)
      ≡ (if not (stuck (part final)) && eq_path (part final) p then none else look p disk)
unfolding abandon
look-abandon stuck disk final p = elim (Bool-cases (stuck (part final))) [
  | inl e ↦ rw e refl
  | inr e ↦ rw e (look-erase p (part final) disk)
]

-- After the sweep no partial file is left in the folder, and every other file and every folder is
-- as it was.
pub look-sweep_partials :
    (is_dir : FilePath → Bool) (root p : FilePath) (disk : Disk)
    → look p (sweep_partials is_dir root disk)
      ≡ (if not (is_dir p) && is_partial_in root p then none else look p disk)
unfolding sweep_partials look
look-sweep_partials is_dir root p [] = ground arith
look-sweep_partials is_dir root p ((q, bytes) ∷ disk) = elim (Bool-cases (eq_path q p)) [
  | inl e ↦
      rw ((eq_path_iff q p).0 e)
        (ground (arith, eq_path_refl p, look-sweep_partials is_dir root p disk))
  | inr n ↦ ground (arith, look-sweep_partials is_dir root p disk)
]
