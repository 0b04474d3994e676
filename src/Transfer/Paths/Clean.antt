-- ===== src/Transfer/Paths/Clean.antt =====
-- The laws of paths and of the disk.
use freedesk.Prelude.{
  ℕ, ◌≡◌, refl, Bool, true, false, not, ◌&&◌, ◌||◌, ◌↔◌, List, [], ◌∷◌, none, some, arith,
  if◌then◌else◌, Text, text, eq_text, eq_text_iff, is_empty, any, drop, all,
}
use freedesk.Transfer.Name.{is_separator, is_plain}
use freedesk.Transfer.Paths.{
  FilePath, split, add_component, clean, join, eq_path, is_under, Disk, look, erase, put,
}

pub eq_path_iff : (p q : FilePath) → (eq_path p q ≡ true) ↔ (p ≡ q)
eq_path_iff [] [] = ground arith
eq_path_iff [] (d ∷ q) = ground arith
eq_path_iff (c ∷ p) [] = ground arith
eq_path_iff (c ∷ p) (d ∷ q) = ground (arith, eq_text_iff c d, eq_path_iff p q)

pub eq_path_refl : (p : FilePath) → eq_path p p ≡ true
eq_path_refl p = (eq_path_iff p p).1 refl

-- A name with no separator is one component.
split-one : (name : Text) → any is_separator name ≡ false → split name ≡ name ∷ []
unfolding split
split-one [] h = refl
split-one (c ∷ s) h = ground (arith, split-one s)

plain_parts :
    (c : Text)
    → is_plain c ≡ true
    → (is_empty c ≡ false)
      × (any is_separator c ≡ false)
      × (eq_text c (text ".") ≡ false)
      × (eq_text c (text "..") ≡ false)
unfolding is_plain
plain_parts c h = ground arith

clean-plain : (c : Text) (up : FilePath) → is_plain c ≡ true → clean (c ∷ up) ≡ c ∷ clean up
unfolding clean
clean-plain c up h = let (e, _, d, dd) = plain_parts c h in rw (e, d, dd)

pub join-plain : (root : FilePath) (c : Text) → is_plain c ≡ true → join root c ≡ c ∷ clean root
unfolding join
join-plain root c h = rw (split-one c (plain_parts c h).1) (clean-plain c root h)

-- A cleaned path has only components that cleaning keeps.
abbrev is_kept : Text → Bool
is_kept c = not (is_empty c || eq_text c (text ".")) && not (eq_text c (text ".."))

drop-kept : (p : FilePath) → all is_kept p ≡ true → all is_kept (drop 1 p) ≡ true
drop-kept [] h = refl
drop-kept (c ∷ p) h = ground arith

add_component-kept :
    (c : Text) (p : FilePath) → all is_kept p ≡ true → all is_kept (add_component c p) ≡ true
add_component-kept c p h = ground (arith, drop-kept p h)

clean-kept : (p : FilePath) → all is_kept (clean p) ≡ true
unfolding clean
clean-kept [] = refl
clean-kept (c ∷ up) = add_component-kept c (clean up) (clean-kept up)

clean-of_kept : (p : FilePath) → all is_kept p ≡ true → clean p ≡ p
unfolding clean
clean-of_kept [] h = refl
clean-of_kept (c ∷ p) h = ground (arith, clean-of_kept p)

pub clean-clean : (p : FilePath) → clean (clean p) ≡ clean p
clean-clean p = clean-of_kept (clean p) (clean-kept p)

-- The path of a plain name in a folder is under that folder, whatever the folder's spelling.
pub is_under-join :
    (root : FilePath) (c : Text)
    → is_plain c ≡ true
    → is_under (clean (join root c)) (clean root) ≡ true
unfolding is_under
is_under-join root c h =
    rw (
      join-plain root c h,
      clean-plain c (clean root) h,
      clean-clean root,
      eq_path_refl (clean root),
    )

pub look-erase :
    (p q : FilePath) (disk : Disk)
    → look p (erase q disk) ≡ (if eq_path q p then none else look p disk)
unfolding look erase
look-erase p q [] = ground arith
look-erase p q ((r, bytes) ∷ disk) =
    ground (arith, eq_path_iff r q, eq_path_iff r p, eq_path_iff q p, look-erase p q disk)

pub look-put :
    (p q : FilePath) (bytes : List ℕ) (disk : Disk)
    → look p (put q bytes disk) ≡ (if eq_path q p then some bytes else look p disk)
unfolding look put
look-put p q bytes disk = ground (arith, look-erase p q disk)
