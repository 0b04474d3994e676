-- ===== src/Transfer/Paths.antt =====
-- path/filepath as the transfer package uses it, on absolute paths, and the files of the disk.
-- A path is its components, the last one first; [] is the root. Both `/` and `\` separate, as
-- on Windows; no name that SafeName accepts has either.
pub mod Clean
use freedesk.Prelude.{
  ℕ, Bool, true, false, not, ◌&&◌, ◌||◌, List, [], ◌∷◌, ◌++◌, Option, none, some, map, ◌==◌,
  if◌then◌else◌, Text, text, eq_text, is_empty, drop,
}
use freedesk.Transfer.Name.{is_separator}

abbrev pub FilePath : Type 0
FilePath = List Text

-- The pieces between the separators.
abbrev pub add_rune : ℕ → List Text → List Text
add_rune c [] = (c ∷ []) ∷ []
add_rune c (w ∷ ws) = (c ∷ w) ∷ ws

unfoldable pub split : Text → List Text
split [] = [] ∷ []
split (c ∷ s) = if is_separator c then [] ∷ split s else add_rune c (split s)

abbrev pub push_all : List Text → FilePath → FilePath
push_all [] p = p
push_all (w ∷ ws) p = push_all ws (w ∷ p)

abbrev pub add_component : Text → FilePath → FilePath
add_component c up =
    if is_empty c || eq_text c (text ".")
    then up
    else if eq_text c (text "..")
    then drop 1 up
    else c ∷ up

-- filepath.Clean
unfoldable pub clean : FilePath → FilePath
clean [] = []
clean (c ∷ up) = add_component c (clean up)

-- filepath.Join
unfoldable pub join : FilePath → Text → FilePath
unfolding clean split
join root name = clean (push_all (split name) root)

abbrev pub eq_path : FilePath → FilePath → Bool
eq_path [] [] = true
eq_path [] (d ∷ q) = false
eq_path (c ∷ p) [] = false
eq_path (c ∷ p) (d ∷ q) = eq_text c d && eq_path p q

-- `strings.HasPrefix(p, root + separator)`, for a root that is not the top.
unfoldable pub is_under : FilePath → FilePath → Bool
is_under [] root = false
is_under (c ∷ p) root = eq_path p root || is_under p root

-- The files of the disk: path and contents. A directory is an entry too.
abbrev pub Disk : Type 0
Disk = List (FilePath × List ℕ)

unfoldable pub look : FilePath → Disk → Option (List ℕ)
look p [] = none
look p ((q, bytes) ∷ disk) = if eq_path q p then some bytes else look p disk

unfoldable pub erase : FilePath → Disk → Disk
erase p [] = []
erase p ((q, bytes) ∷ disk) = if eq_path q p then erase p disk else (q, bytes) ∷ erase p disk

unfoldable pub put : FilePath → List ℕ → Disk → Disk
unfolding erase
put p bytes disk = (p, bytes) ∷ erase p disk

-- The path with a suffix to its last component.
abbrev pub add_suffix : FilePath → Text → FilePath
add_suffix [] s = s ∷ []
add_suffix (c ∷ up) s = (c ++ s) ∷ up
