-- ===== src/Transfer/Dest.antt =====
-- host-agent/internal/transfer/dest.go: where accepted files are written.
-- The disk, with its folders, is an argument of each operation, and so is what the operating system
-- refuses. Abandon ignores the error of os.Remove, and so leaves a file that is stuck where it is;
-- SweepPartials does too, and its deletions are taken to succeed.
pub mod Create
pub mod Parts
use freedesk.Prelude.{
  ℕ, zero, suc, ◌+◌, ◌/◌, ◌%◌, Bool, true, false, not, ◌&&◌, ◌||◌, List, [], ◌∷◌, ◌++◌, Option,
  none, some, ltb, ◌==◌, if◌then◌else◌, is_some, Text, text, eq_text, is_empty,
}
use freedesk.Transfer.Name.{split_ext, safe_name}
use freedesk.Transfer.Paths.{
  FilePath, clean, join, eq_path, is_under, Disk, look, erase, put, add_suffix,
}

abbrev pub part_suffix : Text
part_suffix = text ".part"

abbrev pub max_collisions : ℕ
max_collisions = 99

pub data CreateError : Type 0 where
  bad_name mkdir_failed lstat_failed open_failed too_many_collisions : CreateError

pub data Created : Type 0 where
  created : FilePath → Created
  refused : CreateError → Created

-- Which calls of the operating system fail, other than by "exists" and "does not exist".
pub record Faults : Type 0 where
  pub mkdir : FilePath → Bool
  pub lstat : FilePath → Bool
  pub open_file : FilePath → Bool

abbrev pub part : FilePath → FilePath
part final = add_suffix final part_suffix

-- `%d`, of a number with at most `digits` digits.
unfoldable pub decimal : ℕ → ℕ → Text
decimal zero n = []
decimal (suc digits) n =
    let rest = decimal digits (n / 10) in
    if ltb n 10 then (n + b'0') ∷ [] else rest ++ ((n % 10 + b'0') ∷ [])

unfoldable pub candidate : Text → ℕ → Text
unfolding decimal
candidate safe i =
    let (stem, ext) = split_ext safe in
    if i == 0 then safe else stem ++ (text " (" ++ (decimal 20 (i + 1) ++ (text ")" ++ ext)))

-- Dest.within
unfoldable pub within : FilePath → FilePath → Bool
within root p = not (is_empty (clean root)) && is_under (clean p) (clean root)

-- What one round of the loop finds at a name.
pub data Probe : Type 0 where
  taken : Probe
  free : Probe
  failed : CreateError → Probe

unfoldable pub probe : Faults → Disk → FilePath → FilePath → Probe
probe faults disk root final =
    if not (within root final)
    then failed bad_name
    else if is_some (look final disk)
    then taken
    else if faults.lstat final
    then failed lstat_failed
    else if is_some (look (part final) disk)
    then taken
    else if faults.open_file (part final)
    then failed open_failed
    else free

abbrev pub settle : Disk → FilePath → Probe → Disk × Created → Disk × Created
settle disk final taken rest = rest
settle disk final free rest = (put (part final) [] disk, created final)
settle disk final (failed e) rest = (disk, refused e)

-- The loop over the candidates, with the rounds that are left.
unfoldable pub try_names : Faults → Disk → FilePath → Text → ℕ → ℕ → Disk × Created
try_names faults disk root safe zero i = (disk, refused too_many_collisions)
try_names faults disk root safe (suc left) i =
    let rest = try_names faults disk root safe left (i + 1) in
    let final = join root (candidate safe i) in
    settle disk final (probe faults disk root final) rest

-- os.MkdirAll: the folders that are not there, from the top down, up to one that cannot be made.
unfoldable pub make_folders : Faults → FilePath → Disk → Disk × Bool
make_folders faults [] disk = (disk, true)
make_folders faults (c ∷ up) disk =
    let (made, ok) = make_folders faults up disk in
    if not ok || faults.mkdir (c ∷ up)
    then (made, false)
    else (if is_some (look (c ∷ up) made) then made else put (c ∷ up) [] made, true)

abbrev pub create_in : Faults → Disk × Bool → FilePath → Text → Disk × Created
create_in faults (disk, ok) root safe =
    let opened = try_names faults disk root safe (suc max_collisions) 0 in
    if ok then opened else (disk, refused mkdir_failed)

abbrev pub create_safe : Faults → Disk → FilePath → Option Text → Disk × Created
create_safe faults disk root none = (disk, refused bad_name)
create_safe faults disk root (some safe) =
    create_in faults (make_folders faults (clean root) disk) root safe

unfoldable pub create : Faults → Disk → FilePath → Text → Disk × Created
create faults disk root name = create_safe faults disk root (safe_name name)

pub data IoError : Type 0 where
  disk_full other : IoError

-- os.Rename, which replaces a file that has the new name.
abbrev pub rename : Disk → FilePath → FilePath → Disk × Option IoError
rename disk from to = elim (look from disk) [
  | none ↦ (disk, some other)
  | some bytes ↦ (put to bytes (erase from disk), none)
]

-- Finish; the arguments are the errors of Sync, Close and Rename.
unfoldable pub finish :
    Option IoError → Option IoError → Option IoError → Disk → FilePath → Disk × Option IoError
finish (some e) close move disk final = (disk, some e)
finish none (some e) move disk final = (disk, some e)
finish none none (some e) disk final = (disk, some e)
finish none none none disk final = rename disk (part final) final

-- Abandon; `stuck` are the files that os.Remove cannot remove.
unfoldable pub abandon : (FilePath → Bool) → Disk → FilePath → Disk
abandon stuck disk final = if stuck (part final) then disk else erase (part final) disk

-- strings.HasSuffix
abbrev pub has_suffix : Text → Text → Bool
has_suffix suffix [] = is_empty suffix
has_suffix suffix (c ∷ s) = eq_text (c ∷ s) suffix || has_suffix suffix s

abbrev pub is_partial_in : FilePath → FilePath → Bool
is_partial_in root [] = false
is_partial_in root (name ∷ up) = eq_path up root && has_suffix part_suffix name

unfoldable pub sweep_partials : (FilePath → Bool) → FilePath → Disk → Disk
sweep_partials is_dir root [] = []
sweep_partials is_dir root ((p, bytes) ∷ disk) =
    if not (is_dir p) && is_partial_in root p
    then sweep_partials is_dir root disk
    else (p, bytes) ∷ sweep_partials is_dir root disk
