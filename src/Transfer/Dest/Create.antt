-- ===== src/Transfer/Dest/Create.antt =====
-- dest.go: what Create promises.
use native.Mathlib.Decide.{ℕ_discrete}
use freedesk.Prelude.{
  ℕ, zero, suc, ◌+◌, ◌≤◌, ◌<◌, ◌≡◌, refl, true, false, [], ◌∷◌, ◌++◌, none, some, arith, Text,
  is_some, ◌⊎◌, inl, inr, Option-cases, Bool-cases, sym, ◌≢◌, is_empty, any, ◌==◌, any-append, ◌/◌,
  Bool, List, Option, not, ◌||◌, ap, subst, ◌%◌, ◌∙◌, ◌↔◌,
}
use freedesk.Transfer.Paths.{FilePath, clean, join, Disk, look, put, eq_path}
use freedesk.Transfer.Paths.Clean.{is_under-join, join-plain, eq_path_iff, look-put}
use freedesk.Transfer.Name.{safe_name, is_plain, is_separator, split_ext}
use freedesk.Transfer.Name.Safe.{safe_name-IsSafe}
use freedesk.Transfer.Name.Runes.{split_ext-append}
use freedesk.Transfer.Dest.{
  CreateError, bad_name, too_many_collisions, decimal, created, refused, Faults, part, candidate,
  within, make_folders, Probe, taken, free, failed, probe, try_names, create, max_collisions,
}

Probe-cases : (p : Probe) → (p ≡ taken) ⊎ ((p ≡ free) ⊎ ((e : CreateError) × (p ≡ failed e)))
Probe-cases taken = inl refl
Probe-cases free = inr (inl refl)
Probe-cases (failed e) = inr (inr (e, refl))

abbrev pub IsTaken : Disk → FilePath → Type 0
IsTaken disk final = (is_some (look final disk) ≡ true) ⊎ (is_some (look (part final) disk) ≡ true)

module _ (faults : Faults) (disk : Disk) (root : FilePath) where
  probe_free :
      (final : FilePath)
      → probe faults disk root final ≡ free
      → (within root final ≡ true) × (look final disk ≡ none) × (look (part final) disk ≡ none)
  unfolding probe
  probe_free final h = ground arith

  probe-taken : (final : FilePath) → probe faults disk root final ≡ taken → IsTaken disk final
  unfolding probe
  probe-taken final h = ground arith

  probe_failed : (final : FilePath) → probe faults disk root final ≢ failed too_many_collisions
  unfolding probe
  probe_failed final h = ground arith

  -- Where a new partial file may be made.
  abbrev IsFresh : Text → ℕ → ℕ → Disk → FilePath → Type 0
  IsFresh safe from to after final =
      (k : ℕ) × (from ≤ k)
      × (k < to)
      × (final ≡ join root (candidate safe k))
      × (look final disk ≡ none)
      × (look (part final) disk ≡ none)
      × (after ≡ put (part final) [] disk)

  try_names_created :
      (safe : Text) (left i : ℕ) {after : Disk} {final : FilePath}
      → try_names faults disk root safe left i ≡ (after, created final)
      → IsFresh safe i (i + left) after final
  unfolding try_names
  try_names_created safe zero i h = cc
  try_names_created safe (suc left) i {after} {final} h =
      let here = join root (candidate safe i) in
      elim (Probe-cases (probe faults disk root here)) [
        | inl e ↦
            let (k, a, b, n, f, p, d) = try_names_created safe left (i + 1) (rw e at h) in
            (k, omega arith, omega arith, n, f, p, d)
        | inr (inl e) ↦
            let done = rw e at h in
            let here' : here ≡ final = ground arith in
            let (_, f, p) = probe_free here e in
            (i, omega arith, omega arith, sym here', rw (← here') f, rw (← here') p, ground arith)
        | inr (inr (x, e)) ↦ absurd (ground arith)
      ]

  -- A refusal changes nothing.
  try_names_refused :
      (safe : Text) (left i : ℕ) {after : Disk} {x : CreateError}
      → try_names faults disk root safe left i ≡ (after, refused x)
      → after ≡ disk
  unfolding try_names
  try_names_refused safe zero i h = ground arith
  try_names_refused safe (suc left) i h =
      elim (Probe-cases (probe faults disk root (join root (candidate safe i)))) [
        | inl e ↦ try_names_refused safe left (i + 1) (rw e at h)
        | inr (inl e) ↦ absurd (ground arith)
        | inr (inr (y, e)) ↦ ground arith
      ]

  try_names_full :
      (safe : Text) (left i : ℕ) {after : Disk}
      → try_names faults disk root safe left i ≡ (after, refused too_many_collisions)
      → (k : ℕ) → i ≤ k
      → k < i + left
      → IsTaken disk (join root (candidate safe k))
  unfolding try_names
  try_names_full safe zero i h k a b = absurd (omega arith)
  try_names_full safe (suc left) i h k a b =
      elim (Probe-cases (probe faults disk root (join root (candidate safe i)))) [
        | inl e ↦ elim (ℕ_discrete i k) [
          | yes here ↦ rw (← here) (probe-taken (join root (candidate safe i)) e)
          | no later ↦ try_names_full safe left (i + 1) (rw e at h) k (omega arith) (omega arith)
        ]
        | inr (inl e) ↦ absurd (ground arith)
        | inr (inr (y, e)) ↦ absurd (ground (arith, probe_failed (join root (candidate safe i))))
      ]

any-decimal : (digits n : ℕ) → any is_separator (decimal digits n) ≡ false
unfolding decimal
any-decimal zero n = refl
any-decimal (suc digits) n = ground (
  arith,
  any-decimal digits (n / 10),
  any-append is_separator (decimal digits (n / 10)) ((n % 10 + b'0') ∷ []),
)

-- A stem with a number behind it is no `.` and no `..`.
numbered_plain :
    (stem rest : Text)
    → any is_separator stem ≡ false
    → any is_separator rest ≡ false
    → is_plain (stem ++ (0x20 ∷ 0x28 ∷ rest)) ≡ true
unfolding is_plain
numbered_plain [] rest h k = ground arith
numbered_plain (a ∷ []) rest h k = ground arith
numbered_plain (a ∷ b ∷ []) rest h k = ground arith
numbered_plain (a ∷ b ∷ c ∷ stem) rest h k =
    ground (arith, any-append is_separator stem (0x20 ∷ 0x28 ∷ rest))

separators_split :
    (safe : Text)
    → any is_separator safe ≡ false
    → (any is_separator (split_ext safe).0 ≡ false) × (any is_separator (split_ext safe).1 ≡ false)
separators_split safe h =
    let (stem, ext) = split_ext safe in
    let whole : any is_separator (stem ++ ext) ≡ false = rw (split_ext-append safe) h in
    ground (arith, any-append is_separator stem ext)

plain_separators : (safe : Text) → is_plain safe ≡ true → any is_separator safe ≡ false
unfolding is_plain
plain_separators safe h = ground arith

-- Every candidate for a plain name is a plain name.
pub candidate_plain :
    (safe : Text) (i : ℕ) → is_plain safe ≡ true → is_plain (candidate safe i) ≡ true
unfolding candidate
candidate_plain safe i h =
    let (stem, ext) = split_ext safe in
    let (s, e) = separators_split safe (plain_separators safe h) in
    let digits = decimal 20 (i + 1) in
    let rest = any-append is_separator digits (0x29 ∷ ext) in
    let numbered =
      numbered_plain stem (digits ++ (0x29 ∷ ext)) s
        (ground (arith, rest, any-decimal 20 (i + 1))) in
    elim (Bool-cases (i == 0)) [ inl z ↦ rw z h | inr n ↦ rw n numbered ]

-- The path, or one that has it for a folder.
abbrev pub is_above : FilePath → FilePath → Bool
is_above p [] = false
is_above p (c ∷ up) = eq_path (c ∷ up) p || is_above p up

-- What stands at a path after the folders were made.
abbrev pub or_folder : Option (List ℕ) → Bool → Option (List ℕ)
or_folder (some bytes) new = some bytes
or_folder none true = some []
or_folder none false = none

or_folder_old : (o : Option (List ℕ)) → or_folder o false ≡ o
or_folder_old none = refl
or_folder_old (some bytes) = refl

or_folder_step :
    (o : Option (List ℕ)) (b : Bool)
    → is_some (or_folder o b) ≡ true
    → or_folder o b ≡ or_folder o true
or_folder_step (some bytes) b h = refl
or_folder_step none true h = refl
or_folder_step none false h = cc

or_folder_new :
    (o : Option (List ℕ)) (b : Bool) → is_some (or_folder o b) ≡ false → some [] ≡ or_folder o true
or_folder_new (some bytes) b h = cc
or_folder_new none true h = refl
or_folder_new none false h = refl

module _ (faults : Faults) (disk : Disk) where
  -- What was there is there, also where a folder could not be made.
  make_folders_keeps :
      (path p : FilePath) (bytes : List ℕ)
      → look p disk ≡ some bytes
      → look p (make_folders faults path disk).0 ≡ some bytes
  unfolding make_folders
  make_folders_keeps [] p bytes h = h
  make_folders_keeps (c ∷ up) p bytes h =
      let made = (make_folders faults up disk).0 in
      let kept = make_folders_keeps up p bytes h in
      elim (Bool-cases (not (make_folders faults up disk).1 || faults.mkdir (c ∷ up))) [
        | inl e ↦ rw e kept
        | inr e ↦ elim (Bool-cases (is_some (look (c ∷ up) made))) [
          | inl y ↦ rw (e, y) kept
          | inr n ↦
              rw (e, n, look-put p (c ∷ up) [] made) (ground (arith, eq_path_iff (c ∷ up) p, kept))
        ]
      ]

  look-make_folders :
      (path p : FilePath)
      → (make_folders faults path disk).1 ≡ true
      → look p (make_folders faults path disk).0 ≡ or_folder (look p disk) (is_above p path)
  unfolding make_folders
  look-make_folders [] p ok = sym (or_folder_old (look p disk))
  look-make_folders (c ∷ up) p ok =
      let made = (make_folders faults up disk).0 in
      elim (Bool-cases (not (make_folders faults up disk).1 || faults.mkdir (c ∷ up))) [
        | inl e ↦ absurd (ground arith)
        | inr e ↦
            let below = look-make_folders up p (ground arith) in
            elim (Bool-cases (is_some (look (c ∷ up) made))) [
              | inl y ↦ elim (Bool-cases (eq_path (c ∷ up) p)) [
                | inl same ↦
                    let at_p : is_some (look p made) ≡ true =
                      subst (λ q. is_some (look q made) ≡ true) ((eq_path_iff (c ∷ up) p).0 same)
                        y in
                    rw (e, y, same)
                      (below
                        ∙ or_folder_step (look p disk) (is_above p up)
                            (ap is_some (sym below) ∙ at_p))
                | inr other ↦ rw (e, y, other) below
              ]
              | inr n ↦ elim (Bool-cases (eq_path (c ∷ up) p)) [
                | inl same ↦
                    let at_p : is_some (look p made) ≡ false =
                      subst (λ q. is_some (look q made) ≡ false) ((eq_path_iff (c ∷ up) p).0 same)
                        n in
                    rw (e, n, look-put p (c ∷ up) [] made, same)
                      (or_folder_new (look p disk) (is_above p up) (ap is_some (sym below) ∙ at_p))
                | inr other ↦ rw (e, n, look-put p (c ∷ up) [] made, other) below
              ]
            ]
      ]

-- Nothing is there after the folders were made, so nothing was before.
was_free :
    (faults : Faults) (disk : Disk) (path p : FilePath)
    → look p (make_folders faults path disk).0 ≡ none
    → look p disk ≡ none
was_free faults disk path p h = elim (Option-cases (look p disk)) [
  | inl e ↦ e
  | inr (bytes, e) ↦ absurd (ground (arith, h, make_folders_keeps faults disk path p bytes e))
]

-- Create, if it opens a file: its final path is a plain name directly in the folder, and neither that
-- path nor its partial file was there; the disk has gained the folder and those above it that were
-- not there, the empty partial file, and nothing else.
pub create_created :
    (faults : Faults) (disk : Disk) (root : FilePath) (name : Text) (after : Disk)
    (final : FilePath)
    → create faults disk root name ≡ (after, created final)
    → (c : Text) × (made : Disk) × (is_plain c ≡ true)
      × (final ≡ c ∷ clean root)
      × (look final disk ≡ none)
      × (look (part final) disk ≡ none)
      × ((p : FilePath) → look p made ≡ or_folder (look p disk) (is_above p (clean root)))
      × (after ≡ put (part final) [] made)
unfolding create
create_created faults disk root name after final h = elim (Option-cases (safe_name name)) [
  | inl e ↦ absurd (ground arith)
  | inr (safe, e) ↦
      let made = (make_folders faults (clean root) disk).0 in
      elim (Bool-cases (make_folders faults (clean root) disk).1) [
        | inr stopped ↦ absurd (ground arith)
        | inl ok ↦
            let loop : try_names faults made root safe (suc max_collisions) 0
                ≡ (after, created final) =
              ground arith in
            let (k, a, b, n, f, p, d) =
              try_names_created faults made root safe (suc max_collisions) 0 loop in
            let plain = candidate_plain safe k (safe_name-IsSafe name safe e).plain in
            (
              candidate safe k,
              made,
              plain,
              n ∙ join-plain root (candidate safe k) plain,
              was_free faults disk (clean root) final f,
              was_free faults disk (clean root) (part final) p,
              λ q. look-make_folders faults disk (clean root) q ok,
              d,
            )
      ]
]

-- Create, if it refuses, leaves what was on the disk as it was.
pub create_refused :
    (faults : Faults) (disk : Disk) (root : FilePath) (name : Text) (after : Disk) (x : CreateError)
    → create faults disk root name ≡ (after, refused x)
    → (p : FilePath) (bytes : List ℕ) → look p disk ≡ some bytes
    → look p after ≡ some bytes
unfolding create
create_refused faults disk root name after x h p bytes l = elim (Option-cases (safe_name name)) [
  | inl e ↦ let same : disk ≡ after = ground arith in rw (← same) l
  | inr (safe, e) ↦
      let made = (make_folders faults (clean root) disk).0 in
      let kept = make_folders_keeps faults disk (clean root) p bytes l in
      elim (Bool-cases (make_folders faults (clean root) disk).1) [
        | inr stopped ↦ let same : made ≡ after = ground arith in rw (← same) kept
        | inl ok ↦
            let same : after ≡ made =
              try_names_refused faults made root safe (suc max_collisions) 0 {x = x}
                (ground arith) in
            rw same kept
      ]
]

-- "Too many collisions" is said only where each of the 100 candidates for the safe name is the
-- path of a file that is there once the folders are, finished or partial.
pub create_full :
    (faults : Faults) (disk : Disk) (root : FilePath) (name : Text) (after : Disk)
    → create faults disk root name ≡ (after, refused too_many_collisions)
    → (safe : Text) × (safe_name name ≡ some safe)
      × ((k : ℕ)
          → k < 100
          → IsTaken (make_folders faults (clean root) disk).0 (join root (candidate safe k)))
unfolding create
create_full faults disk root name after h = elim (Option-cases (safe_name name)) [
  | inl e ↦ absurd (ground arith)
  | inr (safe, e) ↦
      let made = (make_folders faults (clean root) disk).0 in
      elim (Bool-cases (make_folders faults (clean root) disk).1) [
        | inr stopped ↦ absurd (ground arith)
        | inl ok ↦
            let loop : try_names faults made root safe (suc max_collisions) 0
                ≡ (after, refused too_many_collisions) =
              ground arith in
            (
              safe,
              e,
              λ k l.
                  try_names_full faults made root safe (suc max_collisions) 0 loop k (omega arith)
                    l,
            )
      ]
]

module _ (faults : Faults) (disk : Disk) (root : FilePath)
    (top : is_empty (clean root) ≡ false) where
  within-join : (c : Text) → is_plain c ≡ true → within root (join root c) ≡ true
  unfolding within
  within-join c p = ground (arith, is_under-join root c p)

  probe_plain :
      (c : Text) → is_plain c ≡ true → probe faults disk root (join root c) ≢ failed bad_name
  unfolding probe
  probe_plain c p h = ground (arith, within-join c p)

  try_names_plain :
      (safe : Text) (left i : ℕ)
      → is_plain safe ≡ true
      → (try_names faults disk root safe left i).1 ≢ refused bad_name
  unfolding try_names
  try_names_plain safe zero i p h = cc
  try_names_plain safe (suc left) i p h =
      let never = probe_plain (candidate safe i) (candidate_plain safe i p) in
      elim (Probe-cases (probe faults disk root (join root (candidate safe i)))) [
        | inl e ↦ try_names_plain safe left (i + 1) p (rw e at h)
        | inr (inl e) ↦ absurd (ground arith)
        | inr (inr (y, e)) ↦ absurd (ground (arith, never))
      ]

-- Create answers "bad name" exactly for a name that SafeName refuses: where the folder is not the
-- top of the file system, no candidate for a safe name fails the check that it lies inside.
pub create_bad_name :
    (faults : Faults) (disk : Disk) (root : FilePath) (top : is_empty (clean root) ≡ false)
    (name : Text)
    → ((create faults disk root name).1 ≡ refused bad_name) ↔ (safe_name name ≡ none)
unfolding create
create_bad_name faults disk root top name = (only, λ e. rw e)
  where
    only : (create faults disk root name).1 ≡ refused bad_name → safe_name name ≡ none
    only h = elim (Option-cases (safe_name name)) [
      | inl e ↦ e
      | inr (safe, e) ↦
          let plain = (safe_name-IsSafe name safe e).plain in
          let made = (make_folders faults (clean root) disk).0 in
          let never = try_names_plain faults made root top safe (suc max_collisions) 0 plain in
          absurd (ground (arith, never))
    ]
