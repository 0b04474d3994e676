-- ===== src/Clipboard.antt =====
-- host-agent/internal/clipboard/sync.go: the clipboard that a session shares. A text is its bytes.
-- The system's clipboard, which other programs write too, is part of the state; every change of it
-- carries the number that it gives.
pub mod Runes
pub mod World
pub mod Numbers
pub mod Given
mod Examples
use freedesk.Prelude.{
  ℕ, zero, suc, ◌/◌, ◌*◌, Bool, false, not, ◌&&◌, ◌||◌, List, [], ◌∷◌, ◌++◌, Option, none, some,
  Text, text, true, eq_text, is_empty, length, take, get_or, if◌then◌else◌, ltb, leb, ◌==◌,
}
use freedesk.Transfer.Paths.{FilePath}

abbrev pub Bytes : Type 0
Bytes = List ℕ

abbrev pub max_text_bytes : ℕ
max_text_bytes = 256 * 1024

-- utf8.RuneStart
unfoldable pub is_rune_start : ℕ → Bool
is_rune_start b = not (b / 64 == 2)

-- The loop of truncateUTF8. Its index is always within the text.
unfoldable pub back_to_start : Bytes → ℕ → ℕ
back_to_start s zero = zero
back_to_start s (suc n) =
    let rest = back_to_start s n in if is_rune_start (get_or s (suc n) 0) then suc n else rest

unfoldable pub truncate_utf8 : Bytes → ℕ → Bytes
truncate_utf8 s n = if leb (length s) n then s else take (back_to_start s n) s

-- What is on the clipboard: Excluded, ReadFiles and ReadText, where they have something.
pub record Content : Type 0 where
  pub excluded : Bool
  pub files : Option (List FilePath)
  pub text : Option Bytes

pub record Board : Type 0 where
  pub sequence : ℕ
  pub content : Content

pub record Sync : Type 0 where
  pub own_seq : ℕ
  pub last_seq : ℕ
  pub last_applied : Bytes
  pub stopped : Bool

pub record Msg : Type 0 where
  pub t : Text
  pub text : Bytes
  pub trunc : Bool

pub data Effect : Type 0 where
  sends : Msg → Effect
  on_files : List FilePath → Effect

-- NewSync, with the job that takes the number of what is there already. `opens` is whether the
-- worker starts.
unfoldable pub new_sync : Text → Bool → Board → Option Sync
new_sync mode opens b =
    if eq_text mode (text "text") && opens
    then some (record { own_seq = 0; last_seq = b.sequence; last_applied = []; stopped = false })
    else none

abbrev pub cut : Bytes → Msg
cut s =
    if ltb max_text_bytes (length s)
    then record { t = text "cb"; text = truncate_utf8 s max_text_bytes; trunc = true }
    else record { t = text "cb"; text = s; trunc = false }

abbrev pub offer_text : Bytes → Option Bytes → List Effect
offer_text last_applied none = []
offer_text last_applied (some s) =
    if is_empty s || eq_text s last_applied then [] else sends (cut s) ∷ []

abbrev pub offer_first : Bytes → Option (List FilePath) → Option Bytes → List Effect
offer_first last_applied none s = offer_text last_applied s
offer_first last_applied (some paths) s = on_files paths ∷ []

-- What poll does with a change. `shares_files` is whether OnFiles was called.
unfoldable pub offer : Bool → Bytes → Content → List Effect
offer shares_files last_applied c =
    if c.excluded
    then []
    else offer_first last_applied (if shares_files then c.files else none) c.text

-- What the reads give: nothing of what could not be read.
abbrev pub readable : Bool → Bool → Content → Content
readable files_read text_read c = record c {
  files = if files_read then c.files else none;
  text = if text_read then c.text else none;
}

-- `c` is what the reads give.
unfoldable pub poll : Bool → Sync → ℕ → Content → Sync × List Effect
poll shares_files s seq c =
    if seq == s.last_seq
    then (s, [])
    else if seq == s.own_seq
    then (record s { last_seq = seq }, [])
    else (record s { last_seq = seq }, offer shares_files s.last_applied c)

-- What a write comes to: an error, or the number that is read back after it and what is on the
-- clipboard then.
pub data Written : Type 0 where
  failed : Written
  written : ℕ → Content → Written

abbrev pub own : ℕ → Sync → Sync
own seq s = record s { own_seq = seq; last_seq = seq }

-- The guards of Handle. A message that does not parse is absent.
unfoldable pub accepts : Bool → Bytes → Option Msg → Option Bytes
accepts stopped last_applied none = none
accepts stopped last_applied (some m) =
    if not (eq_text m.t (text "cb"))
    then none
    else if is_empty m.text || ltb max_text_bytes (length m.text)
    then none
    else if stopped || eq_text m.text last_applied
    then none
    else some m.text

abbrev pub apply_text : Sync → Board → Option Bytes → Written → Sync × Board
apply_text s b none w = (s, b)
apply_text s b (some t) failed = (s, b)
apply_text s b (some t) (written seq c) = (
  record s { own_seq = seq; last_seq = seq; last_applied = t },
  record { sequence = seq; content = c },
)

unfoldable pub handle : Sync → Board → Option Msg → Written → Sync × Board
handle s b m w = apply_text s b (accepts s.stopped s.last_applied m) w

abbrev pub apply_files : Sync → Board → Written → Sync × Board
apply_files s b failed = (s, b)
apply_files s b (written seq c) = (own seq s, record { sequence = seq; content = c })

-- A worker that has stopped does no job.
unfoldable pub put_files : Sync → Board → List FilePath → Written → Sync × Board
put_files s b paths w =
    let done = apply_files s b w in if is_empty paths || s.stopped then (s, b) else done

abbrev pub stop : Sync → Sync
stop s = record s { stopped = true }
