-- ===== src/Consent.antt =====
-- host-agent/internal/consent/prompt.go: what the operator is asked, and console.go: the answer on the
-- console. The timeout is a number of whole seconds. Sizes are what a batch may have, far below 2^53
-- bytes, which a float64 holds as they are.
pub mod Listed
pub mod Sizes
mod Examples
use freedesk.Prelude.{
  ℕ, ◌+◌, ◌-◌, ◌*◌, ◌/◌, ◌%◌, ◌^◌, Bool, true, false, not, ◌&&◌, ◌||◌, List, [], ◌∷◌, ◌++◌, Option,
  none, some, Text, text, eq_text, byte_len, length, trim_space, if◌then◌else◌, ltb, leb, ◌==◌,
}
use freedesk.Config.Load.{first_bytes, to_lower}
use freedesk.Session.Approver.{Answer}
use freedesk.Transfer.Dest.{decimal}

pub data Kind : Type 0 where
  connect files : Kind

pub record FileOffer : Type 0 where
  pub name : Text
  pub size : ℕ

pub record Prompt : Type 0 where
  pub kind : Kind
  pub viewer_uid : Text
  pub offers : List FileOffer
  pub folder : Text
  pub clipboard : Bool

abbrev pub newline : Text
newline = 10 ∷ []

unfoldable pub number : ℕ → Text
unfolding decimal
number n = decimal 20 n

-- The nearest whole number to `a / b`, the even one of two.
unfoldable pub round_half_even : ℕ → ℕ → ℕ
round_half_even a b =
    let q = a / b in
    let r = a % b in if ltb (2 * r) b || ((2 * r == b) && (q % 2 == 0)) then q else q + 1

-- `%.1f` of a number of tenths.
unfoldable pub tenths : ℕ → Text
tenths t = number (t / 10) ++ (b'.' ∷ number (t % 10))

unfoldable pub human_size : ℕ → Text
human_size n =
    if leb (2 ^ 30) n
    then tenths (round_half_even (10 * n) (2 ^ 30)) ++ text " GB"
    else if leb (2 ^ 20) n
    then tenths (round_half_even (10 * n) (2 ^ 20)) ++ text " MB"
    else if leb (2 ^ 10) n
    then number (n / 2 ^ 10) ++ text " KB"
    else number n ++ text " bytes"

abbrev pub total_from : ℕ → List FileOffer → ℕ
total_from total [] = total
total_from total (f ∷ fs) = total_from (total + f.size) fs

unfoldable pub describe_batch : List FileOffer → Text
unfolding human_size
describe_batch fs =
    let size = human_size (total_from 0 fs) in
    if length fs == 1
    then text "1 file (" ++ (size ++ text ")")
    else number (length fs) ++ (text " files (" ++ (size ++ text ")"))

abbrev pub max_listed_files : ℕ
max_listed_files = 5

unfoldable pub file_line : Text → FileOffer → Text
file_line indent f =
    indent ++ (f.name ++ (text "  (" ++ (human_size f.size ++ (text ")" ++ newline))))

unfoldable pub more_line : Text → ℕ → Text
more_line indent n = indent ++ (text "… and " ++ (number n ++ (text " more files" ++ newline)))

-- The loop from index `i`, of `count` files.
unfoldable pub file_lines : Text → (count i : ℕ) → List FileOffer → Text
file_lines indent count i [] = []
file_lines indent count i (f ∷ fs) =
    let rest = file_lines indent count (i + 1) fs in
    if (i == max_listed_files) && ltb (max_listed_files + 1) count
    then more_line indent (count - max_listed_files)
    else file_line indent f ++ rest

unfoldable pub file_list : Text → List FileOffer → Text
unfolding file_lines
file_list indent fs = file_lines indent (length fs) 0 fs

unfoldable pub short_id : Text → Text
short_id uid = if ltb 8 (byte_len uid) then first_bytes 8 uid ++ text "…" else uid

-- What is written piece by piece.
abbrev pub joined : List Text → Text
joined [] = []
joined (t ∷ ts) = t ++ joined ts

abbrev pub question : Prompt → Kind → Text
question p connect = joined (
    text "Someone entered this computer's code and wants to connect."
    ∷ newline
    ∷ newline
    ∷ text "Allow them to see your screen, control this computer,"
    ∷ newline
    ∷ (if p.clipboard
        then text "exchange files with it, and share copied text?"
        else text "and exchange files with it?")
    ∷ newline
    ∷ newline
    ∷ [])
question p files = joined (
    text "The person connected to this computer wants to send "
    ∷ describe_batch p.offers
    ∷ text "."
    ∷ newline
    ∷ newline
    ∷ file_list (text "    ") p.offers
    ∷ newline
    ∷ text "They will be saved to:"
    ∷ newline
    ∷ p.folder
    ∷ newline
    ∷ newline
    ∷ text "Existing files are never replaced. Accept these files?"
    ∷ newline
    ∷ newline
    ∷ [])

-- Text, of a timeout in seconds.
unfoldable pub prompt_text : Prompt → ℕ → Text
prompt_text p timeout = joined (
    question p p.kind
    ∷ text "This request is rejected automatically in "
    ∷ number timeout
    ∷ text " seconds."
    ∷ newline
    ∷ text "(viewer "
    ∷ short_id p.viewer_uid
    ∷ text ")"
    ∷ [])

abbrev pub header : Prompt → Kind → Text
header p connect = joined (
    newline
    ∷ text ">>> INCOMING CONNECTION REQUEST (viewer="
    ∷ p.viewer_uid
    ∷ text ")"
    ∷ newline
    ∷ [])
header p files = joined (
    newline
    ∷ text ">>> INCOMING FILES (viewer="
    ∷ p.viewer_uid
    ∷ text "): "
    ∷ describe_batch p.offers
    ∷ newline
    ∷ file_list (text ">>>   ") p.offers
    ∷ text ">>> Saved to "
    ∷ p.folder
    ∷ newline
    ∷ [])

unfoldable pub console_header : Prompt → Text
console_header p = header p p.kind

unfoldable pub console_line : Prompt → ℕ → Text
unfolding console_header
console_line p timeout = joined (
    console_header p
    ∷ text ">>> Type 'y' and press Enter to accept (rejected if there is no answer within "
    ∷ number timeout
    ∷ text " s): "
    ∷ [])

abbrev pub title_of : Kind → Text
title_of connect = text "Connection request"
title_of files = text "Incoming files"

unfoldable pub title : Prompt → ℕ → Text
title p seq = text "FreeDesk - " ++ (title_of p.kind ++ (text " (#" ++ (number seq ++ text ")")))

-- How the wait of Console.ask ends: with a line, after the timeout, or withdrawn.
pub data Ended : Type 0 where
  typed : Text → Ended
  timed_out : Ended
  withdrawn : Ended

unfoldable pub console_answer : Ended → Answer
console_answer (typed line) =
    let answer = to_lower (trim_space line) in
    if eq_text answer (text "y") || eq_text answer (text "yes")
    then Answer.allowed
    else Answer.refused
console_answer timed_out = Answer.unanswered
console_answer withdrawn = Answer.refused
