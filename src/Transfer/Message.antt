-- ===== src/Transfer/Message.antt =====
-- host-agent/internal/transfer/message.go: the control frames and what makes one valid.
pub mod Valid
use freedesk.Prelude.{
  ℕ, Bool, true, false, not, ◌&&◌, ◌||◌, List, [], ◌∷◌, Option, none, some, ltb, ◌==◌,
  if◌then◌else◌, Text, is_empty, length, ℤ, pos, ◌+ℤ◌, is_neg, is_pos, exceeds, all, eq_text,
}

-- The string `t`. `empty` is the empty string and `unknown` any other that is none of the types.
pub data Kind : Type 0 where
  request offer accept reject complete done progress cancel error empty unknown : Kind

-- The string `reason`. `unset` stands for the empty string and for what no constant names; no
-- code of the host reads a reason that arrives.
pub data Reason : Type 0 where
  denied busy too_large bad_name no_space io gone no_fsa unset : Reason

-- The string `dir`.
pub data Dir : Type 0 where
  up down other : Dir

abbrev pub max_file_bytes : ℕ
max_file_bytes = 536870912

abbrev pub max_batch_files : ℕ
max_batch_files = 32

abbrev pub max_batch_bytes : ℕ
max_batch_bytes = 1073741824

abbrev pub max_session_files : ℕ
max_session_files = 200

abbrev pub max_session_bytes : ℕ
max_session_bytes = 4294967296

abbrev pub chunk_bytes : ℕ
chunk_bytes = 32768

pub record FileMeta : Type 0 where
  pub name : Text
  pub size : ℤ

pub record Msg : Type 0 where
  pub t : Kind
  pub id : Text
  pub files : List FileMeta
  pub index : ℤ
  pub size : ℤ
  pub sent : ℤ
  pub offset : ℤ
  pub dir : Dir
  pub reason : Reason
  pub clip : Bool

-- A frame with no field set but its type and id.
unfoldable pub frame : Kind → Text → Msg
frame k id = record {
  t = k;
  id = id;
  files = [];
  index = pos 0;
  size = pos 0;
  sent = pos 0;
  offset = pos 0;
  dir = other;
  reason = unset;
  clip = false;
}

-- The loop of TotalSize.
unfoldable pub total_from : ℤ → List FileMeta → ℤ
total_from total [] = total
total_from total (f ∷ fs) = total_from (total +ℤ f.size) fs

unfoldable pub total_size : List FileMeta → ℤ
unfolding total_from
total_size = total_from (pos 0)

abbrev pub is_zero : ℤ → Bool
is_zero (pos n) = n == 0
is_zero _ = false

abbrev is_direction : Dir → Bool
is_direction other = false
is_direction _ = true

abbrev sane_file : FileMeta → Bool
sane_file f = not (is_empty f.name) && is_pos f.size && not (exceeds f.size max_file_bytes)

unfoldable pub validate_offer : Msg → Bool
validate_offer m =
    not (is_empty m.id)
    && is_zero m.offset
    && is_direction m.dir
    && (not (is_empty m.files) && not (ltb max_batch_files (length m.files)))
    && all sane_file m.files
    && not (exceeds (total_size m.files) max_batch_bytes)

unfoldable pub validate_rest : Msg → Bool
validate_rest m = not (is_empty m.id) && not (is_neg m.size || is_neg m.sent || is_neg m.index)

-- The switch of `validate`; false is ErrBadMessage.
unfoldable pub validate_as : Kind → Msg → Bool
unfolding validate_offer validate_rest
validate_as empty m = false
validate_as offer m = validate_offer m
validate_as unknown m = true
validate_as request m = validate_rest m
validate_as accept m = validate_rest m
validate_as reject m = validate_rest m
validate_as complete m = validate_rest m
validate_as done m = validate_rest m
validate_as progress m = validate_rest m
validate_as cancel m = validate_rest m
validate_as error m = validate_rest m

unfoldable pub validate : Msg → Bool
unfolding validate_as
validate m = validate_as m.t m

pub data Parsed : Type 0 where
  parsed : Msg → Parsed
  not_json bad_message : Parsed

-- `decoded` is what json.Unmarshal makes of the frame, `none` its error.
unfoldable pub parse_msg : Option Msg → Parsed
parse_msg none = not_json
parse_msg (some m) = if validate m then parsed m else bad_message

unfoldable pub refuse : Text → Reason → Msg
unfolding frame
refuse id why = record (frame reject id) { reason = why }

unfoldable pub fail : Text → Reason → Msg
unfolding frame
fail id why = record (frame error id) { reason = why }
