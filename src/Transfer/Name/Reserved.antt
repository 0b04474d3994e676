-- ===== src/Transfer/Name/Reserved.antt =====
-- name.go: where the device names are kept out, and where they are not.
use freedesk.Prelude.{◌≤◌, ◌≡◌, false, some, arith, Text, byte_len, trim_right, trim_space}
use freedesk.Transfer.Name.{
  max_name_bytes, is_dot_or_space, is_reserved, is_plain, finish_name, safe_name,
}

finish_name_short :
    (name n : Text)
    → byte_len name ≤ max_name_bytes
    → finish_name name ≡ some n
    → (n ≡ name) × (is_reserved n ≡ false)
unfolding finish_name is_plain
finish_name_short name n h e = ground arith

-- From an input whose trimmed form is at most 200 bytes long, SafeName gives that trimmed form
-- unchanged, and never a name whose part before the first dot is a device name.
pub safe_name_short :
    (raw name : Text)
    → byte_len (trim_right is_dot_or_space (trim_space raw)) ≤ max_name_bytes
    → safe_name raw ≡ some name
    → (name ≡ trim_right is_dot_or_space (trim_space raw)) × (is_reserved name ≡ false)
unfolding safe_name
safe_name_short raw name h e =
    finish_name_short (trim_right is_dot_or_space (trim_space raw)) name h (ground arith)
