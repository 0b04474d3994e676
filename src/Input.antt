-- ===== src/Input.antt =====
-- host-agent/internal/input/handler.go and message.go: the viewer's input, and what is held down.
-- A float64 is its bit pattern: the handler only stores positions and passes them on.
pub mod Keys
pub mod Held
pub mod Release
pub mod Keycodes
pub mod Mac
mod Examples
mod MacExamples
use freedesk.Prelude.{
  ℕ, zero, suc, Bool, true, false, not, List, [], ◌∷◌, ◌++◌, Option, none, some, Text, any, eq_text,
  ℤ, pos, negsuc, if◌then◌else◌, map, ltb,
}

-- The values of `t`; `other` is every string that Handle has no case for.
pub data Kind : Type 0 where
  move down up wheel key_down key_up other : Kind

pub record Message : Type 0 where
  pub t : Kind
  pub x : ℕ
  pub y : ℕ
  pub b : ℤ
  pub dx : ℤ
  pub dy : ℤ
  pub code : Text

-- The calls of the injector.
pub data Call : Type 0 where
  move_mouse : ℕ → ℕ → Call
  click_mouse : ℕ → Bool → ℕ → ℕ → Call
  scroll_wheel : ℤ → ℤ → Call
  press_key : Text → Bool → Call

-- `buttons`, by protocol code.
pub record Buttons : Type 0 where
  pub left : Bool
  pub right : Bool
  pub middle : Bool

pub record Handler : Type 0 where
  pub keys : List Text
  pub key_set : List Text
  pub buttons : Buttons
  pub last_x : ℕ
  pub last_y : ℕ

unfoldable pub new_handler : Handler
new_handler = record {
  keys = [];
  key_set = [];
  buttons = record { left = false; right = false; middle = false };
  last_x = 0;
  last_y = 0;
}

unfoldable pub has : List Text → Text → Bool
has keys code = any (λ k. eq_text k code) keys

-- `delete` of the map.
unfoldable pub delete : Text → List Text → List Text
delete code [] = []
delete code (k ∷ ks) = let rest = delete code ks in if eq_text k code then rest else k ∷ rest

-- The loop of forgetKey, which ends at the first match.
unfoldable pub remove : Text → List Text → List Text
remove code [] = []
remove code (k ∷ ks) = let rest = remove code ks in if eq_text k code then ks else k ∷ rest

unfoldable pub forget_key : Handler → Text → Handler
forget_key h code =
    if not (has h.key_set code)
    then h
    else record h { key_set = delete code h.key_set; keys = remove code h.keys }

unfoldable pub track_key : Handler → Text → Handler
track_key h code =
    if has h.key_set code
    then h
    else record h { key_set = code ∷ h.key_set; keys = h.keys ++ (code ∷ []) }

unfoldable pub button_at : Buttons → ℕ → Bool
button_at bs zero = bs.left
button_at bs (suc zero) = bs.right
button_at bs (suc (suc zero)) = bs.middle
button_at bs (suc (suc (suc n))) = false

unfoldable pub set_button : ℕ → Bool → Buttons → Buttons
set_button zero v bs = record bs { left = v }
set_button (suc zero) v bs = record bs { right = v }
set_button (suc (suc zero)) v bs = record bs { middle = v }
set_button (suc (suc (suc n))) v bs = bs

-- validButton, and the button as an index.
abbrev pub valid_button : ℤ → Option ℕ
valid_button (pos n) = if ltb n 3 then some n else none
valid_button (negsuc n) = none

abbrev pub click : Handler → Message → Bool → Option ℕ → Handler × List Call
click h m v none = (h, [])
click h m v (some b) = (
  record h { last_x = m.x; last_y = m.y; buttons = set_button b v h.buttons },
  click_mouse b v m.x m.y ∷ [],
)

abbrev pub handle_kind : Handler → Message → Kind → Handler × List Call
handle_kind h m move = (record h { last_x = m.x; last_y = m.y }, move_mouse m.x m.y ∷ [])
handle_kind h m down = click h m true (valid_button m.b)
handle_kind h m up = click h m false (valid_button m.b)
handle_kind h m wheel = (h, scroll_wheel m.dx m.dy ∷ [])
handle_kind h m key_down = (track_key h m.code, press_key m.code true ∷ [])
handle_kind h m key_up = (forget_key h m.code, press_key m.code false ∷ [])
handle_kind h m other = (h, [])

-- Handle, for what Parse made of the bytes.
unfoldable pub handle : Handler → Option Message → Handler × List Call
handle h none = (h, [])
handle h (some m) = handle_kind h m m.t

-- slices.Backward
unfoldable pub backward : List Text → List Text
backward [] = []
backward (k ∷ ks) = backward ks ++ (k ∷ [])

abbrev pub release_key : Text → Call
release_key code = press_key code false

abbrev pub release_button : Handler → ℕ → Bool → List Call
release_button h b true = click_mouse b false h.last_x h.last_y ∷ []
release_button h b false = []

unfoldable pub release_all : Handler → Handler × List Call
release_all h = (
  record h {
    keys = [];
    key_set = [];
    buttons = record { left = false; right = false; middle = false };
  },
  map release_key (backward h.keys)
      ++ (release_button h 0 h.buttons.left
          ++ (release_button h 1 h.buttons.right ++ release_button h 2 h.buttons.middle)),
)

abbrev pub and_then : List Call → Handler × List Call → Handler × List Call
and_then calls (h, more) = (h, calls ++ more)

-- A handler over the messages of a session, and the calls it makes, in their order.
unfoldable pub run : Handler → List (Option Message) → Handler × List Call
run h [] = (h, [])
run h (m ∷ ms) = let (h', calls) = handle h m in and_then calls (run h' ms)
