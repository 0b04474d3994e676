-- ===== src/Input/Keycodes.antt =====
-- host-agent/internal/input/keys_darwin.go: the key codes of macOS.
use freedesk.Prelude.{
  ℕ, ◌==◌, Bool, ◌||◌, List, [], ◌∷◌, Option, none, some, Text, text, eq_text, if◌then◌else◌,
}

unfoldable pub keycode_map : List (Text × ℕ)
keycode_map =
    (text "KeyA", 0x00)
    ∷ (text "KeyB", 0x0B)
    ∷ (text "KeyC", 0x08)
    ∷ (text "KeyD", 0x02)
    ∷ (text "KeyE", 0x0E)
    ∷ (text "KeyF", 0x03)
    ∷ (text "KeyG", 0x05)
    ∷ (text "KeyH", 0x04)
    ∷ (text "KeyI", 0x22)
    ∷ (text "KeyJ", 0x26)
    ∷ (text "KeyK", 0x28)
    ∷ (text "KeyL", 0x25)
    ∷ (text "KeyM", 0x2E)
    ∷ (text "KeyN", 0x2D)
    ∷ (text "KeyO", 0x1F)
    ∷ (text "KeyP", 0x23)
    ∷ (text "KeyQ", 0x0C)
    ∷ (text "KeyR", 0x0F)
    ∷ (text "KeyS", 0x01)
    ∷ (text "KeyT", 0x11)
    ∷ (text "KeyU", 0x20)
    ∷ (text "KeyV", 0x09)
    ∷ (text "KeyW", 0x0D)
    ∷ (text "KeyX", 0x07)
    ∷ (text "KeyY", 0x10)
    ∷ (text "KeyZ", 0x06)
    ∷ (text "Digit1", 0x12)
    ∷ (text "Digit2", 0x13)
    ∷ (text "Digit3", 0x14)
    ∷ (text "Digit4", 0x15)
    ∷ (text "Digit5", 0x17)
    ∷ (text "Digit6", 0x16)
    ∷ (text "Digit7", 0x1A)
    ∷ (text "Digit8", 0x1C)
    ∷ (text "Digit9", 0x19)
    ∷ (text "Digit0", 0x1D)
    ∷ (text "Minus", 0x1B)
    ∷ (text "Equal", 0x18)
    ∷ (text "BracketLeft", 0x21)
    ∷ (text "BracketRight", 0x1E)
    ∷ (text "Backslash", 0x2A)
    ∷ (text "Semicolon", 0x29)
    ∷ (text "Quote", 0x27)
    ∷ (text "Backquote", 0x32)
    ∷ (text "Comma", 0x2B)
    ∷ (text "Period", 0x2F)
    ∷ (text "Slash", 0x2C)
    ∷ (text "IntlBackslash", 0x0A)
    ∷ (text "IntlYen", 0x5D)
    ∷ (text "IntlRo", 0x5E)
    ∷ (text "Enter", 0x24)
    ∷ (text "Tab", 0x30)
    ∷ (text "Space", 0x31)
    ∷ (text "Backspace", 0x33)
    ∷ (text "Escape", 0x35)
    ∷ (text "CapsLock", 0x39)
    ∷ (text "ShiftLeft", 0x38)
    ∷ (text "ShiftRight", 0x3C)
    ∷ (text "ControlLeft", 0x3B)
    ∷ (text "ControlRight", 0x3E)
    ∷ (text "AltLeft", 0x3A)
    ∷ (text "AltRight", 0x3D)
    ∷ (text "MetaLeft", 0x37)
    ∷ (text "MetaRight", 0x36)
    ∷ (text "Fn", 0x3F)
    ∷ (text "ContextMenu", 0x6E)
    ∷ (text "ArrowLeft", 0x7B)
    ∷ (text "ArrowRight", 0x7C)
    ∷ (text "ArrowDown", 0x7D)
    ∷ (text "ArrowUp", 0x7E)
    ∷ (text "Home", 0x73)
    ∷ (text "End", 0x77)
    ∷ (text "PageUp", 0x74)
    ∷ (text "PageDown", 0x79)
    ∷ (text "Insert", 0x72)
    ∷ (text "Delete", 0x75)
    ∷ (text "F1", 0x7A)
    ∷ (text "F2", 0x78)
    ∷ (text "F3", 0x63)
    ∷ (text "F4", 0x76)
    ∷ (text "F5", 0x60)
    ∷ (text "F6", 0x61)
    ∷ (text "F7", 0x62)
    ∷ (text "F8", 0x64)
    ∷ (text "F9", 0x65)
    ∷ (text "F10", 0x6D)
    ∷ (text "F11", 0x67)
    ∷ (text "F12", 0x6F)
    ∷ (text "F13", 0x69)
    ∷ (text "F14", 0x6B)
    ∷ (text "F15", 0x71)
    ∷ (text "F16", 0x6A)
    ∷ (text "F17", 0x40)
    ∷ (text "F18", 0x4F)
    ∷ (text "F19", 0x50)
    ∷ (text "F20", 0x5A)
    ∷ (text "Numpad0", 0x52)
    ∷ (text "Numpad1", 0x53)
    ∷ (text "Numpad2", 0x54)
    ∷ (text "Numpad3", 0x55)
    ∷ (text "Numpad4", 0x56)
    ∷ (text "Numpad5", 0x57)
    ∷ (text "Numpad6", 0x58)
    ∷ (text "Numpad7", 0x59)
    ∷ (text "Numpad8", 0x5B)
    ∷ (text "Numpad9", 0x5C)
    ∷ (text "NumpadDecimal", 0x41)
    ∷ (text "NumpadMultiply", 0x43)
    ∷ (text "NumpadAdd", 0x45)
    ∷ (text "NumpadDivide", 0x4B)
    ∷ (text "NumpadEnter", 0x4C)
    ∷ (text "NumpadSubtract", 0x4E)
    ∷ (text "NumpadEqual", 0x51)
    ∷ (text "NumpadComma", 0x5F)
    ∷ (text "NumLock", 0x47)
    ∷ []

unfoldable pub look_up : List (Text × ℕ) → Text → Option ℕ
look_up [] code = none
look_up ((name, kc) ∷ more) code = if eq_text name code then some kc else look_up more code

unfoldable pub code_to_keycode : Text → Option ℕ
unfolding keycode_map look_up
code_to_keycode code = look_up keycode_map code

abbrev pub kvk_right_command : ℕ
kvk_right_command = 0x36

abbrev pub kvk_command : ℕ
kvk_command = 0x37

abbrev pub kvk_caps_lock : ℕ
kvk_caps_lock = 0x39

-- The keys of `modifierFlags`: shift, control, option and command, left and right, and Fn.
unfoldable pub is_modifier : ℕ → Bool
is_modifier kc =
    kc == 0x38
    || kc == 0x3C
    || kc == 0x3B
    || kc == 0x3E
    || kc == 0x3A
    || kc == 0x3D
    || kc == kvk_command
    || kc == kvk_right_command
    || kc == 0x3F
