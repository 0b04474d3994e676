-- ===== src/Input/Examples.antt =====
-- The theorems about the input handler, at concrete inputs.
use freedesk.Prelude.{ℕ, ◌≡◌, false, List, [], ◌∷◌, ◌++◌, Option, some, Text, text, pos, refl}
use freedesk.Input.{Kind, Message, new_handler, has, run, release_all, handle, track_key}
use freedesk.Input.Held.{is_key_down, is_button_down}
use freedesk.Input.Release.{run-release_all}

abbrev shift : Message
shift = record {
  t = Kind.key_down;
  x = 0;
  y = 0;
  b = pos 0;
  dx = pos 0;
  dy = pos 0;
  code = text "ShiftLeft";
}

abbrev right_button : Message
right_button = record shift { t = Kind.down; b = pos 1 }

-- A key that repeats, and a button.
abbrev pressed : List (Option Message)
pressed = some shift ∷ some shift ∷ some right_button ∷ []

one_key : (run new_handler pressed).0.keys ≡ text "ShiftLeft" ∷ []
unfolding run new_handler handle track_key has
one_key = refl

run-release_all_example :
    let (h, calls) = run new_handler pressed in
    let all = calls ++ (release_all h).1 in
    ((k : Text) → is_key_down false k all ≡ false)
    × ((b : ℕ) → is_button_down false b all ≡ false)
    × ((release_all (release_all h).0).1 ≡ [])
run-release_all_example = run-release_all pressed
