-- ===== src/Session/InputExamples.antt =====
-- The theorem about the input gate, at a concrete input.
use freedesk.Prelude.{
  ℕ, ◌≡◌, refl, true, false, List, [], ◌∷◌, ◌++◌, Option, some, Text, text, pos, All,
}
use freedesk.Input.{
  Kind, Message, press_key, new_handler, handle, release_all, track_key, has, backward,
}
use freedesk.Input.Held.{is_key_down, is_button_down}
use freedesk.Session.InputGate.{apply_input, apply_all, is_release, apply_input_busy}

abbrev control : Message
control = record {
  t = Kind.key_down;
  x = 0;
  y = 0;
  b = pos 0;
  dx = pos 0;
  dy = pos 0;
  code = text "ControlLeft";
}

-- A key goes down, and again while a question is up.
abbrev frames : List (ℕ × Option Message)
frames = (0, some control) ∷ []

lets_go :
    (apply_input 1 (apply_all new_handler frames).0 (some control)).1
    ≡ press_key (text "ControlLeft") false ∷ []
unfolding apply_input apply_all new_handler handle release_all track_key has backward
lets_go = refl

apply_input_busy_example :
    let (h, calls) = apply_all new_handler frames in
    let more = (apply_input 1 h (some control)).1 in
    All (λ c. is_release c ≡ true) more
    × ((k : Text) → is_key_down false k (calls ++ more) ≡ false)
    × ((b : ℕ) → is_button_down false b (calls ++ more) ≡ false)
apply_input_busy_example = apply_input_busy frames 0 (some control)
