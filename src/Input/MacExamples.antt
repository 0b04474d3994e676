-- ===== src/Input/MacExamples.antt =====
-- The theorems about the Mac's injector, at concrete inputs.
use freedesk.Prelude.{
  ℕ, ◌≡◌, refl, Bool, true, false, List, [], ◌∷◌, ◌++◌, Option, some, text, pos, map, none, ◌*◌,
}
use freedesk.Input.{
  Kind, Message, Call, press_key, click_mouse, new_handler, button_at, run, release_all, handle,
  backward, track_key, forget_key, has, set_button,
}
use freedesk.Input.Mac.{Env, new_cg_input, inject_all, member}
use freedesk.Input.Mac.Access.{Permitted, new_cg_input-Permitted}
use freedesk.Input.Mac.Released.{inject_all-released}

abbrev second : ℕ
second = 1000000000

abbrev at_second : ℕ → Bool → Env
at_second t allowed = record {
  now = t * second;
  allowed = allowed;
  point = (10, 20);
  near = false;
  double_click = 500000000;
}

abbrev command : Message
command = record {
  t = Kind.key_down;
  x = 0;
  y = 0;
  b = pos 0;
  dx = pos 0;
  dy = pos 0;
  code = text "MetaLeft";
}

-- ⌘C and the left button, and the session ends.
abbrev messages : List (Option Message)
messages =
    some command
    ∷ some (record command { code = text "KeyC" })
    ∷ some (record command { t = Kind.down })
    ∷ []

-- macOS refuses at first.
abbrev calls : List (Env × Call)
calls =
    (at_second 0 false, press_key (text "MetaLeft") true)
    ∷ (at_second 1 false, press_key (text "KeyC") true)
    ∷ (at_second 2 true, click_mouse 0 true 0 0)
    ∷ (at_second 3 true, press_key (text "KeyC") false)
    ∷ (at_second 70 false, press_key (text "MetaLeft") false)
    ∷ (at_second 71 false, click_mouse 0 false 0 0)
    ∷ []

calls_of_messages :
    map (λ c. c.1) calls
    ≡ (run new_handler messages).1 ++ (release_all (run new_handler messages).0).1
unfolding run new_handler handle release_all backward track_key forget_key has set_button
calls_of_messages = refl

new_cg_input-Permitted_example : Permitted none none (inject_all new_cg_input calls).1
new_cg_input-Permitted_example = new_cg_input-Permitted calls

inject_all-released_example :
    let i = (inject_all new_cg_input calls).0 in
    ((kc : ℕ) → (member kc i.mods ≡ false) × (member kc i.keys ≡ false))
    × ((b : ℕ) → button_at i.buttons b ≡ false)
inject_all-released_example = inject_all-released messages calls calls_of_messages
