-- ===== src/Input/Mac/Released.antt =====
-- input/inject_darwin.go under input/handler.go: what is noted as held is what the calls have down.
use freedesk.Prelude.{
  ℕ, zero, suc, ◌≡◌, refl, ap, ◌∙◌, sym, Bool, true, false, ◌&&◌, List, [], ◌∷◌, ◌++◌, Option,
  if◌then◌else◌, ◌==◌, arith, Bool-cases, inl, inr, ltb, map, Text,
}
use freedesk.Input.{
  Message, Call, move_mouse, click_mouse, scroll_wheel, press_key, Buttons, button_at, set_button,
  run, new_handler, release_all,
}
use freedesk.Input.Held.{
  is_key_down, is_button_down, is_key_down-append, is_button_down-append, keys_after, buttons_after,
  button_at-set_button,
}
use freedesk.Input.Release.{run-release_all}
use freedesk.Input.Keycodes.{code_to_keycode}
use freedesk.Input.Mac.{
  Env, CgInput, new_cg_input, move_to, click_at, scroll_axes, scrolled, inject, next_count, is_zero,
  Effect, inject_all, member, ℤ,
}
use freedesk.Input.Mac.Members.{Holds, post-Holds}
use freedesk.Input.Mac.Noted.{IsDown, Noted, same-Noted, press_key-Noted}

if-Holds :
    (b : Bool) (i : CgInput) (c d : CgInput × List Effect)
    → Holds c.0 i.mods i.keys i.buttons
    → Holds d.0 i.mods i.keys i.buttons
    → Holds (if b then c else d).0 i.mods i.keys i.buttons
if-Holds true i c d h g = h
if-Holds false i c d h g = g

move_to-Holds : (env : Env) (i : CgInput) → Holds (move_to env i).0 i.mods i.keys i.buttons
unfolding move_to
move_to-Holds env i = if-Holds i.buttons.left i _ _ (post-Holds env i _) (
    if-Holds i.buttons.right i _ _ (post-Holds env i _)
      (if-Holds i.buttons.middle i _ _ (post-Holds env i _) (post-Holds env i _)))

click_at-Holds :
    (env : Env) (i : CgInput) (b : ℕ) (down : Bool)
    → Holds (click_at env i b down).0 i.mods i.keys i.buttons
unfolding click_at
click_at-Holds env i b false = post-Holds env i _
click_at-Holds env i b true =
    let count = next_count env i.last_click b in
    post-Holds env (record i { last_click = record { button = b; at = env.now; count = count } }) _

scrolled-Holds :
    (env : Env) (i : CgInput) (v h : ℤ) → Holds (scrolled env i (v, h)).0 i.mods i.keys i.buttons
scrolled-Holds env i v h =
    if-Holds (is_zero v && is_zero h) i _ _ (refl, refl, refl) (post-Holds env i _)

still_down :
    (same down held pressed : Bool)
    → (held ≡ true → pressed ≡ true)
    → (if same then down else held) ≡ true
    → (if same then down else pressed) ≡ true
still_down true down held pressed f h = h
still_down false down held pressed f h = f h

no_button : (b a : ℕ) (bs : Buttons) → ltb b 3 ≡ false → button_at bs a ≡ true → (b == a) ≡ false
unfolding button_at
no_button b zero bs g h = ground arith
no_button b (suc zero) bs g h = ground arith
no_button b (suc (suc zero)) bs g h = ground arith
no_button b (suc (suc (suc a))) bs g h = cc

clicked-Noted :
    (env : Env) (i : CgInput) (key : Text → Bool) (button : ℕ → Bool) (b : ℕ) (down : Bool)
    (x y : ℕ)
    → Noted i key button
    → Noted (inject env i (click_mouse b down x y)).0 key (λ a. if b == a then down else button a)
unfolding inject
clicked-Noted env i key button b down x y n = elim (Bool-cases (ltb b 3)) [
  | inl l ↦
      let j : CgInput = record i { position = env.point; buttons = set_button b down i.buttons } in
      let (m, k, s) = click_at-Holds env j b down in
      rw l (
        same-Noted i (click_at env j b down).0 key button _ m k
          (λ a h. still_down (b == a) down (button_at i.buttons a) (button a) (n.buttons a) (
            sym (button_at-set_button b down i.buttons a (ground arith))
            ∙ sym (ap (λ t. button_at t a) s)
            ∙ h))
          n)
  | inr g ↦ rw g (
      same-Noted i i key button _ refl refl
        (λ a h.
          still_down (b == a) down (button_at i.buttons a) (button a) (n.buttons a)
            (rw (no_button b a i.buttons g h) h))
        n)
]

Noted-same :
    (i : CgInput) (key key' : Text → Bool) (button button' : ℕ → Bool)
    → ((k : Text) → key k ≡ key' k)
    → ((b : ℕ) → button b ≡ button' b)
    → Noted i key button
    → Noted i key' button'
Noted-same i key key' button button' e f n = record {
  legal = n.legal;
  mods = λ kc h. let (t, c, y) = n.mods kc h in (t, c, sym (e t) ∙ y);
  keys = λ kc h. let (t, c, y) = n.keys kc h in (t, c, sym (e t) ∙ y);
  buttons = λ b h. sym (f b) ∙ n.buttons b h;
}

inject-Noted :
    (env : Env) (i : CgInput) (key : Text → Bool) (button : ℕ → Bool) (c : Call)
    → Noted i key button
    → Noted (inject env i c).0 (keys_after key (c ∷ [])) (buttons_after button (c ∷ []))
unfolding is_key_down is_button_down
inject-Noted env i key button (click_mouse b down x y) n =
    clicked-Noted env i key button b down x y n
inject-Noted env i key button (move_mouse x y) n =
    let (m, k, s) = move_to-Holds env (record i { position = env.point }) in
    unfold inject in
    same-Noted i _ key button button m k (λ b h. n.buttons b (sym (ap (λ t. button_at t b) s) ∙ h))
      n
inject-Noted env i key button (scroll_wheel dx dy) n =
    let (v, h) = scroll_axes dx dy in
    let (m, k, s) = scrolled-Holds env i v h in
    unfold inject in
    same-Noted i (scrolled env i (v, h)).0 key button button m k
      (λ b e. n.buttons b (sym (ap (λ t. button_at t b) s) ∙ e)) n
inject-Noted env i key button (press_key c down) n =
    unfold inject in press_key-Noted env i key button c down (code_to_keycode c) refl n

abbrev calls_of : List (Env × Call) → List Call
calls_of cs = map (λ c. c.1) cs

inject_all-Noted :
    (i : CgInput) (key : Text → Bool) (button : ℕ → Bool) (cs : List (Env × Call))
    → Noted i key button
    → Noted (inject_all i cs).0 (keys_after key (calls_of cs)) (buttons_after button (calls_of cs))
unfolding inject_all is_key_down is_button_down
inject_all-Noted i key button [] n = n
inject_all-Noted i key button ((env, c) ∷ cs) n =
    Noted-same (inject_all (inject env i c).0 cs).0 _ (keys_after key (c ∷ calls_of cs)) _
      (buttons_after button (c ∷ calls_of cs))
      (λ k. sym (is_key_down-append (key k) k (c ∷ []) (calls_of cs)))
      (λ b. sym (is_button_down-append (button b) b (c ∷ []) (calls_of cs)))
      (inject_all-Noted (inject env i c).0 (keys_after key (c ∷ [])) (buttons_after button (c ∷ []))
        cs (inject-Noted env i key button c n))

new_cg_input-Noted : Noted new_cg_input (λ k. false) (λ b. false)
unfolding new_cg_input member button_at
new_cg_input-Noted = record {
  legal = (λ k h. absurd (cc), λ k h. absurd (cc));
  mods = λ k h. absurd (cc);
  keys = λ k h. absurd (cc);
  buttons = none_pressed;
}
  where
    none_pressed : (b : ℕ) → button_at new_cg_input.buttons b ≡ true → false ≡ true
    none_pressed zero h = h
    none_pressed (suc zero) h = h
    none_pressed (suc (suc zero)) h = h
    none_pressed (suc (suc (suc b))) h = h

not_noted : (b : Bool) → (b ≡ true → ⊥) → b ≡ false
not_noted true n = absurd (n refl)
not_noted false n = refl

-- Whatever messages come from the viewer, with ReleaseAll at the end, and whenever the calls that the
-- handler makes for them reach the Mac, wherever the pointer is, and whatever macOS answers: the
-- injector is left with no modifier, no other key and no mouse button that it takes for held.
pub inject_all-released :
    (ms : List (Option Message)) (cs : List (Env × Call))
    → map (λ c. c.1) cs ≡ (run new_handler ms).1 ++ (release_all (run new_handler ms).0).1
    → let i = (inject_all new_cg_input cs).0 in
      ((kc : ℕ) → (member kc i.mods ≡ false) × (member kc i.keys ≡ false))
      × ((b : ℕ) → button_at i.buttons b ≡ false)
inject_all-released ms cs e =
    let (no_key, no_button_down, _) = run-release_all ms in
    let n = inject_all-Noted new_cg_input (λ k. false) (λ b. false) cs new_cg_input-Noted in
    let none_down : (kc : ℕ) → IsDown (keys_after (λ k. false) (calls_of cs)) kc → ⊥ = λ kc d.
      let (t, _, y) = d in
      let z : true ≡ false = sym y ∙ (ap (is_key_down false t) e ∙ no_key t) in absurd (cc) in
    (
      λ kc. (
        not_noted _ (λ h. none_down kc (n.mods kc h)),
        not_noted _ (λ h. none_down kc (n.keys kc h)),
      ),
      λ b. not_noted _ (λ h.
          let z : true ≡ false =
            sym (n.buttons b h) ∙ (ap (is_button_down false b) e ∙ no_button_down b) in
          absurd (cc)),
    )
