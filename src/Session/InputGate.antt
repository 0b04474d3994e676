-- ===== src/Session/InputGate.antt =====
-- host-agent/internal/session/inputgate.go: the viewer's input, while the operator is asked something.
use freedesk.Prelude.{
  ℕ, zero, suc, ◌≡◌, refl, sym, ◌∙◌, Bool, true, false, List, [], ◌∷◌, ◌++◌, Option, Text, All,
  All-append, if◌then◌else◌, map,
}
use freedesk.Input.{
  Message, Call, click_mouse, press_key, Handler, new_handler, has, button_at, handle, release_all,
  release_key, release_button, backward, and_then,
}
use freedesk.Input.Held.{
  is_key_down, is_button_down, is_key_down-append, is_button_down-append, Inv, keys_after,
  buttons_after, handle-Inv, Inv-same, new_handler-Inv,
}
use freedesk.Input.Release.{released_key, released_button}

-- `attention`, the number of questions in front of the operator.
abbrev pub is_busy : ℕ → Bool
is_busy zero = false
is_busy (suc n) = true

unfoldable pub apply_input : ℕ → Handler → Option Message → Handler × List Call
apply_input attention h o = if is_busy attention then release_all h else handle h o

-- The frames of a session, each with the number of questions when it comes.
unfoldable pub apply_all : Handler → List (ℕ × Option Message) → Handler × List Call
apply_all h [] = (h, [])
apply_all h ((n, o) ∷ fs) = let (h', calls) = apply_input n h o in and_then calls (apply_all h' fs)

-- A call that lets something go.
abbrev pub is_release : Call → Bool
is_release (press_key k v) = if v then false else true
is_release (click_mouse b v x y) = if v then false else true
is_release _ = false

none_held : (h : Handler) (k : Text) → has (release_all h).0.key_set k ≡ false
unfolding release_all has
none_held h k = refl

none_listed : (h : Handler) (k : Text) → has (release_all h).0.keys k ≡ false
unfolding release_all has
none_listed h k = refl

none_pressed : (h : Handler) (b : ℕ) → button_at (release_all h).0.buttons b ≡ false
unfolding release_all button_at
none_pressed h zero = refl
none_pressed h (suc zero) = refl
none_pressed h (suc (suc zero)) = refl
none_pressed h (suc (suc (suc b))) = refl

release_all-Inv :
    (h : Handler) (key : Text → Bool) (button : ℕ → Bool)
    → Inv h key button
    → let (after, calls) = release_all h in
      Inv after (keys_after key calls) (buttons_after button calls)
release_all-Inv h key button i = record {
  set = λ k. none_held h k ∙ sym (released_key h (key k) k (i.order k));
  order = λ k. none_listed h k ∙ sym (released_key h (key k) k (i.order k));
  once = unfold release_all in tt;
  pressed = λ b. none_pressed h b ∙ sym (released_button h (button b) b (i.pressed b));
}

apply_input-Inv :
    (n : ℕ) (h : Handler) (key : Text → Bool) (button : ℕ → Bool) (o : Option Message)
    → Inv h key button
    → let (after, calls) = apply_input n h o in
      Inv after (keys_after key calls) (buttons_after button calls)
unfolding apply_input
apply_input-Inv zero h key button o i = handle-Inv h key button o i
apply_input-Inv (suc n) h key button o i = release_all-Inv h key button i

apply_all-Inv :
    (h : Handler) (key : Text → Bool) (button : ℕ → Bool) (fs : List (ℕ × Option Message))
    → Inv h key button
    → let (after, calls) = apply_all h fs in
      Inv after (keys_after key calls) (buttons_after button calls)
unfolding apply_all is_key_down is_button_down
apply_all-Inv h key button [] i = i
apply_all-Inv h key button ((n, o) ∷ fs) i =
    let (h', calls) = apply_input n h o in
    let (last, more) = apply_all h' fs in
    Inv-same last _ _ _ _ (λ k. sym (is_key_down-append (key k) k calls more))
      (λ b. sym (is_button_down-append (button b) b calls more))
      (apply_all-Inv h' _ _ fs (apply_input-Inv n h key button o i))

keys_released : (ks : List Text) → All (λ c. is_release c ≡ true) (map release_key ks)
keys_released [] = tt
keys_released (k ∷ ks) = (refl, keys_released ks)

button_released :
    (h : Handler) (b : ℕ) (v : Bool) → All (λ c. is_release c ≡ true) (release_button h b v)
button_released h b true = (refl, tt)
button_released h b false = tt

releases : (h : Handler) → All (λ c. is_release c ≡ true) (release_all h).1
unfolding release_all
releases h =
    let P : Call → Type 0 = λ c. is_release c ≡ true in
    All-append P _ _ (keys_released (backward h.keys)) (
      All-append P _ _ (button_released h 0 h.buttons.left) (
        All-append P _ _ (button_released h 1 h.buttons.right)
          (button_released h 2 h.buttons.middle)))

-- Whatever frames came, some of them while a question was up: a frame that comes while one is up
-- does nothing but let go, and after it no key and no mouse button is down, by all calls of the
-- session.
pub apply_input_busy :
    (fs : List (ℕ × Option Message)) (n : ℕ) (o : Option Message)
    → let (h, calls) = apply_all new_handler fs in
      let more = (apply_input (suc n) h o).1 in
      All (λ c. is_release c ≡ true) more
      × ((k : Text) → is_key_down false k (calls ++ more) ≡ false)
      × ((b : ℕ) → is_button_down false b (calls ++ more) ≡ false)
unfolding apply_input
apply_input_busy fs n o =
    let (h, calls) = apply_all new_handler fs in
    let i = apply_all-Inv new_handler (λ k. false) (λ b. false) fs new_handler-Inv in
    (
      releases h,
      λ k. is_key_down-append false k calls (release_all h).1 ∙ released_key h _ k (i.order k),
      λ b.
          is_button_down-append false b calls (release_all h).1
          ∙ released_button h _ b (i.pressed b),
    )
