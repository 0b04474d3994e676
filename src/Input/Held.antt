-- ===== src/Input/Held.antt =====
-- input/handler.go: what the handler holds is what the system has down.
use freedesk.Prelude.{
  ℕ, zero, suc, ◌≡◌, refl, Bool, true, false, List, [], ◌∷◌, ◌++◌, Option, none, some, arith, Text,
  eq_text, eq_text_iff, if◌then◌else◌, Bool-cases, inl, inr, ◌<◌, ltb, ◌==◌, sym, ◌∙◌, ℤ,
}
use freedesk.Input.{
  Kind, move, down, up, wheel, key_down, key_up, other, Message, Call, move_mouse, click_mouse,
  scroll_wheel, press_key, Buttons, Handler, new_handler, has, forget_key, track_key, button_at,
  set_button, handle, click, run, handle_kind, valid_button,
}
use freedesk.Input.Keys.{Distinct, has-delete, has-remove, remove-Distinct, has-snoc, snoc-Distinct}

-- Whether the system has a key down after the calls, if it had it down before them or not.
unfoldable pub is_key_down : Bool → Text → List Call → Bool
is_key_down d k [] = d
is_key_down d k (press_key c v ∷ cs) = is_key_down (if eq_text c k then v else d) k cs
is_key_down d k (move_mouse x y ∷ cs) = is_key_down d k cs
is_key_down d k (click_mouse b v x y ∷ cs) = is_key_down d k cs
is_key_down d k (scroll_wheel dx dy ∷ cs) = is_key_down d k cs

-- The same of a mouse button.
unfoldable pub is_button_down : Bool → ℕ → List Call → Bool
is_button_down d b [] = d
is_button_down d b (press_key c v ∷ cs) = is_button_down d b cs
is_button_down d b (move_mouse x y ∷ cs) = is_button_down d b cs
is_button_down d b (click_mouse a v x y ∷ cs) = is_button_down (if a == b then v else d) b cs
is_button_down d b (scroll_wheel dx dy ∷ cs) = is_button_down d b cs

pub is_key_down-append :
    (d : Bool) (k : Text) (cs ds : List Call)
    → is_key_down d k (cs ++ ds) ≡ is_key_down (is_key_down d k cs) k ds
unfolding is_key_down
is_key_down-append d k [] ds = refl
is_key_down-append d k (press_key c v ∷ cs) ds =
    is_key_down-append (if eq_text c k then v else d) k cs ds
is_key_down-append d k (move_mouse x y ∷ cs) ds = is_key_down-append d k cs ds
is_key_down-append d k (click_mouse b v x y ∷ cs) ds = is_key_down-append d k cs ds
is_key_down-append d k (scroll_wheel dx dy ∷ cs) ds = is_key_down-append d k cs ds

pub is_button_down-append :
    (d : Bool) (b : ℕ) (cs ds : List Call)
    → is_button_down d b (cs ++ ds) ≡ is_button_down (is_button_down d b cs) b ds
unfolding is_button_down
is_button_down-append d b [] ds = refl
is_button_down-append d b (press_key c v ∷ cs) ds = is_button_down-append d b cs ds
is_button_down-append d b (move_mouse x y ∷ cs) ds = is_button_down-append d b cs ds
is_button_down-append d b (click_mouse a v x y ∷ cs) ds =
    is_button_down-append (if a == b then v else d) b cs ds
is_button_down-append d b (scroll_wheel dx dy ∷ cs) ds = is_button_down-append d b cs ds

-- What the handler holds and what the system has down.
pub record Inv (h : Handler) (key : Text → Bool) (button : ℕ → Bool) : Type 0 where
  pub set : (k : Text) → has h.key_set k ≡ key k
  pub order : (k : Text) → has h.keys k ≡ key k
  pub once : Distinct h.keys
  pub pressed : (b : ℕ) → button_at h.buttons b ≡ button b

still :
    (key : Text → Bool) (c k : Text) (v : Bool)
    → key c ≡ v
    → key k ≡ (if eq_text c k then v else key k)
still key c k v e = elim (Bool-cases (eq_text c k)) [
  | inl same ↦ rw (same, ← (eq_text_iff c k).0 same) e
  | inr n ↦ rw n refl
]

track_key-Inv :
    (h : Handler) (key : Text → Bool) (button : ℕ → Bool) (c : Text)
    → Inv h key button
    → Inv (track_key h c) (λ k. if eq_text c k then true else key k) button
unfolding track_key
track_key-Inv h key button c i = elim (Bool-cases (has h.key_set c)) [
  | inl held ↦ rw held (record {
    set = λ k. i.set k ∙ still key c k true (sym (i.set c) ∙ held);
    order = λ k. i.order k ∙ still key c k true (sym (i.set c) ∙ held);
    once = i.once;
    pressed = i.pressed;
  })
  | inr free ↦ rw free (record {
    set = λ k. unfold has in ground (arith, i.set k);
    order = λ k. ground (arith, has-snoc c k h.keys, i.order k);
    once = snoc-Distinct c h.keys (i.order c ∙ (sym (i.set c) ∙ free)) i.once;
    pressed = i.pressed;
  })
]

forget_key-Inv :
    (h : Handler) (key : Text → Bool) (button : ℕ → Bool) (c : Text)
    → Inv h key button
    → Inv (forget_key h c) (λ k. if eq_text c k then false else key k) button
unfolding forget_key
forget_key-Inv h key button c i = elim (Bool-cases (has h.key_set c)) [
  | inl held ↦ rw held (record {
    set = λ k. ground (arith, has-delete c k h.key_set, i.set k);
    order = λ k. ground (arith, has-remove c k h.keys i.once, i.order k);
    once = remove-Distinct c h.keys i.once;
    pressed = i.pressed;
  })
  | inr free ↦ rw free (record {
    set = λ k. i.set k ∙ still key c k false (sym (i.set c) ∙ free);
    order = λ k. i.order k ∙ still key c k false (sym (i.set c) ∙ free);
    once = i.once;
    pressed = i.pressed;
  })
]

pub button_at-set_button :
    (b : ℕ) (v : Bool) (bs : Buttons) (a : ℕ)
    → b < 3
    → button_at (set_button b v bs) a ≡ (if b == a then v else button_at bs a)
unfolding button_at set_button
button_at-set_button zero v bs zero l = refl
button_at-set_button zero v bs (suc zero) l = refl
button_at-set_button zero v bs (suc (suc zero)) l = refl
button_at-set_button zero v bs (suc (suc (suc a))) l = ground arith
button_at-set_button (suc zero) v bs zero l = refl
button_at-set_button (suc zero) v bs (suc zero) l = refl
button_at-set_button (suc zero) v bs (suc (suc zero)) l = refl
button_at-set_button (suc zero) v bs (suc (suc (suc a))) l = ground arith
button_at-set_button (suc (suc zero)) v bs zero l = ground arith
button_at-set_button (suc (suc zero)) v bs (suc zero) l = ground arith
button_at-set_button (suc (suc zero)) v bs (suc (suc zero)) l = ground arith
button_at-set_button (suc (suc zero)) v bs (suc (suc (suc a))) l = ground arith
button_at-set_button (suc (suc (suc b))) v bs a l = absurd (omega arith)

-- What the calls of one message do to the system.
abbrev pub keys_after : (Text → Bool) → List Call → Text → Bool
keys_after key calls k = is_key_down (key k) k calls

abbrev pub buttons_after : (ℕ → Bool) → List Call → ℕ → Bool
buttons_after button calls b = is_button_down (button b) b calls

click-Inv :
    (h : Handler) (key : Text → Bool) (button : ℕ → Bool) (m : Message) (v : Bool) (b : ℤ)
    → Inv h key button
    → let (after, calls) = click h m v (valid_button b) in
      Inv after (keys_after key calls) (buttons_after button calls)
unfolding is_key_down is_button_down
click-Inv h key button m v (ℤ.pos b) i = elim (Bool-cases (ltb b 3)) [
  | inl l ↦ rw l (record {
    set = i.set;
    order = i.order;
    once = i.once;
    pressed = λ a. ground (arith, button_at-set_button b v h.buttons a (ground arith), i.pressed a);
  })
  | inr n ↦ rw n i
]
click-Inv h key button m v (ℤ.negsuc n) i = i

handle_kind-Inv :
    (h : Handler) (key : Text → Bool) (button : ℕ → Bool) (m : Message) (t : Kind)
    → Inv h key button
    → let (after, calls) = handle_kind h m t in
      Inv after (keys_after key calls) (buttons_after button calls)
unfolding is_key_down is_button_down
handle_kind-Inv h key button m move i = record {
  set = i.set;
  order = i.order;
  once = i.once;
  pressed = i.pressed;
}
handle_kind-Inv h key button m down i = click-Inv h key button m true m.b i
handle_kind-Inv h key button m up i = click-Inv h key button m false m.b i
handle_kind-Inv h key button m wheel i = i
handle_kind-Inv h key button m key_down i = track_key-Inv h key button m.code i
handle_kind-Inv h key button m key_up i = forget_key-Inv h key button m.code i
handle_kind-Inv h key button m other i = i

pub handle-Inv :
    (h : Handler) (key : Text → Bool) (button : ℕ → Bool) (o : Option Message)
    → Inv h key button
    → let (after, calls) = handle h o in
      Inv after (keys_after key calls) (buttons_after button calls)
unfolding handle is_key_down is_button_down
handle-Inv h key button none i = i
handle-Inv h key button (some m) i = handle_kind-Inv h key button m m.t i

pub Inv-same :
    (h : Handler) (key key' : Text → Bool) (button button' : ℕ → Bool)
    → ((k : Text) → key k ≡ key' k)
    → ((b : ℕ) → button b ≡ button' b)
    → Inv h key button
    → Inv h key' button'
Inv-same h key key' button button' e f i = record {
  set = λ k. i.set k ∙ e k;
  order = λ k. i.order k ∙ e k;
  once = i.once;
  pressed = λ b. i.pressed b ∙ f b;
}

run-Inv :
    (h : Handler) (key : Text → Bool) (button : ℕ → Bool) (ms : List (Option Message))
    → Inv h key button
    → let (after, calls) = run h ms in Inv after (keys_after key calls) (buttons_after button calls)
unfolding run is_key_down is_button_down
run-Inv h key button [] i = i
run-Inv h key button (m ∷ ms) i =
    let (h', calls) = handle h m in
    let (last, more) = run h' ms in
    Inv-same last _ _ _ _ (λ k. sym (is_key_down-append (key k) k calls more))
      (λ b. sym (is_button_down-append (button b) b calls more))
      (run-Inv h' _ _ ms (handle-Inv h key button m i))

pub new_handler-Inv : Inv new_handler (λ k. false) (λ b. false)
unfolding new_handler has button_at
new_handler-Inv = record { set = λ k. refl; order = λ k. refl; once = tt; pressed = none_pressed }
  where
    none_pressed : (b : ℕ) → button_at new_handler.buttons b ≡ false
    none_pressed zero = refl
    none_pressed (suc zero) = refl
    none_pressed (suc (suc zero)) = refl
    none_pressed (suc (suc (suc b))) = refl

-- After any messages from the viewer, the handler holds exactly what the system has down by its
-- calls: a key is in the list, and in the set, exactly if it is down, no key is listed twice, and a
-- button is marked exactly if it is down.
pub run_holds :
    (ms : List (Option Message))
    → let (h, calls) = run new_handler ms in
      ((k : Text)
        → (has h.keys k ≡ is_key_down false k calls)
          × (has h.key_set k ≡ is_key_down false k calls))
      × Distinct h.keys
      × ((b : ℕ) → button_at h.buttons b ≡ is_button_down false b calls)
run_holds ms =
    let i = run-Inv new_handler (λ k. false) (λ b. false) ms new_handler-Inv in
    ((λ k. (i.order k, i.set k)), i.once, i.pressed)
