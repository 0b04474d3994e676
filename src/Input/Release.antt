-- ===== src/Input/Release.antt =====
-- input/handler.go: ReleaseAll.
use freedesk.Prelude.{
  ℕ, zero, suc, ◌≡◌, refl, Bool, false, not, ◌&&◌, List, [], ◌∷◌, ◌++◌, Option, arith, Text,
  eq_text, any-append, if◌then◌else◌, map, ◌∙◌,
}
use freedesk.Input.{
  Message, Call, Handler, new_handler, has, button_at, backward, release_key, release_button,
  release_all, run,
}
use freedesk.Input.Held.{
  is_key_down, is_button_down, is_key_down-append, is_button_down-append, run_holds,
}

has-backward : (k : Text) (ks : List Text) → has (backward ks) k ≡ has ks k
unfolding backward has
has-backward k [] = refl
has-backward k (x ∷ ks) =
    ground (arith, has-backward k ks, any-append (λ y. eq_text y k) (backward ks) (x ∷ []))

is_key_down-release :
    (d : Bool) (k : Text) (ks : List Text)
    → is_key_down d k (map release_key ks) ≡ (d && not (has ks k))
unfolding is_key_down has
is_key_down-release d k [] = ground arith
is_key_down-release d k (x ∷ ks) =
    is_key_down-release (if eq_text x k then false else d) k ks ∙ ground arith

-- The calls for the buttons leave the keys alone, and the calls for the keys the buttons.
is_button_down-release :
    (d : Bool) (b : ℕ) (ks : List Text) → is_button_down d b (map release_key ks) ≡ d
unfolding is_button_down
is_button_down-release d b [] = refl
is_button_down-release d b (k ∷ ks) = is_button_down-release d b ks

abbrev release_buttons : Handler → List Call
release_buttons h =
    release_button h 0 h.buttons.left
    ++ (release_button h 1 h.buttons.right ++ release_button h 2 h.buttons.middle)

is_key_down-release_buttons :
    (d : Bool) (k : Text) (h : Handler) → is_key_down d k (release_buttons h) ≡ d
unfolding is_key_down
is_key_down-release_buttons d k h = ground arith

release_buttons_lem :
    (h : Handler) (b : ℕ) → is_button_down (button_at h.buttons b) b (release_buttons h) ≡ false
unfolding is_button_down button_at
release_buttons_lem h zero = ground arith
release_buttons_lem h (suc zero) = ground arith
release_buttons_lem h (suc (suc zero)) = ground arith
release_buttons_lem h (suc (suc (suc b))) = ground arith

pub released_key :
    (h : Handler) (d : Bool) (k : Text)
    → has h.keys k ≡ d
    → is_key_down d k (release_all h).1 ≡ false
unfolding release_all
released_key h d k e =
    let keys = map release_key (backward h.keys) in
    rw
      (
        is_key_down-append d k keys (release_buttons h),
        is_key_down-release_buttons (is_key_down d k keys) k h,
        is_key_down-release d k (backward h.keys),
        has-backward k h.keys,
        ← e,
      )
      (ground arith)

pub released_button :
    (h : Handler) (d : Bool) (b : ℕ)
    → button_at h.buttons b ≡ d
    → is_button_down d b (release_all h).1 ≡ false
unfolding release_all
released_button h d b e =
    let keys = map release_key (backward h.keys) in
    rw
      (
        is_button_down-append d b keys (release_buttons h),
        is_button_down-release d b (backward h.keys),
        ← e,
      )
      (release_buttons_lem h b)

-- ReleaseAll after any messages from the viewer: by the calls that the handler made, its own
-- included, no key and no mouse button is down, and ReleaseAll called once more makes no call.
pub run-release_all :
    (ms : List (Option Message))
    → let (h, calls) = run new_handler ms in
      let all = calls ++ (release_all h).1 in
      ((k : Text) → is_key_down false k all ≡ false)
      × ((b : ℕ) → is_button_down false b all ≡ false)
      × ((release_all (release_all h).0).1 ≡ [])
run-release_all ms =
    let (h, calls) = run new_handler ms in
    let (keys, _, buttons) = run_holds ms in
    (
      λ k. is_key_down-append false k calls (release_all h).1 ∙ released_key h _ k (keys k).0,
      λ b.
          is_button_down-append false b calls (release_all h).1 ∙ released_button h _ b (buttons b),
      unfold release_all backward in refl,
    )
