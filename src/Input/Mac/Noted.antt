-- ===== src/Input/Mac/Noted.antt =====
-- input/inject_darwin.go: what is noted as held is down by the keys of the viewer's.
use freedesk.Prelude.{
  ℕ, ◌≡◌, refl, ap, ◌∙◌, sym, Bool, true, false, Option, none, some, if◌then◌else◌, ◌==◌, arith,
  Bool-cases, inl, inr, Text, eq_text, eq_text_iff,
}
use freedesk.Input.{button_at}
use freedesk.Input.Keycodes.{code_to_keycode}
use freedesk.Input.Mac.{Env, CgInput, press_code, member}
use freedesk.Input.Mac.Members.{IsLegal}
use freedesk.Input.Mac.Presses.{press_code-Follows}

-- Some key of the viewer's that stands for this one is down.
abbrev pub IsDown : (Text → Bool) → ℕ → Type 0
IsDown key kc = (code : Text) × (code_to_keycode code ≡ some kc) × (key code ≡ true)

pub record Noted (i : CgInput) (key : Text → Bool) (button : ℕ → Bool) : Type 0 where
  pub legal : IsLegal i
  pub mods : (kc : ℕ) → member kc i.mods ≡ true → IsDown key kc
  pub keys : (kc : ℕ) → member kc i.keys ≡ true → IsDown key kc
  pub buttons : (b : ℕ) → button_at i.buttons b ≡ true → button b ≡ true

pub same-Noted :
    (i i' : CgInput) (key : Text → Bool) (button button' : ℕ → Bool)
    → (i'.mods ≡ i.mods)
    → (i'.keys ≡ i.keys)
    → ((b : ℕ) → button_at i'.buttons b ≡ true → button' b ≡ true)
    → Noted i key button
    → Noted i' key button'
same-Noted i i' key button button' m k b n = record {
  legal = (λ c h. n.legal.0 c (rw m at h), λ c h. n.legal.1 c (rw k at h));
  mods = λ c h. n.mods c (rw m at h);
  keys = λ c h. n.keys c (rw k at h);
  buttons = b;
}

other_code :
    (c t : Text) (o : Option ℕ) (k : ℕ) (down before : Bool)
    → code_to_keycode c ≡ o
    → code_to_keycode t ≡ some k
    → ¬ (o ≡ some k)
    → before ≡ true
    → (if eq_text c t then down else before) ≡ true
other_code c t o k down before e f n b = elim (Bool-cases (eq_text c t)) [
  | inl same ↦ absurd (n (sym e ∙ ap code_to_keycode ((eq_text_iff c t).0 same) ∙ f))
  | inr d ↦ rw d b
]

key_of : (kc k : ℕ) → (kc == k) ≡ true → kc ≡ k
key_of kc k e = ground arith

not_key : (kc k : ℕ) → (kc == k) ≡ false → ¬ (some kc ≡ some k)
not_key kc k n e = let same : kc ≡ k = cc in ground arith

-- The viewer's key itself, pressed.
own_code :
    (key : Text → Bool) (c : Text) (kc k : ℕ) (down : Bool)
    → code_to_keycode c ≡ some kc
    → kc ≡ k
    → down ≡ true
    → IsDown (λ t. if eq_text c t then down else key t) k
own_code key c kc k down e same d = (c, e ∙ ap some same, rw ((eq_text_iff c c).1 refl) d)

noted_after :
    (key : Text → Bool) (c : Text) (kc k : ℕ) (down held : Bool)
    → code_to_keycode c ≡ some kc
    → (held ≡ true → IsDown key k)
    → (if kc == k then down else held) ≡ true
    → IsDown (λ t. if eq_text c t then down else key t) k
noted_after key c kc k down held e old h = elim (Bool-cases (kc == k)) [
  | inl y ↦ own_code key c kc k down e (key_of kc k y) (rw y at h)
  | inr n ↦
      let (t, f, b) = old (rw n at h) in
      (t, f, other_code c t (some kc) k down (key t) e f (not_key kc k n) b)
]

some_key-Noted :
    (env : Env) (i : CgInput) (key : Text → Bool) (button : ℕ → Bool) (c : Text) (kc : ℕ)
    (down : Bool)
    → code_to_keycode c ≡ some kc
    → Noted i key button
    → Noted (press_code env i (some kc) down).0 (λ t. if eq_text c t then down else key t) button
some_key-Noted env i key button c kc down e n =
    let (f, legal) = press_code-Follows env i kc down n.legal in
    record {
      legal = legal;
      mods = λ k h. noted_after key c kc k down (member k i.mods) e (n.mods k) (f.0 k h);
      keys = λ k h. noted_after key c kc k down (member k i.keys) e (n.keys k) (f.1 k h);
      buttons = λ b h. n.buttons b (sym (ap (λ s. button_at s b) f.2) ∙ h);
    }

unknown_key-Noted :
    (i : CgInput) (key : Text → Bool) (button : ℕ → Bool) (c : Text) (down : Bool)
    → code_to_keycode c ≡ none
    → Noted i key button
    → Noted i (λ t. if eq_text c t then down else key t) button
unknown_key-Noted i key button c down e n = record {
  legal = n.legal;
  mods = λ k h. kept k (n.mods k h);
  keys = λ k h. kept k (n.keys k h);
  buttons = n.buttons;
}
  where
    kept : (k : ℕ) → IsDown key k → IsDown (λ t. if eq_text c t then down else key t) k
    kept k (t, f, b) = (t, f, other_code c t none k down (key t) e f (λ x. cc) b)

pub press_key-Noted :
    (env : Env) (i : CgInput) (key : Text → Bool) (button : ℕ → Bool) (c : Text) (down : Bool)
    (o : Option ℕ)
    → code_to_keycode c ≡ o
    → Noted i key button
    → Noted (press_code env i o down).0 (λ t. if eq_text c t then down else key t) button
press_key-Noted env i key button c down (some kc) e n =
    some_key-Noted env i key button c kc down e n
press_key-Noted env i key button c down none e n =
    unfold press_code in unknown_key-Noted i key button c down e n
