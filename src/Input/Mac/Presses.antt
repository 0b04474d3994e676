-- ===== src/Input/Mac/Presses.antt =====
-- input/inject_darwin.go: pressKey, and what is noted as held by it.
use freedesk.Prelude.{
  ℕ, ◌≡◌, refl, subst, ap, ◌∙◌, sym, Bool, true, false, not, List, [], some, ◌==◌, Bool-cases, inl,
  inr,
}
use freedesk.Input.Keycodes.{kvk_caps_lock, is_modifier}
use freedesk.Input.Mac.{
  Env, CgInput, Effect, flags_changed, flags, release_held_keys, is_last_command, drop_mod,
  press_mod, press_code, member, insert_code, delete_code, is_same,
}
use freedesk.Input.Mac.Members.{
  Holds, post-Holds, release-Holds, is_plain, IsLegal, Follows, of_Holds, same_code, apart_Follows,
  inserted, deleted, inserted_Follows, deleted_Follows, press_plain-Follows,
}

-- What is left of the other keys when a modifier comes up.
dropped-Holds :
    (env : Env) (i c : CgInput) (kc : ℕ) (keys : List ℕ) (es : List Effect)
    → Holds c i.mods keys i.buttons
    → Holds (drop_mod env kc (c, es)).0 (delete_code kc i.mods) keys i.buttons
dropped-Holds env i c kc keys es h =
    let d : CgInput = record c { mods = delete_code kc c.mods } in
    let (m, k, b) = post-Holds env d (flags_changed kc (flags d)) in
    (m ∙ ap (delete_code kc) h.0, k ∙ h.1, b ∙ h.2)

dropped-Follows :
    (env : Env) (i c : CgInput) (kc : ℕ) (keys : List ℕ) (es : List Effect)
    → Holds c i.mods keys i.buttons
    → ((k : ℕ) → member k keys ≡ true → member k i.keys ≡ true)
    → is_plain kc ≡ false
    → IsLegal i
    → let i' = (drop_mod env kc (c, es)).0 in Follows i' i kc false × IsLegal i'
dropped-Follows env i c kc keys es h fewer n legal =
    of_Holds i (drop_mod env kc (c, es)).0 (delete_code kc i.mods) keys kc false
      (dropped-Holds env i c kc keys es h)
      (λ k m. legal.0 k (deleted kc k i.mods m), λ k m. legal.1 k (fewer k m))
      (
        λ k. deleted_Follows kc k i.mods,
        λ k m. apart_Follows is_plain kc false i.keys legal.1 n k (fewer k m),
        refl,
      )

press_mod-Follows :
    (env : Env) (i : CgInput) (kc : ℕ) (down : Bool)
    → is_modifier kc ≡ true
    → is_plain kc ≡ false
    → IsLegal i
    → let i' = (press_mod env i kc down).0 in Follows i' i kc down × IsLegal i'
unfolding press_mod
press_mod-Follows env i kc true y n legal =
    let j : CgInput = record i { mods = insert_code kc i.mods } in
    of_Holds i (press_mod env i kc true).0 (insert_code kc i.mods) i.keys kc true
      (post-Holds env j (flags_changed kc (flags j)))
      (inserted is_modifier kc i.mods legal.0 y, legal.1)
      (λ k. inserted_Follows kc k i.mods, apart_Follows is_plain kc true i.keys legal.1 n, refl)
press_mod-Follows env i kc false y n legal = elim (Bool-cases (is_last_command i kc)) [
  | inl e ↦ rw e (
      dropped-Follows env i (release_held_keys env i i.keys).0 kc []
        (release_held_keys env i i.keys).1 (release-Holds env i i.keys)
        (λ k m. absurd (unfold member in cc)) n legal)
  | inr e ↦ rw e (dropped-Follows env i i kc i.keys [] (refl, refl, refl) (λ k m. m) n legal)
]

-- A key that is held already, or that is up already.
same-Follows :
    (i : CgInput) (kc : ℕ) (down : Bool)
    → is_same (member kc i.mods) down ≡ true
    → is_plain kc ≡ false
    → IsLegal i
    → Follows i i kc down × IsLegal i
same-Follows i kc down same n legal = (
  (
    λ k m. elim (Bool-cases (kc == k)) [
      | inl e ↦
          let held : member kc i.mods ≡ true =
            subst (λ c. member c i.mods ≡ true) (sym (same_code kc k e)) m in
          rw e (rw held at same)
      | inr o ↦ rw o m
    ],
    apart_Follows is_plain kc down i.keys legal.1 n,
    refl,
  ),
  legal,
)

-- Caps Lock is not noted.
caps-Follows :
    (i i' : CgInput) (down : Bool)
    → Holds i' i.mods i.keys i.buttons
    → IsLegal i
    → Follows i' i kvk_caps_lock down × IsLegal i'
unfolding is_modifier
caps-Follows i i' down h legal = of_Holds i i' i.mods i.keys kvk_caps_lock down h legal (
  apart_Follows is_modifier kvk_caps_lock down i.mods legal.0 refl,
  apart_Follows is_plain kvk_caps_lock down i.keys legal.1 refl,
  refl,
)

plain_of : (k : ℕ) → is_modifier k ≡ false → (k == kvk_caps_lock) ≡ false → is_plain k ≡ true
plain_of k e n = rw (e, n) refl

not_plain : (k : ℕ) → is_modifier k ≡ true → is_plain k ≡ false
not_plain k e = rw e refl

press_caps-Follows :
    (env : Env) (i : CgInput) (down : Bool)
    → IsLegal i
    → let i' = (press_code env i (some kvk_caps_lock) down).0 in
      Follows i' i kvk_caps_lock down × IsLegal i'
unfolding press_code
press_caps-Follows env i true legal =
    let j : CgInput = record i { caps_lock = not i.caps_lock } in
    caps-Follows i (press_code env i (some kvk_caps_lock) true).0 true
      (post-Holds env j (flags_changed kvk_caps_lock (flags j))) legal
press_caps-Follows env i false legal = caps-Follows i i false (refl, refl, refl) legal

pub press_code-Follows :
    (env : Env) (i : CgInput) (kc : ℕ) (down : Bool)
    → IsLegal i
    → let i' = (press_code env i (some kc) down).0 in Follows i' i kc down × IsLegal i'
press_code-Follows env i kc down legal = elim (Bool-cases (kc == kvk_caps_lock)) [
  | inl e ↦
      subst (λ c. let i' = (press_code env i (some c) down).0 in Follows i' i c down × IsLegal i')
        (sym (same_code kc kvk_caps_lock e)) (press_caps-Follows env i down legal)
  | inr e ↦ elim (Bool-cases (is_modifier kc)) [
    | inl y ↦ elim (Bool-cases (is_same (member kc i.mods) down)) [
      | inl s ↦ unfold press_code in rw (e, y, s) (same-Follows i kc down s (not_plain kc y) legal)
      | inr s ↦
          unfold press_code in
          rw (e, y, s) (press_mod-Follows env i kc down y (not_plain kc y) legal)
    ]
    | inr y ↦
        unfold press_code in rw (e, y) (press_plain-Follows env i kc down (plain_of kc y e) y legal)
  ]
]
