-- ===== src/Input/Mac/Access.antt =====
-- input/inject_darwin.go: mayPost, over all that is posted.
use mathlib.Core.List.{append_assoc, map-append}
use freedesk.Prelude.{
  ℕ, ◌+◌, ◌≤◌, ◌<◌, ◌≡◌, refl, ap, ◌∙◌, sym, subst, Bool, true, false, not, ◌&&◌, List, [], ◌∷◌,
  ◌++◌, Option, none, some, if◌then◌else◌, ltb, ◌==◌, arith, map, Bool-cases, inl, inr,
}
use freedesk.Input.{Call, move_mouse, click_mouse, scroll_wheel, press_key, set_button}
use freedesk.Input.Keycodes.{code_to_keycode, kvk_caps_lock, is_modifier}
use freedesk.Input.Mac.{
  Env, CgInput, new_cg_input, Effect, asks, warns, posts, Posted, key, access_recheck,
  access_reconfirm, access_warn_every, warned_before, ask, post_if, may_post, post, is_warn_due,
  flags, move_to, click_at, release_held_keys, press_mod, press_plain, press_code, scroll_axes,
  inject, inject_all, and_then, member, is_last_command, is_same, is_zero, next_count, insert_code,
  delete_code, emit_flags,
}

abbrev pub interval : Bool → ℕ
interval yes_said = if yes_said then access_reconfirm else access_recheck

-- The last question to macOS and its answer, and the last warning since it last said yes.
abbrev pub Asked : Type 0
Asked = Option (ℕ × Bool)

abbrev pub IsDue : Asked → ℕ → Type 0
IsDue none t = Unit
IsDue (some (at, answer)) t = at + interval answer ≤ t

abbrev pub IsTrusted : Asked → ℕ → Type 0
IsTrusted (some (at, true)) t = t < at + access_reconfirm
IsTrusted _ t = ⊥

abbrev pub MayWarn : Option ℕ → ℕ → Type 0
MayWarn none t = Unit
MayWarn (some at) t = at + access_warn_every ≤ t

abbrev pub Permitted : Asked → Option ℕ → List (ℕ × Effect) → Type 0
Permitted asked warned [] = Unit
Permitted asked warned ((t, asks answer) ∷ es) =
    IsDue asked t × Permitted (some (t, answer)) (if answer then none else warned) es
Permitted asked warned ((t, warns) ∷ es) = MayWarn warned t × Permitted asked (some t) es
Permitted asked warned ((t, posts p) ∷ es) = IsTrusted asked t × Permitted asked warned es

-- What the fields say of it.
abbrev Says : Asked → Option ℕ → Bool → ℕ → Option ℕ → Type 0
Says none warned trusted next own = (trusted ≡ false) × (next ≡ 0) × (own ≡ warned)
Says (some (at, true)) warned trusted next own =
    (trusted ≡ true) × (next ≡ at + access_reconfirm) × (warned ≡ none)
Says (some (at, false)) warned trusted next own =
    (trusted ≡ false) × (next ≡ at + access_recheck) × (own ≡ warned)

abbrev Fits : Asked → Option ℕ → CgInput → Type 0
Fits asked warned i = Says asked warned i.trusted i.next_ask i.warned

abbrev stamped : Env → List Effect → List (ℕ × Effect)
stamped env es = map (λ e. (env.now, e)) es

-- Whatever follows from the state that a computation ends in, its own effects come first.
abbrev Good : Env → CgInput → CgInput × List Effect → Type 0
Good env i c =
    (asked : Asked) (warned : Option ℕ) (rest : List (ℕ × Effect))
    → Fits asked warned i
    → ((asked' : Asked) (warned' : Option ℕ)
        → Fits asked' warned' c.0
        → Permitted asked' warned' rest)
    → Permitted asked warned (stamped env c.1 ++ rest)

warned-Fits :
    (asked : Asked) (warned : Option ℕ) (i : CgInput)
    → Fits asked warned i
    → warned_before i ≡ warned
warned-Fits none warned i f = ground arith
warned-Fits (some (at, true)) warned i f = ground arith
warned-Fits (some (at, false)) warned i f = ground arith

is_warn_due-MayWarn :
    (warned : Option ℕ) (now : ℕ) → is_warn_due warned now ≡ true → MayWarn warned now
is_warn_due-MayWarn none now h = tt
is_warn_due-MayWarn (some t) now h = ground arith

ask-Good :
    (env : Env) (i : CgInput) (answer : Bool) (p : Posted) (asked : Asked) (warned : Option ℕ)
    (rest : List (ℕ × Effect))
    → IsDue asked env.now
    → Fits asked warned i
    → ((asked' : Asked) (warned' : Option ℕ)
        → Fits asked' warned' (post_if p (ask env.now i answer)).0
        → Permitted asked' warned' rest)
    → Permitted asked warned (stamped env (post_if p (ask env.now i answer)).1 ++ rest)
unfolding ask
ask-Good env i true p asked warned rest due f k =
    (due, (omega arith, k (some (env.now, true)) none (refl, refl, refl)))
ask-Good env i false p asked warned rest due f k =
    let before = warned-Fits asked warned i f in
    elim (Bool-cases (is_warn_due (warned_before i) env.now)) [
      | inl e ↦ rw e (
        due,
        (
          is_warn_due-MayWarn warned env.now (subst (λ w. is_warn_due w env.now ≡ true) before e),
          k (some (env.now, false)) (some env.now) (refl, refl, rw e refl),
        ),
      )
      | inr e ↦ rw e (due, k (some (env.now, false)) warned (refl, refl, rw e before))
    ]

-- While the last answer is fresh.
fresh-Good :
    (env : Env) (i : CgInput) (p : Posted) (asked : Asked) (warned : Option ℕ)
    (rest : List (ℕ × Effect))
    → env.now < i.next_ask
    → Fits asked warned i
    → Permitted asked warned rest
    → Permitted asked warned (stamped env (post_if p (i, i.trusted, [])).1 ++ rest)
fresh-Good env i p none warned rest l f h = absurd (omega (arith, f.1))
fresh-Good env i p (some (at, true)) warned rest l f h = rw f.0 (omega (arith, f.1), h)
fresh-Good env i p (some (at, false)) warned rest l f h = rw f.0 h

Fits-IsDue :
    (asked : Asked) (warned : Option ℕ) (i : CgInput) (now : ℕ)
    → Fits asked warned i
    → i.next_ask ≤ now
    → IsDue asked now
Fits-IsDue none warned i now f l = tt
Fits-IsDue (some (at, true)) warned i now f l = omega (arith, f.1)
Fits-IsDue (some (at, false)) warned i now f l = omega (arith, f.1)

post-Good : (env : Env) (i : CgInput) (p : Posted) → Good env i (post env i p)
unfolding post may_post
post-Good env i p asked warned rest f k = elim (Bool-cases (ltb env.now i.next_ask)) [
  | inl e ↦ rw e (fresh-Good env i p asked warned rest (ground arith) f (k asked warned (rw e f)))
  | inr e ↦ rw e (
      ask-Good env i env.allowed p asked warned rest
        (Fits-IsDue asked warned i env.now f (ground arith)) f (rw e at k))
]

nothing-Good : (env : Env) (i : CgInput) → Good env i (i, [])
nothing-Good env i asked warned rest f k = k asked warned f

and_then-Good :
    (env : Env) (i : CgInput) (c d : CgInput × List Effect)
    → Good env i c
    → Good env c.0 d
    → Good env i (and_then c.1 d)
and_then-Good env i c d g h asked warned rest f k =
    subst (Permitted asked warned)
      (sym (
        ap (λ es. es ++ rest) (map-append (λ e. (env.now, e)) c.1 d.1)
        ∙ append_assoc (stamped env c.1) (stamped env d.1) rest))
      (g asked warned (stamped env d.1 ++ rest) f (λ a w f'. h a w rest f' k))

if-Good :
    (env : Env) (i : CgInput) (b : Bool) (c d : CgInput × List Effect)
    → Good env i c
    → Good env i d
    → Good env i (if b then c else d)
if-Good env i true c d g h = g
if-Good env i false c d g h = h

release_held_keys-Good :
    (env : Env) (i : CgInput) (ks : List ℕ) → Good env i (release_held_keys env i ks)
unfolding release_held_keys
release_held_keys-Good env i [] = nothing-Good env (record i { keys = [] })
release_held_keys-Good env i (kc ∷ ks) =
    let c = post env (record i { keys = ks }) (key kc false false (flags i)) in
    and_then-Good env i c (release_held_keys env c.0 ks)
      (post-Good env (record i { keys = ks }) (key kc false false (flags i)))
      (release_held_keys-Good env c.0 ks)

move_to-Good : (env : Env) (i : CgInput) → Good env i (move_to env i)
unfolding move_to
move_to-Good env i = if-Good env i i.buttons.left _ _ (post-Good env i _) (
    if-Good env i i.buttons.right _ _ (post-Good env i _)
      (if-Good env i i.buttons.middle _ _ (post-Good env i _) (post-Good env i _)))

click_at-Good : (env : Env) (i : CgInput) (b : ℕ) (down : Bool) → Good env i (click_at env i b down)
unfolding click_at
click_at-Good env i b false = post-Good env i _
click_at-Good env i b true =
    let count = next_count env i.last_click b in
    post-Good env (record i { last_click = record { button = b; at = env.now; count = count } }) _

press_mod-Good :
    (env : Env) (i : CgInput) (kc : ℕ) (down : Bool) → Good env i (press_mod env i kc down)
unfolding press_mod
press_mod-Good env i kc true = post-Good env (record i { mods = insert_code kc i.mods }) _
press_mod-Good env i kc false =
    let c : CgInput × List Effect =
      if is_last_command i kc then release_held_keys env i i.keys else (i, []) in
    let dropped : CgInput = record c.0 { mods = delete_code kc c.0.mods } in
    and_then-Good env i c (emit_flags env dropped kc)
      (if-Good env i (is_last_command i kc) _ _ (release_held_keys-Good env i i.keys)
        (nothing-Good env i))
      (post-Good env dropped _)

press_plain-Good :
    (env : Env) (i : CgInput) (kc : ℕ) (down : Bool) → Good env i (press_plain env i kc down)
unfolding press_plain
press_plain-Good env i kc down =
    let keys = if down then insert_code kc i.keys else delete_code kc i.keys in
    post-Good env (record i { keys = keys }) _

press_code-Good :
    (env : Env) (i : CgInput) (o : Option ℕ) (down : Bool) → Good env i (press_code env i o down)
unfolding press_code
press_code-Good env i none down = nothing-Good env i
press_code-Good env i (some kc) down =
    if-Good env i (kc == kvk_caps_lock) _ _
      (if-Good env i down _ _ (post-Good env (record i { caps_lock = not i.caps_lock }) _)
        (nothing-Good env i))
      (if-Good env i (is_modifier kc) _ _
        (if-Good env i (is_same (member kc i.mods) down) _ _ (nothing-Good env i)
          (press_mod-Good env i kc down))
        (press_plain-Good env i kc down))

inject-Good : (env : Env) (i : CgInput) (c : Call) → Good env i (inject env i c)
unfolding inject
inject-Good env i (move_mouse x y) = move_to-Good env (record i { position = env.point })
inject-Good env i (click_mouse b down x y) =
    if-Good env i (ltb b 3) _ _
      (click_at-Good env (record i { position = env.point; buttons = set_button b down i.buttons })
        b down)
      (nothing-Good env i)
inject-Good env i (scroll_wheel dx dy) =
    let (vertical, horizontal) = scroll_axes dx dy in
    if-Good env i (is_zero vertical && is_zero horizontal) _ _ (nothing-Good env i)
      (post-Good env i _)
inject-Good env i (press_key code down) = press_code-Good env i (code_to_keycode code) down

inject_all-Permitted :
    (i : CgInput) (cs : List (Env × Call)) (asked : Asked) (warned : Option ℕ)
    → Fits asked warned i
    → Permitted asked warned (inject_all i cs).1
unfolding inject_all
inject_all-Permitted i [] asked warned f = tt
inject_all-Permitted i ((env, c) ∷ cs) asked warned f =
    inject-Good env i c asked warned _ f (inject_all-Permitted (inject env i c).0 cs)

-- Whatever calls are made, at whatever times, and whatever macOS answers: nothing is posted but within
-- a minute of a question that macOS said yes to, with no other answer since; the next question
-- comes a minute or more after a yes, and two seconds or more after a no; and since the last yes,
-- the operator is warned once a minute at most.
pub new_cg_input-Permitted :
    (cs : List (Env × Call)) → Permitted none none (inject_all new_cg_input cs).1
unfolding new_cg_input
new_cg_input-Permitted cs = inject_all-Permitted new_cg_input cs none none (refl, refl, refl)
