-- ===== src/Input/Mac.antt =====
-- host-agent/internal/input/inject_darwin.go: the calls of the injector, made into CoreGraphics events. The
-- flags of an event stand for themselves: the modifiers held, and Caps Lock. What floating point
-- decides comes with a call: the point that the position maps to, and whether it is near the last
-- click. Within one call the clock stands still, and macOS gives one answer.
pub mod Access
pub mod Members
pub mod Presses
pub mod Noted
pub mod Released
use freedesk.Prelude.{
  ℕ, zero, suc, ◌+◌, ◌-◌, ◌^◌, Bool, true, false, not, ◌&&◌, ◌||◌, List, [], ◌∷◌, ◌++◌, Option,
  none, some, ℤ, pos, negsuc, any, map, if◌then◌else◌, ltb, leb, ◌==◌,
}
use freedesk.Input.{Call, move_mouse, click_mouse, scroll_wheel, press_key, Buttons, set_button}
use freedesk.Input.Keycodes.{
  code_to_keycode, kvk_right_command, kvk_command, kvk_caps_lock, is_modifier,
}

abbrev pub Position : Type 0
Position = ℕ × ℕ

pub record Flags : Type 0 where
  pub mods : List ℕ
  pub caps_lock : Bool

-- The button of an event, with its kind, is its CGEventType.
pub data MouseKind : Type 0 where
  moved pressed lifted dragged : MouseKind

pub data Posted : Type 0 where
  mouse : MouseKind → Position → (button clicks : ℕ) → Flags → Posted
  key : (keycode : ℕ) → (down repeat : Bool) → Flags → Posted
  flags_changed : (keycode : ℕ) → Flags → Posted
  scroll : (vertical horizontal : ℤ) → Flags → Posted

pub data Effect : Type 0 where
  asks : Bool → Effect
  warns : Effect
  posts : Posted → Effect

pub record LastClick : Type 0 where
  pub button : ℕ
  pub at : ℕ
  pub count : ℕ

-- `warned` is absent where Go has the zero time.
pub record CgInput : Type 0 where
  pub position : Position
  pub buttons : Buttons
  pub last_click : LastClick
  pub mods : List ℕ
  pub caps_lock : Bool
  pub keys : List ℕ
  pub trusted : Bool
  pub next_ask : ℕ
  pub warned : Option ℕ

unfoldable pub new_cg_input : CgInput
new_cg_input = record {
  position = (0, 0);
  buttons = record { left = false; right = false; middle = false };
  last_click = record { button = 0; at = 0; count = 0 };
  mods = [];
  caps_lock = false;
  keys = [];
  trusted = false;
  next_ask = 0;
  warned = none;
}

pub record Env : Type 0 where
  pub now : ℕ
  pub allowed : Bool
  pub point : Position
  pub near : Bool
  pub double_click : ℕ

-- Two seconds.
abbrev pub access_recheck : ℕ
access_recheck = 2000000000

-- A minute.
abbrev pub access_reconfirm : ℕ
access_reconfirm = 60000000000

abbrev pub access_warn_every : ℕ
access_warn_every = 60000000000

abbrev pub is_warn_due : Option ℕ → ℕ → Bool
is_warn_due none now = true
is_warn_due (some t) now = leb (t + access_warn_every) now

-- A permission taken away is told at once.
abbrev pub warned_before : CgInput → Option ℕ
warned_before i = if i.trusted then none else i.warned

-- What macOS answers.
unfoldable pub ask : ℕ → CgInput → Bool → CgInput × Bool × List Effect
ask now i true =
    (record i { trusted = true; next_ask = now + access_reconfirm }, true, asks true ∷ [])
ask now i false =
    let warned = warned_before i in
    let due = is_warn_due warned now in
    (
      record i {
        trusted = false;
        next_ask = now + access_recheck;
        warned = if due then some now else warned;
      },
      false,
      asks false ∷ (if due then warns ∷ [] else []),
    )

unfoldable pub may_post : Env → CgInput → CgInput × Bool × List Effect
unfolding ask
may_post env i = if ltb env.now i.next_ask then (i, i.trusted, []) else ask env.now i env.allowed

abbrev pub post_if : Posted → CgInput × Bool × List Effect → CgInput × List Effect
post_if p (i, ok, es) = (i, es ++ (if ok then posts p ∷ [] else []))

unfoldable pub post : Env → CgInput → Posted → CgInput × List Effect
unfolding may_post
post env i p = post_if p (may_post env i)

abbrev pub flags : CgInput → Flags
flags i = record { mods = i.mods; caps_lock = i.caps_lock }

abbrev pub clicks_of : CgInput → ℕ → ℕ
clicks_of i button =
    if i.last_click.button == button && ltb 0 i.last_click.count then i.last_click.count else 1

abbrev pub emit_mouse : Env → CgInput → MouseKind → (button clicks : ℕ) → CgInput × List Effect
emit_mouse env i t button clicks = post env i (mouse t i.position button clicks (flags i))

abbrev pub emit_flags : Env → CgInput → ℕ → CgInput × List Effect
emit_flags env i kc = post env i (flags_changed kc (flags i))

-- moveMouse, from the point on: the first button held drags.
unfoldable pub move_to : Env → CgInput → CgInput × List Effect
move_to env i =
    if i.buttons.left
    then emit_mouse env i dragged 0 (clicks_of i 0)
    else if i.buttons.right
    then emit_mouse env i dragged 1 (clicks_of i 1)
    else if i.buttons.middle
    then emit_mouse env i dragged 2 (clicks_of i 2)
    else emit_mouse env i moved 0 0

abbrev pub next_count : Env → LastClick → ℕ → ℕ
next_count env c button =
    if ltb 0 c.count && c.button == button && leb env.now (c.at + env.double_click) && env.near
    then suc c.count
    else 1

-- clickMouse, from the point on.
unfoldable pub click_at : Env → CgInput → ℕ → Bool → CgInput × List Effect
click_at env i button false = emit_mouse env i lifted button (clicks_of i button)
click_at env i button true =
    let count = next_count env i.last_click button in
    emit_mouse env
      (record i { last_click = record { button = button; at = env.now; count = count } }) pressed
      button count

-- `-dx` of an int64.
abbrev pub neg_int : ℤ → ℤ
neg_int (pos zero) = pos zero
neg_int (pos (suc n)) = negsuc n
neg_int (negsuc n) = if leb (2 ^ 63 - 1) n then negsuc n else pos (suc n)

abbrev pub clamp_int32 : ℤ → ℤ
clamp_int32 (pos n) = if ltb (2 ^ 31 - 1) n then pos (2 ^ 31 - 1) else pos n
clamp_int32 (negsuc n) = if ltb (2 ^ 31 - 1) n then negsuc (2 ^ 31 - 1) else negsuc n

unfoldable pub scroll_axes : ℤ → ℤ → ℤ × ℤ
scroll_axes dx dy = (clamp_int32 dy, clamp_int32 (neg_int dx))

abbrev pub is_zero : ℤ → Bool
is_zero (pos n) = n == 0
is_zero (negsuc n) = false

unfoldable pub member : ℕ → List ℕ → Bool
member kc ks = any (λ k. k == kc) ks

unfoldable pub insert_code : ℕ → List ℕ → List ℕ
insert_code kc ks = if member kc ks then ks else kc ∷ ks

unfoldable pub delete_code : ℕ → List ℕ → List ℕ
delete_code kc [] = []
delete_code kc (k ∷ ks) = let rest = delete_code kc ks in if k == kc then rest else k ∷ rest

abbrev pub and_then : List Effect → CgInput × List Effect → CgInput × List Effect
and_then es (i, more) = (i, es ++ more)

-- releaseHeldKeys. The keys of a map come in any order.
unfoldable pub release_held_keys : Env → CgInput → List ℕ → CgInput × List Effect
release_held_keys env i [] = (record i { keys = [] }, [])
release_held_keys env i (kc ∷ ks) =
    let (i', es) = post env (record i { keys = ks }) (key kc false false (flags i)) in
    and_then es (release_held_keys env i' ks)

-- The last Command key is coming up.
abbrev pub is_last_command : CgInput → ℕ → Bool
is_last_command i kc =
    (kc == kvk_command && not (member kvk_right_command i.mods))
    || (kc == kvk_right_command && not (member kvk_command i.mods))

abbrev pub drop_mod : Env → ℕ → CgInput × List Effect → CgInput × List Effect
drop_mod env kc (i, es) =
    and_then es (emit_flags env (record i { mods = delete_code kc i.mods }) kc)

-- A modifier key, whose state changes.
unfoldable pub press_mod : Env → CgInput → ℕ → Bool → CgInput × List Effect
press_mod env i kc true = emit_flags env (record i { mods = insert_code kc i.mods }) kc
press_mod env i kc false =
    drop_mod env kc (if is_last_command i kc then release_held_keys env i i.keys else (i, []))

unfoldable pub press_plain : Env → CgInput → ℕ → Bool → CgInput × List Effect
press_plain env i kc down =
    let repeat = down && member kc i.keys in
    let i' = record i { keys = if down then insert_code kc i.keys else delete_code kc i.keys } in
    post env i' (key kc down repeat (flags i'))

abbrev pub is_same : Bool → Bool → Bool
is_same true b = b
is_same false b = not b

unfoldable pub press_code : Env → CgInput → Option ℕ → Bool → CgInput × List Effect
press_code env i none down = (i, [])
press_code env i (some kc) down =
    if kc == kvk_caps_lock
    then if down then emit_flags env (record i { caps_lock = not i.caps_lock }) kc else (i, [])
    else if is_modifier kc
    then if is_same (member kc i.mods) down then (i, []) else press_mod env i kc down
    else press_plain env i kc down

abbrev pub scrolled : Env → CgInput → ℤ × ℤ → CgInput × List Effect
scrolled env i (vertical, horizontal) =
    if is_zero vertical && is_zero horizontal
    then (i, [])
    else post env i (scroll vertical horizontal (flags i))

-- A call of the injector.
unfoldable pub inject : Env → CgInput → Call → CgInput × List Effect
inject env i (move_mouse x y) = move_to env (record i { position = env.point })
inject env i (click_mouse b down x y) =
    if ltb b 3
    then click_at env (record i { position = env.point; buttons = set_button b down i.buttons }) b
        down
    else (i, [])
inject env i (scroll_wheel dx dy) = scrolled env i (scroll_axes dx dy)
inject env i (press_key code down) = press_code env i (code_to_keycode code) down

-- The calls of a program's life, each in its surroundings. What happens is noted with its time.
unfoldable pub inject_all : CgInput → List (Env × Call) → CgInput × List (ℕ × Effect)
inject_all i [] = (i, [])
inject_all i ((env, c) ∷ cs) =
    let (i', es) = inject env i c in
    let (last, more) = inject_all i' cs in (last, map (λ e. (env.now, e)) es ++ more)
