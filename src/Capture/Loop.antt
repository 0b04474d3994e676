-- ===== src/Capture/Loop.antt =====
-- capture/pipeline.go, `capture`: one tick of the clock. Times and durations are nanoseconds.
-- The screen, the pointer and the converter's memory are the tick's environment.
use freedesk.Prelude.{
  ℕ, ◌+◌, Bool, true, false, not, ◌&&◌, ◌||◌, Option, none, some, if◌then◌else◌, leb, ◌==◌,
}
use freedesk.Vpx.{Size, output_size}

abbrev pub max_elapsed : ℕ
max_elapsed = 5000000000

abbrev pub idle_interval : ℕ
idle_interval = 200000000

abbrev pub max_ticks_per_frame : ℕ
max_ticks_per_frame = 4

abbrev pub keyframe_min_interval : ℕ
keyframe_min_interval = 500000000

-- A converter: the size that it takes, and the size of its images.
pub record Converter : Type 0 where
  pub source : Size
  pub out : Size

-- What grab and, after a failure, `open` answered. `scaler` is whether there is memory for one.
pub data Grab : Type 0 where
  unavailable : Grab
  failed : (reopened : Bool) → Grab
  picture : (size : Size) → (changed painted scaler : Bool) → Grab

-- The variables of the loop. A time is absent where Go has its zero time.
pub record Loop : Type 0 where
  pub paused : Bool
  pub restart : Bool
  pub conv : Option Converter
  pub last_job : Option ℕ
  pub last_forced : Option ℕ

abbrev pub new_loop : Loop
new_loop = record {
  paused = false;
  restart = true;
  conv = none;
  last_job = none;
  last_forced = none;
}

abbrev pub same_size : Size → Size → Bool
same_size a b = a.width == b.width && a.height == b.height

-- NewConverter, of package vpx.
unfoldable pub new_converter : ℕ → Size → Bool → Option Converter
new_converter max_width size scaler =
    let out = output_size size.width size.height max_width in
    if out.width == 0 || out.height == 0 || not scaler
    then none
    else some (record { source = size; out = out })

-- Whether the time since then is at least `d`; it is, since the zero time.
abbrev pub has_passed : ℕ → Option ℕ → ℕ → Bool
has_passed d none now = true
has_passed d (some t) now = leb (t + d) now

-- keyframeDue, and the request that it leaves.
unfoldable pub keyframe_due : Bool → Option ℕ → ℕ → Bool
keyframe_due want last_forced now = has_passed keyframe_min_interval last_forced now && want

-- A job before it has its picture: `load` says that it gets a new one.
pub record Draft : Type 0 where
  pub at : ℕ
  pub load : Bool
  pub restart : Bool
  pub keyframe : Bool

-- What a tick comes to: the loop ends, nothing is handed over, or a job is. `want` is the pending
-- keyframe request.
pub data Ticked : Type 0 where
  ended : Ticked
  idle : Loop → (want : Bool) → Ticked
  work : Loop → (want : Bool) → Converter → Draft → Ticked

-- The request and the last forced keyframe, after the switch.
abbrev pub hand_over : Loop → Bool → Converter → ℕ → Bool → Bool → Bool → Ticked
hand_over l want c now load force true =
    work (record l { restart = false; last_job = some now; last_forced = some now }) false c
      (record { at = now; load = load; restart = true; keyframe = false })
hand_over l want c now load true false =
    work (record l { restart = false; last_job = some now; last_forced = some now }) false c
      (record { at = now; load = load; restart = false; keyframe = true })
hand_over l want c now load false false =
    if not load && not (has_passed idle_interval l.last_job now)
    then idle l want
    else work (record l { restart = false; last_job = some now }) want c
        (record { at = now; load = load; restart = false; keyframe = false })

-- From a picture and a converter on.
unfoldable pub with_converter : Loop → Bool → Converter → ℕ → Bool → Bool → Ticked
with_converter l want c now changed painted =
    hand_over l want c now (changed || l.restart || painted) (keyframe_due want l.last_forced now)
      l.restart

abbrev pub fitting : Size → Option Converter → Option Converter
fitting size none = none
fitting size (some c) = if same_size c.source size then some c else none

abbrev pub resumed : Loop → Loop
resumed l = if l.paused then record l { paused = false; restart = true } else l

abbrev pub begin_converter : Loop → Bool → ℕ → Bool → Bool → Option Converter → Ticked
begin_converter l want now changed painted none = ended
begin_converter l want now changed painted (some c) =
    with_converter (record l { conv = some c; restart = true }) want c now changed painted

abbrev pub convert : Loop → Bool → ℕ → ℕ → Size → Bool → Bool → Bool → Option Converter → Ticked
convert l want max_width now size changed painted scaler (some c) =
    with_converter l want c now changed painted
convert l want max_width now size changed painted scaler none =
    begin_converter l want now changed painted (new_converter max_width size scaler)

unfoldable pub tick : ℕ → Loop → Bool → ℕ → Grab → Ticked
tick max_width l want now unavailable = idle (record l { paused = true }) want
tick max_width l want now (failed reopened) = if reopened then idle l want else ended
tick max_width l want now (picture size changed painted scaler) =
    let l' = resumed l in
    convert l' want max_width now size changed painted scaler (fitting size l'.conv)
