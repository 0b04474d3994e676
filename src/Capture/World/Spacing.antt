-- ===== src/Capture/World/Spacing.antt =====
-- capture/pipeline.go: how far apart the pictures are that the loop marks as keyframes for viewers.
use freedesk.Prelude.{
  ℕ, ◌+◌, ◌≤◌, ◌≡◌, refl, Bool, true, false, not, ◌&&◌, ◌||◌, List, [], ◌∷◌, Option, none, some,
  arith, if◌then◌else◌, ap, subst, ◌∙◌, Bool-cases, inl, inr,
}
use freedesk.Vpx.{Size}
use freedesk.Capture.Loop.{
  Loop, Grab, unavailable, failed, picture, Ticked, ended, idle, work, Draft, tick, hand_over,
  with_converter, begin_converter, convert, keyframe_due, has_passed, keyframe_min_interval,
  Converter, resumed, fitting, new_converter, idle_interval,
}
use freedesk.Capture.Mailbox.{Image, Job}
use freedesk.Capture.Encode.{Encoded, gave_up, waits, fed, Answer, encode}
use freedesk.Capture.World.{
  World, new_world, Event, request, ticks, takes, stop, ticked, encoded, taken, step, run,
}
use freedesk.Capture.World.Budget.{forces, marks, forces-marks}

-- When the last encoder was asked for, or the last keyframe forced.
abbrev pub last_reset : List Draft → Option ℕ
last_reset [] = none
last_reset (d ∷ ds) = if d.restart || d.keyframe then some d.at else last_reset ds

abbrev pub AtLeast : Option ℕ → ℕ → Type 0
AtLeast none now = Unit
AtLeast (some t) now = t + keyframe_min_interval ≤ now

-- A picture that is marked, against what was handed over before it.
abbrev pub IsSpaced : List Draft → Type 0
IsSpaced [] = Unit
IsSpaced (d ∷ ds) = (d.keyframe ≡ true → AtLeast (last_reset ds) d.at) × IsSpaced ds

-- What a tick does to the time of the last reset.
abbrev Paced : Option ℕ → Ticked → Type 0
Paced t ended = Unit
Paced t (idle l want) = l.last_forced ≡ t
Paced t (work l want c d) =
    (l.last_forced ≡ (if d.restart || d.keyframe then some d.at else t))
    × (d.keyframe ≡ true → AtLeast t d.at)

due_after : (want : Bool) (t : Option ℕ) (now : ℕ) → keyframe_due want t now ≡ true → AtLeast t now
unfolding keyframe_due
due_after want none now h = tt
due_after want (some t) now h = ground arith

hand_over-Paced :
    (l : Loop) (want : Bool) (c : Converter) (now : ℕ) (load force restart : Bool)
    → (force ≡ true → AtLeast l.last_forced now)
    → Paced l.last_forced (hand_over l want c now load force restart)
hand_over-Paced l want c now load force true h = (refl, λ e. absurd (cc))
hand_over-Paced l want c now load true false h = (refl, λ e. h refl)
hand_over-Paced l want c now load false false h =
    elim (Bool-cases (not load && not (has_passed idle_interval l.last_job now))) [
      | inl quiet ↦ rw quiet refl
      | inr busy ↦ rw busy (refl, λ e. absurd (cc))
    ]

with_converter-Paced :
    (l : Loop) (want : Bool) (c : Converter) (now : ℕ) (changed painted : Bool)
    → Paced l.last_forced (with_converter l want c now changed painted)
unfolding with_converter
with_converter-Paced l want c now changed painted =
    hand_over-Paced l want c now (changed || l.restart || painted) _ l.restart
      (due_after want l.last_forced now)

convert-Paced :
    (l : Loop) (want : Bool) (m now : ℕ) (size : Size) (changed painted scaler : Bool)
    (c : Option Converter)
    → Paced l.last_forced (convert l want m now size changed painted scaler c)
convert-Paced l want m now size changed painted scaler (some c) =
    with_converter-Paced l want c now changed painted
convert-Paced l want m now size changed painted scaler none = begun (new_converter m size scaler)
  where
    begun :
        (c : Option Converter) → Paced l.last_forced (begin_converter l want now changed painted c)
    begun none = tt
    begun (some c) =
        with_converter-Paced (record l { conv = some c; restart = true }) want c now changed painted

tick-Paced :
    (m : ℕ) (l : Loop) (want : Bool) (now : ℕ) (g : Grab)
    → Paced l.last_forced (tick m l want now g)
unfolding tick
tick-Paced m l want now unavailable = refl
tick-Paced m l want now (failed true) = refl
tick-Paced m l want now (failed false) = tt
tick-Paced m l want now (picture size changed painted scaler) =
    subst (λ t. Paced t (tick m l want now (picture size changed painted scaler))) (same_forced l)
      (convert-Paced (resumed l) want m now size changed painted scaler
        (fitting size (resumed l).conv))
  where
    same_forced : (k : Loop) → (resumed k).last_forced ≡ k.last_forced
    same_forced k = ground arith

record Rate (w : World) : Type 0 where
  last : w.loop.last_forced ≡ last_reset w.drafts
  spaced : IsSpaced w.drafts

ticked-Rate : (w : World) (t : Ticked) → Paced w.loop.last_forced t → Rate w → Rate (ticked w t)
ticked-Rate w ended p r = record { last = r.last; spaced = r.spaced }
ticked-Rate w (idle l want) p r = record { last = p ∙ r.last; spaced = r.spaced }
ticked-Rate w (work l want c d) p r = record {
  last = p.0 ∙ ap (λ t. if d.restart || d.keyframe then some d.at else t) r.last;
  spaced = (λ e. subst (λ t. AtLeast t d.at) r.last (p.1 e), r.spaced);
}

encoded-Rate : (w : World) (x : Encoded) (free : List Image) → Rate w → Rate (encoded w (x, free))
encoded-Rate w (gave_up e cs) free r = record { last = r.last; spaced = r.spaced }
encoded-Rate w (waits e) free r = record { last = r.last; spaced = r.spaced }
encoded-Rate w (fed e c f) free r = record { last = r.last; spaced = r.spaced }

taken-Rate : (w : World) (box : Option Job) (a : Answer) → Rate w → Rate (taken w box a)
taken-Rate w none a r = r
taken-Rate w (some j) a r = encoded-Rate w (encode w.enc w.free j a).0 (encode w.enc w.free j a).1 r

if-Rate : (c : Bool) (x y : World) → Rate x → Rate y → Rate (if c then x else y)
if-Rate true x y h k = h
if-Rate false x y h k = k

step-Rate : (m : ℕ) (w : World) (e : Event) → Rate w → Rate (step m w e)
unfolding step
step-Rate m w request r = record { last = r.last; spaced = r.spaced }
step-Rate m w stop r = record { last = r.last; spaced = r.spaced }
step-Rate m w (ticks now g) r =
    if-Rate w.capturing _ _
      (ticked-Rate w (tick m w.loop w.want now g) (tick-Paced m w.loop w.want now g) r) r
step-Rate m w (takes a) r = if-Rate w.encoding _ _ (taken-Rate w w.box a r) r

run-Rate : (m : ℕ) (w : World) (es : List Event) → Rate w → Rate (run m w es)
unfolding run
run-Rate m w [] r = r
run-Rate m w (e ∷ es) r = run-Rate m (step m w e) es (step-Rate m w e r)

-- However often and whenever a viewer asks: of the pictures that the capture loop hands over, one is
-- marked to be forced as a keyframe only half a second or more after the last one that was marked, and
-- after the last one that starts an encoder; and the encoder is never forced more often than pictures
-- were marked, whatever the mailbox merges. It says nothing of the moment of a forced call: a mark that
-- a later picture takes over is encoded later.
pub run-IsSpaced :
    (m : ℕ) (es : List Event)
    → let w = run m new_world es in IsSpaced w.drafts × (forces w.calls ≤ marks w.drafts)
run-IsSpaced m es =
    ((run-Rate m new_world es (record { last = refl; spaced = tt })).spaced, forces-marks m es)
