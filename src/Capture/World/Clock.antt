-- ===== src/Capture/World/Clock.antt =====
-- capture/pipeline.go: the times that frames carry, and those that the encoder is given.
use freedesk.Prelude.{
  ℕ, ◌+◌, ◌*◌, ◌≤◌, ◌≡◌, refl, Bool, true, false, not, List, [], ◌∷◌, ◌++◌, Option, none, some,
  arith, if◌then◌else◌, sym, ap, subst, Bool-cases, inl, inr, is_some, min, ◌==◌, length,
}
use freedesk.Vpx.{Size}
use freedesk.Capture.Loop.{Ticked, ended, idle, work, tick, max_elapsed}
use freedesk.Capture.Mailbox.{Image, Job}
use freedesk.Capture.Encode.{
  Encoder, Encoded, gave_up, waits, fed, Answer, Call, Frame, encode, call_encoder, with_picture,
  next_picture, serving, since, packet_frame, frame_duration, interval,
}
use freedesk.Capture.World.{
  World, new_world, Event, request, ticks, takes, stop, ticked, encoded, taken, step, run,
  add_frame,
}

abbrev pub last_at : List Frame → Option ℕ
last_at [] = none
last_at (f ∷ fs) = some f.at

-- A frame carries the time since the one before it, five seconds at most; the first carries none.
abbrev pub IsTimed : List Frame → Type 0
IsTimed [] = Unit
IsTimed (f ∷ fs) = (f.elapsed ≡ min (since f.at (last_at fs)) max_elapsed) × IsTimed fs

-- What the encoder is told that the next frame's time is.
abbrev pub next_pts : List Call → Option ℕ
next_pts [] = none
next_pts (c ∷ cs) = some (c.pts + c.duration)

-- A new encoder's clock starts at 0, and goes on by what each frame stands for: one tick to four.
abbrev pub IsFed : List Call → Type 0
IsFed [] = Unit
IsFed (c ∷ cs) =
    (c.fresh ≡ true → c.pts ≡ 0)
    × (c.fresh ≡ false → next_pts cs ≡ some c.pts)
    × (interval ≤ c.duration)
    × (c.duration ≤ 4 * interval)
    × IsFed cs

frame_duration_bounds :
    (repeat : Bool) (gap : ℕ)
    → (interval ≤ frame_duration repeat gap interval)
      × (frame_duration repeat gap interval ≤ 4 * interval)
unfolding frame_duration
frame_duration_bounds true gap = omega arith
frame_duration_bounds false gap = omega arith

record Timed (w : World) : Type 0 where
  frames : IsTimed w.frames
  sent : w.enc.last_sent ≡ last_at w.frames
  calls : IsFed w.calls
  open_at : w.encoding ≡ true → is_some w.enc.size ≡ true → next_pts w.calls ≡ some w.enc.pts

-- What a job must do to the times, from those so far.
abbrev Continues : List Frame → List Call → Encoded → Type 0
Continues fs cs (gave_up e more) = (e.last_sent ≡ last_at fs) × IsFed (more ++ cs)
Continues fs cs (waits e) =
    (e.last_sent ≡ last_at fs) × (is_some e.size ≡ true → next_pts cs ≡ some e.pts)
Continues fs cs (fed e c f) =
    IsTimed (add_frame f fs)
    × (e.last_sent ≡ last_at (add_frame f fs))
    × IsFed (c ∷ cs)
    × (e.pts ≡ c.pts + c.duration)

module _ (fs : List Frame) (cs : List Call) (timed : IsTimed fs) where
  packet_frame-Continues :
      (e : Encoder) (c : Call) (a : Answer)
      → e.last_sent ≡ last_at fs
      → e.pts ≡ c.pts + c.duration
      → IsFed (c ∷ cs)
      → Continues fs cs (packet_frame e c a.delivered a.packet)
  packet_frame-Continues e c a s p f = by_packet a.packet
    where
      by_delivery :
          (n : ℕ) (d : Bool)
          → Continues fs cs (
              if d
              then fed
                  (record e { last_sent = some c.at })
                  c
                  (some (record {
                    bytes = n;
                    elapsed = min (since c.at e.last_sent) max_elapsed;
                    at = c.at;
                  }))
              else gave_up e (c ∷ []))
      by_delivery n true = ((ap (λ t. min (since c.at t) max_elapsed) s, timed), refl, f, p)
      by_delivery n false = (s, f)

      by_packet : (p : Option ℕ) → Continues fs cs (packet_frame e c a.delivered p)
      by_packet none = (s, f)
      by_packet (some n) = elim (Bool-cases (n == 0)) [
        | inl empty ↦ rw empty (timed, s, f, p)
        | inr full ↦ rw full (by_delivery n a.delivered)
      ]

  call_encoder-Continues :
      (e : Encoder) (img : Image) (j : Job) (fresh : Bool) (a : Answer)
      → e.last_sent ≡ last_at fs
      → (fresh ≡ true → e.pts ≡ 0)
      → (fresh ≡ false → next_pts cs ≡ some e.pts)
      → IsFed cs
      → Continues fs cs (call_encoder e img j fresh a)
  unfolding call_encoder
  call_encoder-Continues e img j fresh a s first later f =
      let (low, high) = frame_duration_bounds (not (is_some j.img)) (since j.at e.last_enc) in
      packet_frame-Continues _ _ a s refl (first, later, low, high, f)

  with_picture-Continues :
      (e : Encoder) (cur : Option Image) (j : Job) (a : Answer)
      → e.last_sent ≡ last_at fs
      → (is_some e.size ≡ true → next_pts cs ≡ some e.pts)
      → IsFed cs
      → Continues fs cs (with_picture e cur j a)
  with_picture-Continues e none j a s o f = (s, o)
  with_picture-Continues e (some img) j a s o f =
      elim (Bool-cases (serving j.restart img.size e.size)) [
        | inl serves ↦ rw serves (
            call_encoder-Continues e img j false a s (λ h. absurd (cc))
              (λ _. o (open_one e.size serves)) f)
        | inr not_it ↦ rw not_it (elim (Bool-cases a.opens) [
          | inl opens ↦
              simp opens (call_encoder-Continues _ img j true a s (λ _. refl) (λ h. absurd (cc)) f)
          | inr shut ↦ rw shut (s, f)
        ])
      ]
    where
      open_one : (size : Option Size) → serving j.restart img.size size ≡ true → is_some size ≡ true
      open_one none h = h
      open_one (some x) h = refl

encoded-Timed :
    (w : World) (x : Encoded) (free : List Image)
    → Timed w
    → w.encoding ≡ true
    → Continues w.frames w.calls x
    → Timed (encoded w (x, free))
encoded-Timed w (gave_up e cs) free t on k = record {
  frames = t.frames;
  sent = k.0;
  calls = k.1;
  open_at = λ h. absurd (cc);
}
encoded-Timed w (waits e) free t on k = record {
  frames = t.frames;
  sent = k.0;
  calls = t.calls;
  open_at = λ _. k.1;
}
encoded-Timed w (fed e c f) free t on (frames, sent, calls, p) = record {
  frames = frames;
  sent = sent;
  calls = calls;
  open_at = λ _ _. ap some (sym p);
}

taken-Timed :
    (w : World) (box : Option Job) (a : Answer)
    → w.encoding ≡ true
    → Timed w
    → Timed (taken w box a)
unfolding encode
taken-Timed w none a on t = t
taken-Timed w (some j) a on t =
    let (cur, free) = next_picture w.enc.cur j.img w.free in
    encoded-Timed w (with_picture (record w.enc { cur = cur }) cur j a) free t on (
      with_picture-Continues w.frames w.calls t.frames (record w.enc { cur = cur }) cur j a t.sent
        (t.open_at on) t.calls)

ticked-Timed : (w : World) (x : Ticked) → Timed w → Timed (ticked w x)
ticked-Timed w ended t = record {
  frames = t.frames;
  sent = t.sent;
  calls = t.calls;
  open_at = t.open_at;
}
ticked-Timed w (idle l want) t = record {
  frames = t.frames;
  sent = t.sent;
  calls = t.calls;
  open_at = t.open_at;
}
ticked-Timed w (work l want c d) t = record {
  frames = t.frames;
  sent = t.sent;
  calls = t.calls;
  open_at = t.open_at;
}

if-Timed : (c : Bool) (x y : World) → (c ≡ true → Timed x) → Timed y → Timed (if c then x else y)
if-Timed true x y h k = h refl
if-Timed false x y h k = k

step-Timed : (m : ℕ) (w : World) (e : Event) → Timed w → Timed (step m w e)
unfolding step
step-Timed m w request t = record {
  frames = t.frames;
  sent = t.sent;
  calls = t.calls;
  open_at = t.open_at;
}
step-Timed m w stop t = record {
  frames = t.frames;
  sent = t.sent;
  calls = t.calls;
  open_at = t.open_at;
}
step-Timed m w (ticks now g) t =
    if-Timed w.capturing _ _ (λ _. ticked-Timed w (tick m w.loop w.want now g) t) t
step-Timed m w (takes a) t = if-Timed w.encoding _ _ (λ on. taken-Timed w w.box a on t) t

run-Timed : (m : ℕ) (w : World) (es : List Event) → Timed w → Timed (run m w es)
unfolding run
run-Timed m w [] t = t
run-Timed m w (e ∷ es) t = run-Timed m (step m w e) es (step-Timed m w e t)

new_world-Timed : Timed new_world
new_world-Timed = record { frames = tt; sent = refl; calls = tt; open_at = λ _ h. absurd (cc) }

-- Whatever the encoder drops or is too slow for, and however often it is started again: its clock starts
-- at 0 with each encoder and goes on by what each frame stands for, which is one tick to four.
pub run-IsFed : (m : ℕ) (es : List Event) → IsFed (run m new_world es).calls
run-IsFed m es = (run-Timed m new_world es new_world-Timed).calls

-- Each frame comes after the one before it, by five seconds at most.
abbrev pub IsSteady : List Frame → Type 0
IsSteady [] = Unit
IsSteady (f ∷ []) = Unit
IsSteady (f ∷ g ∷ fs) = (g.at ≤ f.at) × (f.at ≤ g.at + max_elapsed) × IsSteady (g ∷ fs)

abbrev pub total_elapsed : List Frame → ℕ
total_elapsed [] = 0
total_elapsed (f ∷ fs) = f.elapsed + total_elapsed fs

-- When the first frame was captured.
abbrev pub first_at : Frame → List Frame → ℕ
first_at f [] = f.at
first_at f (g ∷ gs) = first_at g gs

total-IsTimed :
    (f : Frame) (fs : List Frame)
    → IsTimed (f ∷ fs)
    → (total_elapsed (f ∷ fs) ≤ max_elapsed * length fs)
      × (IsSteady (f ∷ fs) → first_at f fs + total_elapsed (f ∷ fs) ≡ f.at)
total-IsTimed f [] t = (omega (arith, t.0), λ s. omega (arith, t.0))
total-IsTimed f (g ∷ fs) t =
    let (most, exact) = total-IsTimed g fs t.1 in
    (omega (arith, t.0, most), λ s. omega (arith, t.0, s.0, s.1, exact s.2))

-- The media clock: over the frames that were handed out, `f` the last of them, the elapsed times add up
-- to the time from the capture of the first to that of the last, whatever was dropped between
-- them, where no two are more than five seconds apart; and never to more than five seconds each.
pub run_clock :
    (m : ℕ) (es : List Event) (f : Frame) (fs : List Frame)
    → (run m new_world es).frames ≡ f ∷ fs
    → (total_elapsed (f ∷ fs) ≤ max_elapsed * length fs)
      × (IsSteady (f ∷ fs) → first_at f fs + total_elapsed (f ∷ fs) ≡ f.at)
run_clock m es f fs e =
    total-IsTimed f fs (subst IsTimed e (run-Timed m new_world es new_world-Timed).frames)
