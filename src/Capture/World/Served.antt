-- ===== src/Capture/World/Served.antt =====
-- capture/pipeline.go: the encoder has a picture for every job that it takes.
use freedesk.Prelude.{
  ℕ, ◌≡◌, refl, Bool, true, false, ◌&&◌, ◌||◌, List, [], ◌∷◌, Option, none, some, arith,
  if◌then◌else◌, ap, subst, ◌∙◌, Bool-cases, inl, inr, is_some, min, ◌==◌,
}
use freedesk.Vpx.{Size}
use freedesk.Capture.Loop.{Ticked, ended, idle, work, Draft, tick, max_elapsed}
use freedesk.Capture.Mailbox.{Image, Job, load_image, send, merge}
use freedesk.Capture.Encode.{
  Encoder, Encoded, gave_up, waits, fed, Answer, Call, encode, call_encoder, with_picture,
  next_picture, serving, packet_frame, since,
}
use freedesk.Capture.World.Buffers.{encoder_of, cur-with_picture}
use freedesk.Capture.World.Pending.{Keeps, tick-Keeps}
use freedesk.Capture.World.{
  World, Event, request, ticks, takes, stop, ticked, encoded, taken, step, run,
}

-- A job, or a call, that makes a keyframe: forced, or the first of a new encoder.
abbrev pub asks : Option Job → Bool
asks none = false
asks (some j) = j.restart || j.keyframe

abbrev pub has_image : Option Job → Bool → Bool
has_image none restart = restart
has_image (some j) restart = is_some j.img

-- The encoder has a picture, or the job that waits for it has, or the next one will.
pub record Served (w : World) : Type 0 where
  pub first : (is_some w.enc.cur || has_image w.box w.loop.restart) ≡ true

has_image-send :
    (box : Option Job) (free : List Image) (j : Job) (restart : Bool)
    → (is_some j.img || (is_some box && has_image box restart)) ≡ true
    → is_some (send box free j).0.img ≡ true
unfolding send merge
has_image-send none free j restart h = ground arith
has_image-send (some old) free j restart h = ground arith

pub load_image_flags :
    (d : Draft) (size : Size) (free : List Image) (next : ℕ)
    → let j = (load_image d size free next).0 in
      (asks (some j) ≡ (d.restart || d.keyframe)) × (is_some j.img ≡ d.load)
unfolding load_image
load_image_flags d size free next = ground arith

has_image_either :
    (b : Bool) (box : Option Job) (r r' : Bool)
    → (r ≡ true → r' ≡ true)
    → (b || has_image box r) ≡ true
    → (b || has_image box r') ≡ true
has_image_either true box r r' h k = refl
has_image_either false none r r' h k = h k
has_image_either false (some j) r r' h k = k

sent_image :
    (b : Bool) (box : Option Job) (free : List Image) (j : Job) (r : Bool)
    → (r ≡ true → is_some j.img ≡ true)
    → (b || has_image box r) ≡ true
    → (b || is_some (send box free j).0.img) ≡ true
sent_image true box free j r h k = refl
sent_image false none free j r h k = has_image-send none free j r (ground (arith, h k))
sent_image false (some old) free j r h k = has_image-send (some old) free j r (ground arith)

pub ticked-Served :
    (w : World) (t : Ticked) → Keeps w.want w.loop.restart t → Served w → Served (ticked w t)
ticked-Served w ended k s = record { first = s.first }
ticked-Served w (idle l want) k s = record {
  first = has_image_either (is_some w.enc.cur) w.box _ _ k.1 s.first;
}
ticked-Served w (work l want c d) k s =
    let loaded = load_image_flags d c.out w.free w.next in
    record {
      first =
          sent_image (is_some w.enc.cur) w.box _ _ w.loop.restart (λ e. loaded.1 ∙ k.1 e) s.first;
    }

-- The encoder gave up, or was called for the job.
abbrev pub Serves : Job → Encoded → Type 0
Serves j (gave_up e cs) = Unit
Serves j (waits e) = ⊥
Serves j (fed e c f) = (c.force || c.fresh) ≡ (asks (some j) || c.fresh)

packet_frame-Serves :
    (j : Job) (e : Encoder) (c : Call) (delivered : Bool) (packet : Option ℕ)
    → (c.force || c.fresh) ≡ (asks (some j) || c.fresh)
    → Serves j (packet_frame e c delivered packet)
packet_frame-Serves j e c delivered none h = tt
packet_frame-Serves j e c delivered (some n) h = elim (Bool-cases (n == 0)) [
  | inl empty ↦ rw empty h
  | inr full ↦ rw full (by_delivery delivered)
]
  where
    by_delivery :
        (d : Bool)
        → Serves j (
            if d
            then fed
                (record e { last_sent = some c.at })
                c
                (some (record {
                  bytes = n;
                  elapsed = min (since c.at e.last_sent) max_elapsed;
                  at = c.at;
                }))
            else gave_up e (c ∷ []))
    by_delivery true = h
    by_delivery false = tt

pub with_picture-Serves :
    (e : Encoder) (cur : Option Image) (j : Job) (a : Answer)
    → is_some cur ≡ true
    → Serves j (with_picture e cur j a)
unfolding call_encoder
with_picture-Serves e none j a h = cc
with_picture-Serves e (some img) j a h = elim (Bool-cases (serving j.restart img.size e.size)) [
  | inl serves ↦
      rw serves (packet_frame-Serves j _ _ a.delivered a.packet (not_restarted e.size serves))
  | inr not_it ↦ rw not_it (elim (Bool-cases a.opens) [
    | inl opens ↦ rw opens (packet_frame-Serves j _ _ a.delivered a.packet (ground arith))
    | inr shut ↦ rw shut tt
  ])
]
  where
    not_restarted :
        (size : Option Size)
        → serving j.restart img.size size ≡ true
        → (j.keyframe || false) ≡ (j.restart || j.keyframe || false)
    not_restarted none h = cc
    not_restarted (some s) h = ground arith

pub next_picture_some :
    (cur img : Option Image) (free : List Image)
    → (is_some cur || is_some img) ≡ true
    → is_some (next_picture cur img free).0 ≡ true
next_picture_some cur none free h = ground arith
next_picture_some none (some img) free h = refl
next_picture_some (some old) (some img) free h = refl

pub encoded-Served :
    (w : World) (x : Encoded) (free : List Image)
    → is_some (encoder_of x).cur ≡ true
    → Served (encoded w (x, free))
encoded-Served w (gave_up e cs) free h = record { first = ground arith }
encoded-Served w (waits e) free h = record { first = ground arith }
encoded-Served w (fed e c f) free h = record { first = ground arith }

-- The encoder has a picture once it took a job.
pub taken_some :
    (w : World) (j : Job)
    → w.box ≡ some j
    → Served w
    → is_some (next_picture w.enc.cur j.img w.free).0 ≡ true
taken_some w j e h =
    next_picture_some w.enc.cur j.img w.free
      (subst (λ b. (is_some w.enc.cur || has_image b w.loop.restart) ≡ true) e h.first)

-- Taking a job, where the encoder has or gets a picture.
pub taken-Served :
    (w : World) (box : Option Job) (a : Answer) → w.box ≡ box → Served w → Served (taken w box a)
unfolding encode
taken-Served w none a e h = h
taken-Served w (some j) a e h =
    let (cur, free) = next_picture w.enc.cur j.img w.free in
    encoded-Served w (with_picture (record w.enc { cur = cur }) cur j a) free
      (ap is_some (cur-with_picture (record w.enc { cur = cur }) cur j a refl) ∙ taken_some w j e h)

if-Served : (c : Bool) (x y : World) → Served x → Served y → Served (if c then x else y)
if-Served true x y h k = h
if-Served false x y h k = k

pub step-Served : (m : ℕ) (w : World) (e : Event) → Served w → Served (step m w e)
unfolding step
step-Served m w request h = record { first = h.first }
step-Served m w stop h = record { first = h.first }
step-Served m w (ticks now g) h =
    if-Served w.capturing _ _
      (ticked-Served w (tick m w.loop w.want now g) (tick-Keeps m w.loop w.want now g) h) h
step-Served m w (takes a) h = if-Served w.encoding _ _ (taken-Served w w.box a refl h) h

pub run-Served : (m : ℕ) (w : World) (es : List Event) → Served w → Served (run m w es)
unfolding run
run-Served m w [] h = h
run-Served m w (e ∷ es) h = run-Served m (step m w e) es (step-Served m w e h)
