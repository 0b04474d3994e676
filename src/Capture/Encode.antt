-- ===== src/Capture/Encode.antt =====
-- capture/pipeline.go, `encode` and frameDuration: what the encoder is fed, and the frames it gives.
-- The encoder itself is libvpx: whether it starts, and the size of its packet or its error, are the
-- environment of a job.
use freedesk.Prelude.{
  ℕ, ◌+◌, ◌-◌, ◌*◌, ◌/◌, min, max, Bool, true, false, not, ◌||◌, List, [], ◌∷◌, Option, none, some,
  if◌then◌else◌, ◌==◌, is_some,
}
use freedesk.Vpx.{Size}
use freedesk.Capture.Loop.{same_size, max_elapsed, max_ticks_per_frame}
use freedesk.Capture.Mailbox.{Image, Job, recycle}

-- time.Second / framerate, at 30 frames a second.
abbrev pub interval : ℕ
interval = 1000000000 / 30

unfoldable pub frame_duration : Bool → ℕ → ℕ → ℕ
frame_duration repeat gap interval =
    if repeat then interval else min (max gap interval) (max_ticks_per_frame * interval)

-- The variables of the loop; `size` is that of the encoder, if one is open.
pub record Encoder : Type 0 where
  pub cur : Option Image
  pub size : Option Size
  pub pts : ℕ
  pub last_enc : Option ℕ
  pub last_sent : Option ℕ

abbrev pub new_encoder : Encoder
new_encoder = record { cur = none; size = none; pts = 0; last_enc = none; last_sent = none }

-- A call of Encode. `fresh` is whether the encoder was just opened.
pub record Call : Type 0 where
  pub img : Image
  pub at : ℕ
  pub pts : ℕ
  pub duration : ℕ
  pub force : Bool
  pub fresh : Bool

-- What libvpx answers: whether an encoder opens, and the bytes of the packet, unless it fails; and
-- whether the frame is taken before the context ends.
pub record Answer : Type 0 where
  pub opens : Bool
  pub packet : Option ℕ
  pub delivered : Bool

pub record Frame : Type 0 where
  pub bytes : ℕ
  pub elapsed : ℕ
  pub at : ℕ

-- The encoder gives up, has no picture yet, or was called and gave a frame or none.
pub data Encoded : Type 0 where
  gave_up : Encoder → List Call → Encoded
  waits : Encoder → Encoded
  fed : Encoder → Call → Option Frame → Encoded

-- `j.at.Sub(last)`, 0 where there is no last.
abbrev pub since : ℕ → Option ℕ → ℕ
since now none = 0
since now (some t) = now - t

abbrev pub packet_frame : Encoder → Call → Bool → Option ℕ → Encoded
packet_frame e c delivered none = gave_up e (c ∷ [])
packet_frame e c delivered (some n) =
    if n == 0
    then fed e c none
    else if delivered
    then fed (record e { last_sent = some c.at }) c
        (some (record { bytes = n; elapsed = min (since c.at e.last_sent) max_elapsed; at = c.at }))
    else gave_up e (c ∷ [])

-- An open encoder is called.
unfoldable pub call_encoder : Encoder → Image → Job → Bool → Answer → Encoded
call_encoder e img j fresh a =
    let duration = frame_duration (not (is_some j.img)) (since j.at e.last_enc) interval in
    packet_frame (record e { pts = e.pts + duration; last_enc = some j.at })
      (record {
        img = img;
        at = j.at;
        pts = e.pts;
        duration = duration;
        force = j.keyframe;
        fresh = fresh;
      })
      a.delivered a.packet

-- The encoder that serves for an image, if the one that is open does.
abbrev pub serving : Bool → Size → Option Size → Bool
serving restart size none = false
serving restart size (some s) = not (restart || not (same_size s size))

abbrev pub with_picture : Encoder → Option Image → Job → Answer → Encoded
with_picture e none j a = waits e
with_picture e (some img) j a =
    if serving j.restart img.size e.size
    then call_encoder e img j false a
    else if a.opens
    then call_encoder (record e { size = some img.size; pts = 0; last_enc = none }) img j true a
    else gave_up (record e { size = none }) []

-- `cur`, and the free images, once the job's picture is taken.
abbrev pub next_picture : Option Image → Option Image → List Image → Option Image × List Image
next_picture cur none free = (cur, free)
next_picture none (some img) free = (some img, free)
next_picture (some old) (some img) free = (some img, recycle free old)

unfoldable pub encode : Encoder → List Image → Job → Answer → Encoded × List Image
encode e free j a =
    let (cur, free') = next_picture e.cur j.img free in
    (with_picture (record e { cur = cur }) cur j a, free')
