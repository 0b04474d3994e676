-- ===== src/Capture/World/Examples.antt =====
-- The theorems about the capture, at concrete inputs.
use freedesk.Prelude.{
  ℕ, ◌+◌, ◌*◌, ◌≤◌, ◌<◌, ◌≡◌, refl, ◌⊎◌, true, false, List, [], ◌∷◌, some, length, map,
}
use freedesk.Vpx.{Size, output_size}
use freedesk.Capture.Loop.{
  Grab, picture, unavailable, tick, with_converter, keyframe_due, new_converter, max_elapsed,
}
use freedesk.Capture.Mailbox.{take_image, load_image, send, merge, recycle}
use freedesk.Capture.Encode.{Answer, Frame, encode, call_encoder, frame_duration}
use freedesk.Capture.World.{new_world, Event, request, ticks, takes, step, run}
use freedesk.Capture.World.Buffers.{copies, occurs, box_image, run_apart}
use freedesk.Capture.World.Budget.{forces, marks}
use freedesk.Capture.World.Spacing.{IsSpaced, run-IsSpaced}
use freedesk.Capture.World.Requests.{is_pending, answers, run_kept}
use freedesk.Capture.World.Clock.{IsSteady, total_elapsed, first_at, run_clock}

abbrev desktop : Size
desktop = record { width = 2560; height = 1440 }

abbrev shown : Grab
shown = picture desktop true false true

abbrev still : Grab
still = picture desktop false false true

abbrev encodes : Answer
encodes = record { opens = true; packet = some 9; delivered = true }

-- A frame, a lock screen, and after a second a frame of a new encoder.
abbrev locked : List Event
locked =
    ticks 1000 shown
    ∷ takes encodes
    ∷ ticks 500001000 unavailable
    ∷ ticks 1000001000 shown
    ∷ takes encodes
    ∷ []

two_frames :
    (run 1920 new_world locked).frames
    ≡ record { bytes = 9; elapsed = 1000000000; at = 1000001000 }
      ∷ record { bytes = 9; elapsed = 0; at = 1000 }
      ∷ []
unfolding run step tick with_converter keyframe_due new_converter output_size take_image load_image
    send merge recycle encode call_encoder frame_duration
two_frames = refl

-- Two requests on a screen that stands still: one keyframe at once, the other after half a second.
abbrev asked_twice : List Event
asked_twice =
    ticks 1000 shown
    ∷ takes encodes
    ∷ request
    ∷ ticks 600000000 still
    ∷ takes encodes
    ∷ request
    ∷ ticks 900000000 still
    ∷ takes encodes
    ∷ ticks 1150000000 still
    ∷ takes encodes
    ∷ []

forced_later :
    map (λ c. c.force) (run 1920 new_world asked_twice).calls ≡ true ∷ false ∷ true ∷ false ∷ []
unfolding run step tick with_converter keyframe_due new_converter output_size take_image load_image
    send merge recycle encode call_encoder frame_duration
forced_later = refl

run_apart_example :
    let w = run 1920 new_world asked_twice in
    let img = (take_image w.free w.next (record { width = 1920; height = 1080 })).0 in
    ((b : ℕ) → copies b w ≤ 1)
    × (occurs img.buffer (box_image w.box) ≡ 0)
    × (occurs img.buffer w.enc.cur ≡ 0)
run_apart_example = run_apart 1920 asked_twice (record { width = 1920; height = 1080 })

run-IsSpaced_example :
    let w = run 1920 new_world asked_twice in IsSpaced w.drafts × (forces w.calls ≤ marks w.drafts)
run-IsSpaced_example = run-IsSpaced 1920 asked_twice

run_kept_example :
    let w = run 1920 new_world locked in
    let w' = run 1920 (step 1920 w request) (ticks 1600000000 still ∷ takes encodes ∷ []) in
    (is_pending w' ≡ true) ⊎ (answers w.calls < answers w'.calls) ⊎ (w'.encoding ≡ false)
run_kept_example = run_kept 1920 locked (ticks 1600000000 still ∷ takes encodes ∷ [])

abbrev second_frame : Frame
second_frame = record { bytes = 9; elapsed = 1000000000; at = 1000001000 }

abbrev first_frame : Frame
first_frame = record { bytes = 9; elapsed = 0; at = 1000 }

run_clock_example :
    (total_elapsed (second_frame ∷ first_frame ∷ []) ≤ max_elapsed * length (first_frame ∷ []))
    × (IsSteady (second_frame ∷ first_frame ∷ [])
        → first_at second_frame (first_frame ∷ []) + total_elapsed (second_frame ∷ first_frame ∷ [])
          ≡ second_frame.at)
run_clock_example = run_clock 1920 locked second_frame (first_frame ∷ []) two_frames
